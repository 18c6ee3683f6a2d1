-- ===== src/Iss/Exec/Builds/Accesses.antt =====
-- The actions of RISCV-VP/iss.cpp in a timed build follow those of the plain one.
use vcil.Prelude.{ℕ, ◌≡◌, refl, sym, ap, ◌∙◌, Bool, true, false, Option, none, some}
use vcil.Timing.Pipeline.{Pipeline, find}
use vcil.Timing.Pipeline.Elapse.{IsValid}
use vcil.Timing.Predictor.{BranchPredictor}
use vcil.Timing.Predictor.Outcome.{IsPredictor}
use vcil.Iss.{SimulationTrap}
use vcil.Iss.Step.{Core}
use vcil.Iss.Exec.{
  Build, plain_build, Units, Result, returned, thrown, stopped, Action, MemoryResult, value, fault,
  pure, ◌>>=◌, ◌>>◌, gets, modify, check, on_pipeline, timed, set_reg, with_memory, call_memory,
  on_predictor, predicted, IsaExtension, Instruction, Hardware, read, write, require_isa,
}
use vcil.Iss.Exec.Builds.{IsTimed, Blank, strip, strip_result, ResultIsTimed, AlwaysFollows}

-- An access of the pipeline fails no assertion and keeps it well-formed.
abbrev pub Passes : (Pipeline → Option Pipeline) → Type 0
Passes f = (p : Pipeline) → IsValid p → (q : Pipeline) × (f p ≡ some q) × IsValid q

abbrev pub PredictorPasses :
    (BranchPredictor → Pipeline → Option (BranchPredictor × Pipeline)) → Type 0
PredictorPasses f =
    (b : BranchPredictor) (p : Pipeline)
    → IsPredictor b
    → IsValid p
    → (b' : BranchPredictor) × (q : Pipeline) × (f b p ≡ some (b', q)) × IsPredictor b' × IsValid q

-- After a write the register has no pending result.
abbrev pub Frees : ℕ → (Pipeline → Option Pipeline) → Type 0
Frees rd f =
    (p : Pipeline)
    → IsValid p
    → (q : Pipeline) × (f p ≡ some q) × IsValid q × (find q.pending_register_latencies rd ≡ false)

-- What is asked of the timing of `read` and `write`.
pub record AccessLaws {M : Type 0} (hw : Hardware M) : Type 0 where
  pub reads : (r : ℕ) → Passes (hw.read_access r)
  pub writes : (r : ℕ) → Frees r (hw.write_access r)

-- What follows an action, by its result.
abbrev pub handed :
    {M A B : Type 0} → (A → Action B (Units M)) → Result A (Units M) → Result B (Units M)
handed h s = elim s [ returned a d ↦ h a d | thrown e d ↦ thrown e d | stopped ↦ stopped ]

module _ {M : Type 0} (k : Blank) where
  bind_result :
      {A B : Type 0} (r r' : Result A (Units M)) (f g : A → Action B (Units M))
      → ResultIsTimed r
      → strip_result k r ≡ r'
      → ((a : A) → AlwaysFollows k (f a) (g a))
      → ResultIsTimed (handed f r) × (strip_result k (handed f r) ≡ handed g r')
  bind_result (returned a d) r' f g v e h =
      let next = h a d v in (next.well_formed, next.same ∙ ap (handed g) e)
  bind_result (thrown t d) r' f g v e h = (v, ap (handed g) e)
  bind_result stopped r' f g v e h = (tt, ap (handed g) e)

  pub bind-Follows :
      {A B : Type 0} {m n : Action A (Units M)} {f g : A → Action B (Units M)}
      → AlwaysFollows k m n
      → ((a : A) → AlwaysFollows k (f a) (g a))
      → AlwaysFollows k (m >>= f) (n >>= g)
  bind-Follows {m} {n} {f} {g} follows next c w =
      let first = follows c w in
      let r = bind_result (m c) (n (strip k c)) f g first.well_formed first.same next in
      record { well_formed = r.0; same = r.1 }

  pub pure-Follows : {A : Type 0} (a : A) → AlwaysFollows {M = M} k (pure a) (pure a)
  pure-Follows a c w = record { well_formed = w; same = refl }

  pub gets-Follows :
      {A : Type 0} (f : Core (Units M) → A)
      → ((c : Core (Units M)) → f (strip k c) ≡ f c)
      → AlwaysFollows k (gets f) (gets f)
  gets-Follows f h c w = record {
    well_formed = w;
    same = ap (λ a. returned a (strip k c)) (sym (h c));
  }

  pub modify-Follows :
      (g : Core (Units M) → Core (Units M))
      → ((c : Core (Units M)) → IsTimed c → IsTimed (g c))
      → ((c : Core (Units M)) → strip k (g c) ≡ g (strip k c))
      → AlwaysFollows k (modify g) (modify g)
  modify-Follows g v h c w = record { well_formed = v c w; same = ap (returned tt) (h c) }

  pub check-Follows : (t : Option SimulationTrap) → AlwaysFollows {M = M} k (check t) (check t)
  check-Follows none c w = record { well_formed = w; same = refl }
  check-Follows (some e) c w = record { well_formed = w; same = refl }

  memory_result :
      {A : Type 0} (c : Core (Units M)) (r : MemoryResult A M)
      → IsTimed c
      → let after = λ (d : Core (Units M)).
        let t : Result A (Units M) = elim r [
          | value a m ↦ returned a (with_memory d m)
          | fault e m ↦ thrown e (with_memory d m)
        ] in
        t in
        ResultIsTimed (after c) × (strip_result k (after c) ≡ after (strip k c))
  memory_result c (value a m) w = (record { pipeline = w.pipeline; predictor = w.predictor }, refl)
  memory_result c (fault e m) w = (record { pipeline = w.pipeline; predictor = w.predictor }, refl)

  pub call_memory-Follows :
      {A : Type 0} (f : M → MemoryResult A M) → AlwaysFollows k (call_memory f) (call_memory f)
  call_memory-Follows f c w =
      let r = memory_result c (f c.units.memory) w in record { well_formed = r.0; same = r.1 }

  -- The timing of the pipeline and of the predictor leaves no trace.
  pub on_pipeline-Follows :
      (f : Pipeline → Option Pipeline)
      → Passes f
      → AlwaysFollows {M = M} k (on_pipeline f) (pure tt)
  on_pipeline-Follows f passes c w =
      let (q, e, v) = passes c.pipeline w.pipeline in
      record {
        well_formed = rw (e, ResultIsTimed) (record { pipeline = v; predictor = w.predictor });
        same = rw (e, strip_result) refl;
      }

  pub timed-Follows :
      (b : Bool) (f : Pipeline → Option Pipeline)
      → Passes f
      → AlwaysFollows {M = M} k (timed b f) (pure tt)
  timed-Follows true f passes = on_pipeline-Follows f passes
  timed-Follows false f passes = pure-Follows tt

  pub on_predictor-Follows :
      (f : BranchPredictor → Pipeline → Option (BranchPredictor × Pipeline))
      → PredictorPasses f
      → AlwaysFollows {M = M} k (on_predictor f) (pure tt)
  on_predictor-Follows f passes c w =
      let (b', q, e, p, v) = passes c.units.branch_predictor c.pipeline w.predictor w.pipeline in
      record {
        well_formed = rw (e, ResultIsTimed) (record { pipeline = v; predictor = p });
        same = rw (e, strip_result) refl;
      }

  pub predicted-Follows :
      (b : Bool) (f : BranchPredictor → Pipeline → Option (BranchPredictor × Pipeline))
      → PredictorPasses f
      → AlwaysFollows {M = M} k (predicted b f) (pure tt)
  predicted-Follows false f passes = pure-Follows tt
  predicted-Follows true f passes = on_predictor-Follows f passes

  module _ (hw : Hardware M) (build : Build) (laws : AccessLaws hw) where
    pub read-Follows : (r : ℕ) → AlwaysFollows k (read hw build r) (read hw plain_build r)
    unfolding read
    read-Follows r =
        bind-Follows (timed-Follows build.pipeline_timing (hw.read_access r) (laws.reads r))
          λ _. gets-Follows (λ c. c.regs r) (λ c. refl)

    -- A write, and then a call that leaves its result pending.
    pub write_pending-Follows :
        (r v : ℕ) (f : Pipeline → Option Pipeline)
        → ((p : Pipeline)
            → IsValid p
            → find p.pending_register_latencies r ≡ false
            → (q : Pipeline) × (f p ≡ some q) × IsValid q)
        → AlwaysFollows k
            (write hw build r v >> timed build.pipeline_timing f)
            (write hw plain_build r v >> pure tt)
    unfolding write
    write_pending-Follows r v f passes = by_build build.pipeline_timing
      where
        by_build :
            (b : Bool)
            → AlwaysFollows {M = M} k
                ((timed b (hw.write_access r) >> set_reg r v) >> timed b f)
                ((pure tt >> set_reg r v) >> pure tt)
        by_build false c w = record {
          well_formed = record { pipeline = w.pipeline; predictor = w.predictor };
          same = refl;
        }
        by_build true c w =
            let (q, e, valid, free) = laws.writes r c.pipeline w.pipeline in
            let (q', e', valid') = passes q valid free in
            record {
              well_formed =
                  rw (e, e', ResultIsTimed) (record { pipeline = valid'; predictor = w.predictor });
              same = rw (e, e', strip_result) refl;
            }

    pub write-Follows : (r v : ℕ) → AlwaysFollows k (write hw build r v) (write hw plain_build r v)
    unfolding write
    write-Follows r v =
        bind-Follows
          (timed-Follows build.pipeline_timing (hw.write_access r)
            (λ p w. let (q, e, valid, _) = laws.writes r p w in (q, e, valid)))
          λ _.
            modify-Follows (λ c. record c { regs = vcil.Firmware.Arrays.put c.regs r v })
              (λ c w. record { pipeline = w.pipeline; predictor = w.predictor }) (λ c. refl)

    pub require_isa-Follows :
        (x : IsaExtension) (i : Instruction)
        → AlwaysFollows k (require_isa hw x i) (require_isa hw x i)
    unfolding require_isa
    require_isa-Follows x i = check-Follows _
