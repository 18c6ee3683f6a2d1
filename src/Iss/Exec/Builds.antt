-- ===== src/Iss/Exec/Builds.antt =====
-- The builds of RISCV-VP/iss.cpp with `PIPELINE_TIMING` and `BRANCH_TIMING` beside the one without:
-- what it is for an action of a timed build to follow an action of the plain one.
pub mod Accesses
pub mod Groups
pub mod Reservation
pub mod Coprocessor
pub mod Whole
pub mod Timing
use vcil.Prelude.{
  ℕ, ◌≡◌, refl, sym, ap, subst, ◌∙◌, Bool, true, false, Option, none, some, arith, Option-cases,
  inl, inr,
}
use vcil.Timing.Pipeline.{Pipeline}
use vcil.Timing.Pipeline.Elapse.{IsValid}
use vcil.Timing.Predictor.{BranchPredictor}
use vcil.Timing.Predictor.Outcome.{IsPredictor}
use vcil.Iss.{SimulationTrap}
use vcil.Iss.Step.{Core}
use vcil.Iss.Exec.{
  Units, Result, returned, thrown, stopped, Action, pure, ◌>>=◌, ◌>>◌, gets, modify, throw, check,
  on_pipeline, on_predictor, call_memory, MemoryResult, value, fault,
}

-- The pipeline and the branch predictor are well-formed.
pub record IsTimed {M : Type 0} (c : Core (Units M)) : Type 0 where
  pub pipeline : IsValid c.pipeline
  pub predictor : IsPredictor c.units.branch_predictor

-- The state in place of that of the timing models.
pub record Blank : Type 0 where
  pub pipeline : Pipeline
  pub predictor : BranchPredictor

module _ {M : Type 0} (k : Blank) where
  -- The core without its timing.
  abbrev pub strip : Core (Units M) → Core (Units M)
  strip c = record c {
    pipeline = k.pipeline;
    units = record (c.units) { branch_predictor = k.predictor };
  }

  abbrev pub strip_result : {A : Type 0} → Result A (Units M) → Result A (Units M)
  strip_result (returned a c) = returned a (strip c)
  strip_result (thrown e c) = thrown e (strip c)
  strip_result stopped = stopped

abbrev pub ResultIsTimed : {M A : Type 0} → Result A (Units M) → Type 0
ResultIsTimed (returned a c) = IsTimed c
ResultIsTimed (thrown e c) = IsTimed c
ResultIsTimed stopped = Unit {0}

-- From a well-formed core the timed action ends as the plain action does from the core without its
-- timing: with the same value or trap and the same state but for the timing. The timing stays
-- well-formed.
pub record Follows {M A : Type 0} (k : Blank) (m n : Action A (Units M)) (c : Core (Units M))
    : Type 0 where
  pub well_formed : ResultIsTimed (m c)
  pub same : strip_result k (m c) ≡ n (strip k c)

abbrev pub AlwaysFollows : {M A : Type 0} → Blank → Action A (Units M) → Action A (Units M) → Type 0
AlwaysFollows {M} k m n = (c : Core (Units M)) → IsTimed c → Follows k m n c
