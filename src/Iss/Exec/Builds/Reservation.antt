-- ===== src/Iss/Exec/Builds/Reservation.antt =====
-- LR.W of RISCV-VP/iss.cpp: the builds give a reservation that is counting down different counters.
use vcil.Prelude.{ℕ, ◌≡◌, refl, ◌∙◌, Bool, true, false, some, if◌then◌else◌, ◌==◌, arith}
use vcil.Prelude.Int.{pos}
use vcil.Timing.Pipeline.{Pipeline, Range, find, do_load}
use vcil.Timing.Pipeline.Elapse.{IsValid}
use vcil.Timing.Pipeline.Issue.{load, run_op}
use vcil.Iss.Step.{Core}
use vcil.Iss.Exec.{
  Build, plain_build, Units, Instruction, Action, pure, ◌>>=◌, ◌>>◌, gets, check, set_reg,
  set_lr_sc_counter, call_memory, timed, a_isa_ext, Hardware, read, write, require_isa,
}
use vcil.Iss.Exec.Instr.{exec_lr_w, renewed, lr_sc_instructions, range}
use vcil.Iss.Exec.Builds.{
  IsTimed, Blank, strip, strip_result, ResultIsTimed, Follows, AlwaysFollows,
}
use vcil.Iss.Exec.Builds.Accesses.{
  AccessLaws, bind-Follows, check-Follows, call_memory-Follows, read-Follows, require_isa-Follows,
}
use vcil.Iss.Exec.Builds.Groups.{run_op-passes}

load-passes :
    (addrs : Range) (rd : ℕ) (p : Pipeline)
    → IsValid p
    → find p.pending_register_latencies rd ≡ false
    → (q : Pipeline) × (do_load addrs rd (pos 2) p ≡ some q) × IsValid q
unfolding run_op
load-passes addrs rd p w free = run_op-passes (load addrs 2) rd p (omega arith) w free

module _ {M : Type 0} (hw : Hardware M) (i : Instruction) where
  -- LR.W of the plain build with a counter that is given.
  unfoldable pub with_counter : (ℕ → ℕ) → Action (Unit {0}) (Units M)
  with_counter f = do
    require_isa hw a_isa_ext i
    addr ← read hw plain_build i.rs1
    check (hw.trap_check_addr_alignment 4 true addr)
    v ← call_memory (hw.atomic_load_reserved_word addr)
    write hw plain_build i.rd v
    counter ← gets λ c. c.hart.lr_sc_counter
    set_lr_sc_counter (f counter)

  with_counter-same :
      (f g : ℕ → ℕ) (d : Core (Units M))
      → f d.hart.lr_sc_counter ≡ g d.hart.lr_sc_counter
      → with_counter f d ≡ with_counter g d
  unfolding with_counter require_isa read write
  with_counter-same f g d h = ground arith

module _ {M : Type 0} (k : Blank) (hw : Hardware M) (build : Build) (laws : AccessLaws hw)
    (i : Instruction) where
  -- The write of the result, the counter and the wait.
  reserved-Follows :
      (addr v : ℕ)
      → AlwaysFollows {M = M} k
          (write hw build i.rd v
            >> (gets (λ c. c.hart.lr_sc_counter) >>= λ counter.
                set_lr_sc_counter (renewed hw build i counter)
                >> timed build.pipeline_timing (do_load (range addr 4) i.rd (pos 2))))
          (write hw plain_build i.rd v
            >> (gets (λ c. c.hart.lr_sc_counter) >>= λ counter.
                set_lr_sc_counter (renewed hw build i counter)))
  unfolding write
  reserved-Follows addr v = by_build build.pipeline_timing
    where
      by_build :
          (b : Bool)
          → AlwaysFollows {M = M} k
              ((timed b (hw.write_access i.rd) >> set_reg i.rd v)
                >> (gets (λ c. c.hart.lr_sc_counter) >>= λ counter.
                    set_lr_sc_counter (renewed hw build i counter)
                    >> timed b (do_load (range addr 4) i.rd (pos 2))))
              ((pure tt >> set_reg i.rd v)
                >> (gets (λ c. c.hart.lr_sc_counter) >>= λ counter.
                    set_lr_sc_counter (renewed hw build i counter)))
      by_build false c w = record {
        well_formed = record { pipeline = w.pipeline; predictor = w.predictor };
        same = refl;
      }
      by_build true c w =
          let (q, e, valid, free) = laws.writes i.rd c.pipeline w.pipeline in
          let (q', e', valid') = load-passes (range addr 4) i.rd q valid free in
          record {
            well_formed =
                rw (e, e', ResultIsTimed) (record { pipeline = valid'; predictor = w.predictor });
            same = rw (e, e', strip_result) refl;
          }

  pub lr_w-Follows : AlwaysFollows k (exec_lr_w hw build i) (with_counter hw i (renewed hw build i))
  unfolding exec_lr_w with_counter
  lr_w-Follows = bind-Follows k (require_isa-Follows k hw build laws a_isa_ext i) λ _.
      bind-Follows k (read-Follows k hw build laws i.rs1) λ addr.
        bind-Follows k (check-Follows k (hw.trap_check_addr_alignment 4 true addr)) λ _.
          bind-Follows k (call_memory-Follows k (hw.atomic_load_reserved_word addr))
            λ v. reserved-Follows addr v

  -- With no reservation that is counting down, LR.W does in a timed build what it does in the plain
  -- one.
  pub exec_lr_w-Follows :
      (c : Core (Units M))
      → IsTimed c
      → c.hart.lr_sc_counter ≡ 0
      → Follows k (exec_lr_w hw build i) (exec_lr_w hw plain_build i) c
  unfolding exec_lr_w renewed
  exec_lr_w-Follows c w h =
      let f = lr_w-Follows c w in
      record {
        well_formed = f.well_formed;
        same =
            f.same
            ∙ with_counter-same hw i (renewed hw build i) (renewed hw plain_build i) (strip k c)
                (at_zero build.pipeline_timing c.hart.lr_sc_counter h)
            ∙ plain_counter (strip k c);
      }
    where
      at_zero :
          (b : Bool) (n : ℕ)
          → n ≡ 0
          → (if b then lr_sc_instructions else if n == 0 then lr_sc_instructions else n)
            ≡ (if n == 0 then lr_sc_instructions else n)
      at_zero true n h = ground arith
      at_zero false n h = refl

      plain_counter :
          (d : Core (Units M))
          → with_counter hw i (renewed hw plain_build i) d ≡ exec_lr_w hw plain_build i d
      plain_counter d = unfold with_counter in refl
