-- ===== src/Iss/Exec/Builds/Timing.antt =====
-- `exec_step` of RISCV-VP/iss.cpp keeps pipeline and branch predictor well-formed.
use vcil.Prelude.{ℕ, ◌≡◌, Option, none, some, Bool, true, false, not, ◌&&◌, if◌then◌else◌}
use vcil.Iss.{SimulationTrap}
use vcil.Iss.Step.{Core, Outcome, done, raised, aborted}
use vcil.Iss.Exec.{
  Build, Units, Instruction, Result, returned, thrown, stopped, Action, MemoryResult, value, fault,
  pure, ◌>>=◌, check, require_isa, Hardware, with_memory,
}
use vcil.Iss.Exec.Custom.{Coprocessor}
use vcil.Iss.Exec.Step.{
  is_undef, Frontend, Decoded, fetch, advance_pc, run_instruction, exec_step, Operation, undef,
  custom3, jal, jalr, fence, fence_i, ecall, ebreak, lr_w, sc_w, unsupported, imm, shift, reg,
  upper, branch, load, store, mul, xret, execute,
}
use vcil.Iss.Exec.Builds.{IsTimed, Blank, ResultIsTimed}
use vcil.Iss.Exec.Builds.Accesses.{AccessLaws, handed}
use vcil.Iss.Exec.Builds.Whole.{execute-Follows}
use vcil.Iss.Exec.Builds.Reservation.{lr_w-Follows}
use vcil.Iss.Exec.Builds.Coprocessor.{DevicesTakeTime}

-- An action that keeps pipeline and predictor well-formed.
abbrev pub KeepsTiming : {M A : Type 0} → Action A (Units M) → Type 0
KeepsTiming {M} m = (c : Core (Units M)) → IsTimed c → ResultIsTimed (m c)

after_result :
    {M A B : Type 0} (r : Result A (Units M)) (f : A → Action B (Units M))
    → ResultIsTimed r
    → ((a : A) → KeepsTiming (f a))
    → ResultIsTimed (handed f r)
after_result (returned a d) f v h = h a d v
after_result (thrown t d) f v h = v
after_result stopped f v h = tt

bind-KeepsTiming :
    {M A B : Type 0} (m : Action A (Units M)) (f : A → Action B (Units M))
    → KeepsTiming m
    → ((a : A) → KeepsTiming (f a))
    → KeepsTiming (m >>= f)
bind-KeepsTiming m f v h c w = after_result (m c) f (v c w) h

abbrev pub OutcomeIsTimed : {M : Type 0} → Outcome (Units M) → Type 0
OutcomeIsTimed (done c) = IsTimed c
OutcomeIsTimed (raised e c) = IsTimed c
OutcomeIsTimed aborted = Unit {0}

module _ {M : Type 0} (hw : Hardware M) (nice : Coprocessor) (build : Build) (laws : AccessLaws hw)
    (slow : DevicesTakeTime nice) (front : Frontend M) where
  execute-KeepsTiming :
      (op : Operation) (i : Instruction) → KeepsTiming (execute hw nice build op i)
  unfolding execute
  execute-KeepsTiming op i c w = go op
    where
      k : Blank
      k = record { pipeline = c.pipeline; predictor = c.units.branch_predictor }

      other :
          (op : Operation)
          → (op ≡ lr_w → c.hart.lr_sc_counter ≡ 0)
          → ResultIsTimed (execute hw nice build op i c)
      other op h = (execute-Follows k hw nice build laws slow i op c h w).well_formed

      go : (op : Operation) → ResultIsTimed (execute hw nice build op i c)
      go undef = other undef cc
      go custom3 = other custom3 cc
      go jal = other jal cc
      go jalr = other jalr cc
      go fence = other fence cc
      go fence_i = other fence_i cc
      go ecall = other ecall cc
      go ebreak = other ebreak cc
      go lr_w = (lr_w-Follows k hw build laws i c w).well_formed
      go sc_w = other sc_w cc
      go unsupported = other unsupported cc
      go (imm op) = other (imm op) cc
      go (shift op) = other (shift op) cc
      go (reg op) = other (reg op) cc
      go (upper op) = other (upper op) cc
      go (branch op) = other (branch op) cc
      go (load op) = other (load op) cc
      go (store op) = other (store op) cc
      go (mul op) = other (mul op) cc
      go (xret op) = other (xret op) cc

  pub fetch-KeepsTiming : KeepsTiming (fetch hw nice build front)
  unfolding fetch
  fetch-KeepsTiming c w = go (front.load_instr c.hart.pc c.units.memory)
    where
      go :
          (r : MemoryResult ℕ M)
          → let t : Result ℕ (Units M) = elim r [
            | value x m ↦ returned x (with_memory c m)
            | fault e m ↦ thrown e (record (with_memory c m) { op = front.opcode undef })
          ] in
            ResultIsTimed t
      go (value x m) = record { pipeline = w.pipeline; predictor = w.predictor }
      go (fault e m) = record { pipeline = w.pipeline; predictor = w.predictor }

  either_keeps :
      (b : Bool) (m n : Action (Unit {0}) (Units M))
      → KeepsTiming m
      → KeepsTiming n
      → KeepsTiming (if b then m else n)
  either_keeps true m n h h' = h
  either_keeps false m n h h' = h'

  check-KeepsTiming : (t : Option SimulationTrap) → KeepsTiming {M = M} (check t)
  check-KeepsTiming none c w = w
  check-KeepsTiming (some e) c w = w

  pub advance_pc-KeepsTiming : (d : Decoded) → KeepsTiming (advance_pc hw nice build front d)
  unfolding advance_pc require_isa
  advance_pc-KeepsTiming d c w =
      either_keeps (not d.is_custom && d.is_compressed && not (is_undef d.operation)) _ (pure tt)
        (check-KeepsTiming _) (λ c w. w) _
        (record { pipeline = w.pipeline; predictor = w.predictor })

  ends :
      (r : Result (Unit {0}) (Units M))
      → ResultIsTimed r
      → let o : Outcome (Units M) = elim r [
        | returned _ d ↦ done d
        | thrown e d ↦ raised e d
        | stopped ↦ aborted
      ] in
        OutcomeIsTimed o
  ends (returned a d) w = w
  ends (thrown e d) w = w
  ends stopped w = tt

  -- A step keeps pipeline and predictor well-formed, unless it aborts.
  pub exec_step-IsTimed :
      (c : Core (Units M)) → IsTimed c → OutcomeIsTimed (exec_step hw nice build front c)
  unfolding exec_step run_instruction
  exec_step-IsTimed c w = aligned (front.pc_is_aligned c.hart.pc)
    where
      runs : KeepsTiming (run_instruction hw nice build front)
      runs = bind-KeepsTiming _ _ fetch-KeepsTiming λ x.
          let d : Decoded = front.decode x in
          bind-KeepsTiming _ _ (advance_pc-KeepsTiming d)
            λ _. execute-KeepsTiming d.operation d.instruction

      aligned :
          (b : Bool)
          → let o : Outcome (Units M) = elim (run_instruction hw nice build front c) [
            | returned _ d ↦ done d
            | thrown e d ↦ raised e d
            | stopped ↦ aborted
          ] in
            OutcomeIsTimed (if b then o else aborted)
      aligned true = ends (run_instruction hw nice build front c) (runs c w)
      aligned false = tt
