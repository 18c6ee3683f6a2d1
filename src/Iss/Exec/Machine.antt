-- ===== src/Iss/Exec/Machine.antt =====
-- The loop of RISCV-VP/iss.cpp with the instructions of `exec_step`.
use vcil.Prelude.{ℕ}
use vcil.Timing.Predictor.Outcome.{IsPredictor}
use vcil.Iss.Interrupt.{InterruptBit}
use vcil.Iss.Step.{Outcome, done, raised, aborted, Environment}
use vcil.Iss.Step.Invariant.{OutcomeIsKept, KeepsPipeline}
use vcil.Iss.Exec.{Build, Units, Hardware}
use vcil.Iss.Exec.Custom.{Coprocessor}
use vcil.Iss.Exec.Step.{Frontend, exec_step}
use vcil.Iss.Exec.Builds.Accesses.{AccessLaws}
use vcil.Iss.Exec.Builds.Coprocessor.{DevicesTakeTime}
use vcil.Iss.Exec.Builds.Timing.{OutcomeIsTimed, exec_step-IsTimed}

-- What the loop takes from headers beside the instructions.
pub record Platform : Type 0 where
  pub position : InterruptBit → ℕ
  pub exception : InterruptBit → ℕ
  pub release : ℕ → ℕ
  pub instr_cycles : ℕ → ℕ

-- The loop's environment, with the instructions in it.
abbrev pub simulator :
    {M : Type 0} → Platform → Hardware M → Coprocessor → Build → Frontend M → Environment (Units M)
simulator platform hw nice build front = record {
  pipeline_timing = build.pipeline_timing;
  position = platform.position;
  exception = platform.exception;
  release = platform.release;
  instr_cycles = platform.instr_cycles;
  exec_step = exec_step hw nice build front;
}

-- The invariant of the units: the predictor is well-formed.
abbrev pub UnitsAreValid : {M : Type 0} → Units M → Type 0
UnitsAreValid u = IsPredictor u.branch_predictor

kept : {M : Type 0} (o : Outcome (Units M)) → OutcomeIsTimed o → OutcomeIsKept UnitsAreValid o
kept (done c) w = (w.pipeline, w.predictor)
kept (raised e c) w = (w.pipeline, w.predictor)
kept aborted w = tt

module _ {M : Type 0} (platform : Platform) (hw : Hardware M) (nice : Coprocessor) (build : Build)
    (front : Frontend M) where
  -- The instructions keep the pipeline well-formed, as the loop asks of them.
  pub simulator-KeepsPipeline :
      AccessLaws hw
      → DevicesTakeTime nice
      → KeepsPipeline UnitsAreValid (simulator platform hw nice build front)
  simulator-KeepsPipeline laws slow c v u =
      kept (exec_step hw nice build front c)
        (exec_step-IsTimed hw nice build laws slow front c (record { pipeline = v; predictor = u }))
