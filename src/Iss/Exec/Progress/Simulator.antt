-- ===== src/Iss/Exec/Progress/Simulator.antt =====
-- A step of the simulator: `run_step` of RISCV-VP/iss.cpp with the instructions of `exec_step`.
use vcil.Prelude.{ℕ, ◌^◌, ◌<◌, ◌≡◌, true}
use vcil.Iss.Interrupt.{InterruptBit}
use vcil.Iss.Interrupt.Pending.{IsNamed}
use vcil.Iss.Step.{Core, Outcome, done, raised, aborted}
use vcil.Iss.Exec.{Build, Units, Hardware}
use vcil.Iss.Exec.Custom.{Coprocessor}
use vcil.Iss.Exec.Step.{Frontend}
use vcil.Iss.Exec.Builds.Accesses.{AccessLaws}
use vcil.Iss.Exec.Builds.Coprocessor.{DevicesTakeTime}
use vcil.Iss.Exec.Machine.{Platform}
use vcil.Iss.Exec.Progress.{Place, IsKept, FaultFits, TrapsFit, DevicesAnswer}

-- The instruction memory traps with a value of 32 bits, and an instruction has a word of 32 bits.
pub record FetchFits {M : Type 0} (front : Frontend M) : Type 0 where
  pub load : (a : ℕ) (m : M) → FaultFits (front.load_instr a m)
  pub word : (w : ℕ) → let d = front.decode w in d.instruction.word < 2 ^ 32

-- What a step asks of a core beside its being sound.
abbrev pub IsReady : {M : Type 0} → Platform → Frontend M → Core (Units M) → Type 0
IsReady platform front c =
    IsNamed platform.position c.hart × (c.hart.pc < 2 ^ 32) × (front.pc_is_aligned c.hart.pc ≡ true)

module _ {M : Type 0} (hw : Hardware M) (nice : Coprocessor) (build : Build) (laws : AccessLaws hw)
    (slow : DevicesTakeTime nice) (fits : TrapsFit hw) (answers : DevicesAnswer nice)
    (front : Frontend M) (fetches : FetchFits front) where
  -- The place of a core.
  abbrev place_of : (c : Core (Units M)) → c.hart.last_pc < 2 ^ 32 → Place
  place_of c small = record {
    mip = c.hart.csrs.mip;
    last_pc = c.hart.last_pc;
    count = c.total_num_instr;
    small = small;
  }

  -- An outcome that completes, and where it traps leaves the place of the core.
  abbrev Fulfils : (InterruptBit → ℕ) → Place → Outcome (Units M) → Type 0
  Fulfils position place (done c) = IsNamed position c.hart
  Fulfils position place (raised e c) = (e.mtval < 2 ^ 32) × IsKept place c
  Fulfils position place aborted = ⊥

  module _ (platform : Platform) where
    -- The core as the instruction finds it.
    abbrev pub started : Core (Units M) → Core (Units M)
    started c = record c { hart = record (c.hart) { last_pc = c.hart.pc } }
