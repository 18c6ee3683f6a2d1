-- ===== src/Iss/Exec/Examples.antt =====
-- Instructions on a core with a busy pipeline, a memory of bytes and devices that answer at once.
use vcil.Prelude.{
  ℕ, ◌+◌, ◌%◌, ◌≡◌, refl, true, false, none, some, [], ◌∷◌, ◌++◌, if◌then◌else◌, ◌==◌, arith,
}
use vcil.Timing.Pipeline.{access_register}
use vcil.Timing.Pipeline.Access.{access_register-IsValid}
use vcil.Timing.Pipeline.Examples.{busy, busy-IsValid}
use vcil.Timing.Predictor.{branch_predictor}
use vcil.Timing.Predictor.Outcome.{branch_predictor-IsPredictor}
use vcil.Firmware.Arrays.{Array, array, put}
use vcil.Nice.Cipher.{sm3p0}
use vcil.Nice.Cipher.Rounds.{sm3p0-lt}
use vcil.Nice.Link.{
  Device, Nice, nice, got, bytes_of, custom3_sm3p0, custom3_sm3p1, custom3_sm4ks, custom3_sm4ed,
}
use vcil.Nice.Link.Exchange.{p0, issue, meaning}
use vcil.Iss.Examples.{user_hart, release}
use vcil.Iss.{Hart, SimulationTrap}
use vcil.Iss.Step.{Core, runnable}
use vcil.Iss.Step.Invariant.{IsSound}
use vcil.Iss.Exec.{Build, plain_build, Instruction, Units, returned, stopped, value, lw, Hardware}
use vcil.Iss.Exec.Custom.{Coprocessor, exec_custom3}
use vcil.Iss.Exec.Custom.Meaning.{with_member, exec_custom3-meaning, exec_custom3-stops}
use vcil.Iss.Exec.Instr.{exec_sc_w}
use vcil.Iss.Exec.Faults.{sc_w_outcome, exec_sc_w-outcome}
use vcil.Iss.Exec.Step.{load, ebreak, Frontend, execute}
use vcil.Iss.Exec.Builds.{IsTimed, Blank, Follows}
use vcil.Iss.Exec.Builds.Accesses.{AccessLaws}
use vcil.Iss.Exec.Builds.Coprocessor.{DevicesTakeTime}
use vcil.Iss.Exec.Builds.Whole.{execute-Follows}
use vcil.Iss.Exec.Machine.{Platform, UnitsAreValid}

abbrev pub misaligned : ℕ → SimulationTrap
misaligned a = record { reason = 0; mtval = a }

-- Reads and writes of registers wait for their pending results; the memory holds a word at every
-- address and refuses the address 0.
abbrev pub hardware : Hardware Array
hardware = record {
  read_access = access_register;
  write_access = access_register;
  trap_check_pc_alignment = λ pc. if pc % 4 == 0 then none else some (misaligned pc);
  trap_check_addr_alignment =
      λ width is_load addr. if addr % width == 0 then none else some (misaligned addr);
  load = λ op addr m. value (m addr) m;
  store = λ op addr v m. value tt (put m addr v);
  atomic_load_reserved_word = λ addr m. value (m addr) m;
  atomic_store_conditional_word = λ addr v m. value true (put m addr v);
  supports = λ x. true;
  exc_illegal_instr = 2;
  exc_ecall = λ prv. 8;
}

pub hardware-AccessLaws : AccessLaws hardware
hardware-AccessLaws = record {
  reads = λ r p v. let (q, e, valid, free, cycles) = access_register-IsValid r p v in (q, e, valid);
  writes = λ r p v.
      let (q, e, valid, free, cycles) = access_register-IsValid r p v in (q, e, valid, free);
}

abbrev operand : ℕ
operand = 0x12345678

-- Every request is answered at once with P0 of the operand and a number of cycles.
abbrev answering : ℕ → Device
answering cycles req j = got (bytes_of (meaning (p0 operand)) ++ cycles ∷ [])

abbrev pub devices : ℕ → Coprocessor
devices cycles = record {
  has_full = true;
  has_t = false;
  has_linear = false;
  has_nonlinear = false;
  sm3_device = answering cycles;
  sm4_device = answering cycles;
  fuel = 1;
}

pub devices-TakeTime : DevicesTakeTime (devices 6)
unfolding custom3_sm3p0 custom3_sm3p1 custom3_sm4ks custom3_sm4ed bytes_of
devices-TakeTime = record {
  sm3p0 = λ x n v n' e. ground arith;
  sm3p1 = λ x n v n' e. ground arith;
  sm4ks = λ x y n v n' e. ground arith;
  sm4ed = λ x y n v n' e. ground arith;
}

abbrev pub timed_build : Build
timed_build = record { pipeline_timing = true; branch_timing = true }

-- No interrupt is pending.
abbrev quiet_hart : Hart
quiet_hart = record user_hart { csrs = record (user_hart.csrs) { mip = 0 } }

abbrev pub core : Core (Units Array)
core = record {
  hart = quiet_hart;
  regs = array (0 ∷ 0 ∷ 0x2001 ∷ operand ∷ []);
  op = 0;
  status = runnable;
  shall_exit = false;
  debug_mode = false;
  breakpoints = λ a. false;
  total_num_instr = 0;
  instret = 0;
  inhibit_ir = false;
  inhibit_cy = false;
  cycle_counter = 0;
  pipeline = busy;
  last_cycles = 100;
  local_time = 0;
  units = record {
    branch_predictor = branch_predictor;
    sm3_nice = nice;
    sm4_nice = nice;
    memory = λ a. a + 1;
  };
}

core-IsTimed : IsTimed core
core-IsTimed = record { pipeline = busy-IsValid; predictor = branch_predictor-IsPredictor }

-- rd = x5, rs1 = x3, rs2 = x2.
abbrev pub instruction : ℕ → Instruction
instruction funct7 = record {
  rd = 5;
  rs1 = 3;
  rs2 = 2;
  rs3 = 0;
  i_imm = 10;
  s_imm = 8;
  b_imm = 8;
  u_imm = 0x1000;
  j_imm = 0x11;
  shamt = 3;
  funct3 = 7;
  funct7 = funct7;
  frm = 0;
  word = 0x7b;
}

abbrev blank : Blank
blank = record { pipeline = busy; predictor = branch_predictor }

execute-Follows_example :
    Follows blank
      (execute hardware (devices 6) timed_build (load lw) (instruction 0))
      (execute hardware (devices 6) plain_build (load lw) (instruction 0))
      core
execute-Follows_example =
    execute-Follows blank hardware (devices 6) timed_build hardware-AccessLaws devices-TakeTime
      (instruction 0) (load lw) core (cc) core-IsTimed

exec_custom3-meaning_example :
    (n : Nice) × (exec_custom3 hardware (devices 6) plain_build (instruction 1) core
      ≡ returned tt (record core {
        regs = put core.regs 5 (meaning (p0 operand));
        units = with_member hardware (devices 6) (instruction 1) core (p0 operand) n;
      }))
    × (n.cycles ≡ 6)
unfolding meaning
exec_custom3-meaning_example =
    exec_custom3-meaning hardware (devices 6) (instruction 1) core (p0 operand) 0 6 refl
      (refl, refl) (omega arith) (λ j h. absurd (omega arith)) refl (sm3p0-lt operand (omega arith))

exec_custom3-stops_example :
    exec_custom3 hardware (devices 1) timed_build (instruction 1) core ≡ stopped
unfolding meaning custom3_sm3p0 bytes_of issue sm3p0 nice
exec_custom3-stops_example =
    exec_custom3-stops hardware (devices 1) (instruction 1) core timed_build (p0 operand)
      (meaning (p0 operand))
      (record {
        nread = 0;
        write_buff = 0x7b ∷ 0x71 ∷ bytes_of operand ++ 0 ∷ 0 ∷ 0 ∷ 0 ∷ [];
        read_buff = bytes_of (meaning (p0 operand)) ++ 1 ∷ [];
        cycles = 1;
      })
      hardware-AccessLaws core-IsTimed refl refl (refl, refl) refl (omega arith)

exec_sc_w-outcome_example :
    exec_sc_w hardware plain_build (instruction 0) core
    ≡ sc_w_outcome hardware (instruction 0) core (value true (put core.units.memory operand 0x2001))
exec_sc_w-outcome_example =
    exec_sc_w-outcome hardware (instruction 0) core
      (value true (put core.units.memory operand 0x2001)) refl refl refl

-- The memory holds EBREAK everywhere.
abbrev pub frontend : Frontend Array
frontend = record {
  pc_is_aligned = λ pc. pc % 2 == 0;
  load_instr = λ pc m. value 0x73 m;
  decode = λ w. record {
    operation = ebreak;
    is_custom = false;
    is_compressed = false;
    instruction = instruction 0;
  };
  opcode = λ op. 0;
}

abbrev pub platform : Platform
platform = record {
  position = λ i. 7;
  exception = λ i. 7;
  release = release;
  instr_cycles = λ op. 1;
}

pub core-IsSound : IsSound UnitsAreValid core
core-IsSound = record {
  zero_register = refl;
  pipeline = busy-IsValid;
  units = branch_predictor-IsPredictor;
}
