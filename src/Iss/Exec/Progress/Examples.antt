-- ===== src/Iss/Exec/Progress/Examples.antt =====
-- A step of the simulator on a core with a busy pipeline, by a load.
use vcil.Prelude.{◌%◌, true, false, none, some, if◌then◌else◌, ◌==◌, u32, Bool, Option}
use vcil.Firmware.Arrays.{Array}
use vcil.Iss.Step.{Core, Environment, is_runnable}
use vcil.Iss.Exec.{plain_build, Units, lw, Hardware}
use vcil.Iss.Exec.Step.{load, Frontend}
use vcil.Iss.Exec.Machine.{simulator}
use vcil.Iss.Exec.Examples.{misaligned, hardware, devices, core, instruction, frontend, platform}

-- The traps of the hardware have the address, of which 32 bits are kept.
abbrev narrow : Hardware Array
narrow = record hardware {
  trap_check_pc_alignment = λ pc. if pc % 4 == 0 then none else some (misaligned (u32 pc));
  trap_check_addr_alignment =
      λ width is_load addr. if addr % 4 == 0 then none else some (misaligned (u32 addr));
}

-- The memory holds LW everywhere.
abbrev loads : Frontend Array
loads = record frontend {
  decode = λ w. record {
    operation = load lw;
    is_custom = false;
    is_compressed = true;
    instruction = instruction 0;
  };
}

-- The address of the load is not one of a word.
abbrev trapped : Core (Units Array)
trapped = record core { hart = record (core.hart) { last_pc = 0x104; pc = 0x106 } }

abbrev stopping : Environment (Units Array)
stopping = simulator platform narrow (devices 6) plain_build frontend

abbrev runs_on : Option (Core (Units Array)) → Bool
runs_on none = false
runs_on (some c) = is_runnable c.status
