-- ===== src/Iss/Step/Examples.antt =====
-- A step of a core whose instruction traps, and a run to a breakpoint.
use vcil.Prelude.{ℕ, ◌+◌, ◌%◌, ◌^◌, ◌≡◌, refl, true, false, some, ◌==◌, arith}
use vcil.Prelude.Bits.{power_bit}
use vcil.Iss.Interrupt.{mtip}
use vcil.Iss.Step.Progress.{run_step-returns}
use vcil.Timing.Pipeline.Examples.{busy, busy-IsValid}
use vcil.Firmware.Arrays.{zeros}
use vcil.Iss.{return_from_trap_handler}
use vcil.Iss.Return.{trap_level}
use vcil.Iss.Examples.{user_hart, release, environment_call}
use vcil.Iss.Step.{Core, done, raised, Environment, runnable, run_step}
use vcil.Iss.Step.Invariant.{IsSound, KeepsPipeline, run_step-trap}

-- Every instruction is an environment call.
abbrev calls : Environment Unit
calls = record {
  pipeline_timing = true;
  position = λ i. 7;
  exception = λ i. 7;
  release = release;
  instr_cycles = λ op. 1;
  exec_step = λ c. raised environment_call c;
}

-- The invariant of the units, of which there are none.
abbrev NoUnits : Unit {0} → Type 0
NoUnits u = Unit {0}

calls-KeepsPipeline : KeepsPipeline NoUnits calls
calls-KeepsPipeline c v u = (v, u)

-- A core that stops at the address 0x200.
abbrev core_at : ℕ → Core Unit
core_at pc = record {
  hart = record user_hart { pc = pc };
  regs = zeros;
  op = 0;
  status = runnable;
  shall_exit = false;
  debug_mode = true;
  breakpoints = λ a. a == 0x200;
  total_num_instr = 41;
  instret = 41;
  inhibit_ir = false;
  inhibit_cy = false;
  cycle_counter = 0;
  pipeline = busy;
  last_cycles = 100;
  local_time = 0;
  units = tt;
}

core-IsSound : (pc : ℕ) → IsSound NoUnits (core_at pc)
core-IsSound pc = record { zero_register = refl; pipeline = busy-IsValid; units = tt }

abbrev started : Core Unit
started = record (core_at 0x104) { hart = record user_hart { last_pc = 0x104; pc = 0x104 } }

run_step-trap_example :
    let l = trap_level environment_call started.hart in
    (c' : Core Unit) × (run_step calls (core_at 0x104) ≡ some c')
    × IsSound NoUnits c'
    × (c'.hart.prv ≡ l)
    × ((return_from_trap_handler l c'.hart).pc ≡ 0x104)
    × (c'.total_num_instr ≡ (started.total_num_instr + 1) % 2 ^ 64)
run_step-trap_example =
    run_step-trap NoUnits calls (core_at 0x104) started environment_call calls-KeepsPipeline
      (core-IsSound 0x104) refl refl refl refl (omega arith)

-- Every instruction does nothing, so that the timer interrupt of `core_at` is taken.
abbrev idle : Environment Unit
idle = record calls { exec_step = λ c. done c }

idle-KeepsPipeline : KeepsPipeline NoUnits idle
idle-KeepsPipeline c v u = (v, u)

run_step-returns_example :
    (c' : Core Unit) × (run_step idle (core_at 0x104) ≡ some c') × IsSound NoUnits c'
run_step-returns_example =
    run_step-returns NoUnits idle (core_at 0x104) idle-KeepsPipeline (core-IsSound 0x104)
      (λ k b. (mtip, power_bit 7 k b))
