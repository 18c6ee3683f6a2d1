-- ===== src/Iss/Examples.antt =====
-- Traps, interrupts and returns of a core in user mode.
use vcil.Prelude.{ℕ, ◌<◌, ◌≤◌, ◌≡◌, ◌⊎◌, refl, true, false, some, arith}
use vcil.Iss.{
  user_mode, supervisor_mode, machine_mode, rank, Handler, Hart, SimulationTrap,
  switch_to_trap_handler, entry_pc,
}
use vcil.Iss.Return.{enabled, handler, IsEntered, trap_level, take_trap, take_trap-return}
use vcil.Iss.Interrupt.{PendingInterrupts, compute_pending_interrupts}
use vcil.Iss.Interrupt.Levels.{compute_pending_interrupts-level, masked-compute_pending_interrupts}

abbrev pub start : Handler
start = record {
  epc = 0;
  tvec = record { base_address = 0x80000000; vectored = false };
  cause = record { interrupt = false; exception_code = 0 };
  tval = 0;
}

-- A core in user mode, with a timer interrupt for the machine pending and traps 8 delegated.
abbrev pub user_hart : Hart
user_hart = record {
  pc = 0x104;
  last_pc = 0x100;
  prv = user_mode;
  csrs = record {
    mstatus = record {
      uie = false;
      sie = true;
      mie = true;
      upie = false;
      spie = false;
      mpie = false;
      spp = user_mode;
      mpp = machine_mode;
      tsr = false;
    };
    m = start;
    s = start;
    u = start;
    mie = 0x80;
    mip = 0x80;
    mideleg = 0;
    sideleg = 0;
    medeleg = 0x100;
    sedeleg = 0;
    has_user_mode = true;
    has_supervisor_mode = true;
  };
  lr_sc_counter = 0;
}

abbrev pub release : ℕ → ℕ
release n = 0

abbrev pub environment_call : SimulationTrap
environment_call = record { reason = 8; mtval = 0x100 }

take_trap-return_example :
    let l = trap_level environment_call user_hart in
    (h' : Hart) × (take_trap release environment_call user_hart ≡ some (l, h'))
    × (rank user_hart.prv ≤ rank l)
    × IsEntered l user_hart.last_pc user_hart h'
    × ((handler l h'.csrs).cause
        ≡ record { interrupt = false; exception_code = environment_call.reason })
    × ((handler l h'.csrs).tval ≡ environment_call.mtval)
take_trap-return_example = take_trap-return release environment_call user_hart (omega arith)

abbrev timer : PendingInterrupts
timer = record { target_mode = machine_mode; pending = 0x80 }

compute_pending_interrupts-level_example :
    (rank user_hart.prv < rank timer.target_mode)
    ⊎ ((user_hart.prv ≡ timer.target_mode) × (enabled user_hart.prv user_hart.csrs.mstatus ≡ true))
unfolding compute_pending_interrupts
compute_pending_interrupts-level_example = compute_pending_interrupts-level user_hart timer refl

-- The same core in the handler of the supervisor.
abbrev supervisor_hart : Hart
supervisor_hart = record user_hart {
  pc = 0x80000000;
  prv = supervisor_mode;
  csrs = record (user_hart.csrs) {
    s = record start { epc = 0x104 };
    mstatus = record (user_hart.csrs.mstatus) { spie = true; sie = false; spp = user_mode };
  };
}

masked-compute_pending_interrupts_example : rank supervisor_mode < rank timer.target_mode
unfolding switch_to_trap_handler entry_pc compute_pending_interrupts
masked-compute_pending_interrupts_example =
    masked-compute_pending_interrupts release supervisor_mode user_hart supervisor_hart timer
      (omega arith) refl refl
