-- ===== src/Iss/Step.antt =====
-- `run_step` and `run` of RISCV-VP/iss.cpp, in the builds with `PIPELINE_TIMING` and without it. The
-- execution of an instruction (`exec_step`) is a parameter; times are in cycles, and the accounting
-- of SystemC's time is the number of cycles that the quantum keeper is given.
pub mod Invariant
pub mod Progress
pub mod Examples
use vcil.Prelude.{
  ℕ, zero, suc, ◌+◌, ◌-◌, ◌*◌, ◌/◌, ◌%◌, ◌^◌, ◌≡◌, refl, Bool, true, false, not, ◌&&◌, ◌||◌, Option,
  none, some, ltb, ◌==◌, if◌then◌else◌, u64,
}
use vcil.Prelude.Int.{pos}
use vcil.Timing.Assert.{◌>>=◌, ◌>>◌, assert}
use vcil.Timing.Pipeline.{Pipeline, advance}
use vcil.Firmware.Arrays.{Array, put}
use vcil.Iss.{PrivilegeLevel, Hart, SimulationTrap, prepare_trap, switch_to_trap_handler}
use vcil.Iss.Return.{take_trap}
use vcil.Iss.Interrupt.{
  InterruptBit, PendingInterrupts, compute_pending_interrupts, prepare_interrupt,
}

pub data CoreExecStatus : Type 0 where
  runnable hit_breakpoint terminated : CoreExecStatus

abbrev pub is_runnable : CoreExecStatus → Bool
is_runnable runnable = true
is_runnable _ = false

-- `units` are the members that only the instructions use.
pub record Core (X : Type 0) : Type 0 where
  pub hart : Hart
  pub regs : Array
  pub op : ℕ
  pub status : CoreExecStatus
  pub shall_exit : Bool
  pub debug_mode : Bool
  pub breakpoints : ℕ → Bool
  pub total_num_instr : ℕ
  pub instret : ℕ
  pub inhibit_ir : Bool
  pub inhibit_cy : Bool
  pub cycle_counter : ℕ
  pub pipeline : Pipeline
  pub last_cycles : ℕ
  pub local_time : ℕ
  pub units : X

-- What `exec_step` does: it ends, throws a `SimulationTrap`, or aborts.
pub data Outcome (X : Type 0) : Type 0 where
  done : Core X → Outcome X
  raised : SimulationTrap → Core X → Outcome X
  aborted : Outcome X

-- Whether `PIPELINE_TIMING` is defined, and what comes from outside: the bits and codes of the
-- interrupts, the effect of releasing a reservation on its counter, the cycles of each operation,
-- and `exec_step`.
pub record Environment (X : Type 0) : Type 0 where
  pub pipeline_timing : Bool
  pub position : InterruptBit → ℕ
  pub exception : InterruptBit → ℕ
  pub release : ℕ → ℕ
  pub instr_cycles : ℕ → ℕ
  pub exec_step : Core X → Outcome X

module _ {X : Type 0} (env : Environment X) where
  -- The countdown of a reservation.
  pub count_down : ℕ → ℕ
  count_down zero = zero
  count_down (suc n) = if n == 0 then env.release 0 else n

  -- What the builds count alike.
  pub counted : Core X → Core X
  unfolding count_down
  counted c =
      let h = c.hart in
      record c {
        total_num_instr = u64 (c.total_num_instr + 1);
        instret = if c.inhibit_ir then c.instret else u64 (c.instret + 1);
        hart = record h { lr_sc_counter = count_down h.lr_sc_counter };
        cycle_counter =
            if c.inhibit_cy then c.cycle_counter else c.cycle_counter + env.instr_cycles c.op;
      }

  -- With `PIPELINE_TIMING` the time is that of the pipeline, `p` after its step; without it that of
  -- the operation.
  pub accounted : Core X → Pipeline → Core X
  unfolding counted
  accounted c p = record (counted c) {
    pipeline = p;
    last_cycles = p.num_total_cycles;
    local_time = c.local_time + u64 (p.num_total_cycles + 2 ^ 64 - c.last_cycles);
  }

  pub charged : Core X → Core X
  unfolding counted
  charged c = record (counted c) { local_time = c.local_time + env.instr_cycles c.op }

  pub performance_and_sync_update : Core X → Option (Core X)
  unfolding accounted charged
  performance_and_sync_update c =
      if env.pipeline_timing
      then (advance (pos 1) c.pipeline >>= λ p. some (accounted c p))
      else some (charged c)

  -- After an instruction that has not trapped.
  pub take_interrupt : Hart → Option Hart
  unfolding compute_pending_interrupts prepare_interrupt switch_to_trap_handler
  take_interrupt h = elim (compute_pending_interrupts h) [
    | none ↦ some h
    | some x ↦ prepare_interrupt env.position env.exception x h >>= λ h'.
        switch_to_trap_handler env.release x.target_mode h'
  ]

  -- The `try` block and its `catch`, after `exec_step`.
  pub finish_instruction : Outcome X → Option (Core X)
  unfolding take_interrupt
  finish_instruction (done c) = take_interrupt c.hart >>= λ h. some (record c { hart = h })
  finish_instruction (raised e c) =
      take_trap env.release e c.hart >>= λ (_, h). some (record c { hart = h })
  finish_instruction aborted = none

  -- `regs.regs[regs.zero] = 0`, and the status.
  pub settled : Core X → Core X
  settled c = record c {
    regs = put c.regs 0 0;
    status = if c.shall_exit then terminated else c.status;
  }

  unfoldable pub run_step : Core X → Option (Core X)
  unfolding finish_instruction settled performance_and_sync_update
  run_step c =
      assert (c.regs 0 == 0)
      >> (if c.debug_mode && c.breakpoints c.hart.pc
          then some (record c { status = hit_breakpoint })
          else (finish_instruction
                (env.exec_step (record c { hart = record (c.hart) { last_pc = c.hart.pc } }))
              >>= λ c'. performance_and_sync_update (settled c')))

  -- The loop takes fuel, and `none` also means that the core has not stopped within it.
  unfoldable pub run : ℕ → Core X → Option (Core X)
  unfolding run_step
  run zero c = none
  run (suc fuel) c =
      run_step c >>= λ c'. let rest = run fuel c' in if is_runnable c'.status then rest else some c'
