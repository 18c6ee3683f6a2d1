-- ===== src/Iss/Interrupt.antt =====
-- The interrupts of RISCV-VP/iss.cpp: their bits, which of them are taken, and at which level.
pub mod Levels
pub mod Pending
use vcil.Prelude.{
  ℕ, zero, suc, ◌+◌, ◌-◌, ◌*◌, ◌/◌, ◌%◌, ◌^◌, ◌≡◌, refl, Bool, true, false, not, ◌&&◌, ◌||◌, Option,
  none, some, List, [], ◌∷◌, ltb, leb, ◌==◌, if◌then◌else◌, bit_and, u32, not32,
}
use vcil.Timing.Assert.{◌>>=◌, ◌>>◌, assert}
use vcil.Iss.{
  PrivilegeLevel, user_mode, supervisor_mode, machine_mode, rank, same_level, Mstatus, Handler,
  Csrs, Hart,
}

pub data InterruptBit : Type 0 where
  ueip seip meip usip ssip msip utip stip mtip : InterruptBit

pub record PendingInterrupts : Type 0 where
  pub target_mode : PrivilegeLevel
  pub pending : ℕ

abbrev pub is_bit : ℕ → ℕ → Bool
is_bit w k = w / 2 ^ k % 2 == 1

-- The word with the bit `k` set or cleared.
pub with_bit : ℕ → Bool → ℕ → ℕ
with_bit k b w = w / 2 ^ (k + 1) * 2 ^ (k + 1) + (if b then 2 ^ k else 0) + w % 2 ^ k

-- `none` stands for `NoneMode`.
unfoldable pub compute_pending_interrupts : Hart → Option PendingInterrupts
compute_pending_interrupts h =
    let c = h.csrs in
    let pending = bit_and c.mie c.mip in
    let m_pending = bit_and pending (not32 c.mideleg) in
    let s_pending = bit_and (bit_and pending c.mideleg) (not32 c.sideleg) in
    let u_pending = bit_and (bit_and pending c.mideleg) c.sideleg in
    let below : PrivilegeLevel → Bool = λ l. ltb (rank h.prv) (rank l) in
    let at : PrivilegeLevel → Bool = λ l. same_level h.prv l in
    if pending == 0
    then none
    else (if not (m_pending == 0) && (below machine_mode || (at machine_mode && c.mstatus.mie))
        then some (record { target_mode = machine_mode; pending = m_pending })
        else (if not (s_pending == 0)
              && (below supervisor_mode || (at supervisor_mode && c.mstatus.sie))
            then some (record { target_mode = supervisor_mode; pending = s_pending })
            else (if not (u_pending == 0) && (at user_mode && c.mstatus.uie)
                then some (record { target_mode = user_mode; pending = u_pending })
                else none)))

-- The order in which pending interrupts are taken.
abbrev pub priorities : List InterruptBit
priorities = meip ∷ msip ∷ mtip ∷ seip ∷ ssip ∷ stip ∷ ueip ∷ usip ∷ utip ∷ []

module _ (position exception : InterruptBit → ℕ) where
  -- The first of the interrupts that is pending.
  pub first_pending : List InterruptBit → ℕ → Option InterruptBit
  first_pending [] w = none
  first_pending (i ∷ is) w =
      let rest = first_pending is w in if is_bit w (position i) then some i else rest

  abbrev pub interrupt_cause : InterruptBit → Handler → Handler
  interrupt_cause i x = record x {
    cause = record { interrupt = true; exception_code = exception i };
  }

  -- `none` where the code throws.
  unfoldable pub prepare_interrupt : PendingInterrupts → Hart → Option Hart
  unfolding first_pending
  prepare_interrupt e h = first_pending priorities e.pending >>= λ i. some (elim e.target_mode [
    | machine_mode ↦ record h { csrs = record (h.csrs) { m = interrupt_cause i h.csrs.m } }
    | supervisor_mode ↦ record h { csrs = record (h.csrs) { s = interrupt_cause i h.csrs.s } }
    | user_mode ↦ record h { csrs = record (h.csrs) { u = interrupt_cause i h.csrs.u } }
  ])

  abbrev external : PrivilegeLevel → InterruptBit
  external user_mode = ueip
  external supervisor_mode = seip
  external machine_mode = meip

  abbrev set_mip : InterruptBit → Bool → Hart → Hart
  set_mip i b h = record h { csrs = record (h.csrs) { mip = with_bit (position i) b h.csrs.mip } }

  pub trigger_external_interrupt : PrivilegeLevel → Hart → Hart
  unfolding with_bit
  trigger_external_interrupt level h = set_mip (external level) true h

  pub clear_external_interrupt : PrivilegeLevel → Hart → Hart
  unfolding with_bit
  clear_external_interrupt level h = set_mip (external level) false h

  pub trigger_timer_interrupt : Bool → Hart → Hart
  unfolding with_bit
  trigger_timer_interrupt status h = set_mip mtip status h

  pub trigger_software_interrupt : Bool → Hart → Hart
  unfolding with_bit
  trigger_software_interrupt status h = set_mip msip status h
