-- ===== src/Iss/Interrupt/Pending.antt =====
-- `prepare_interrupt` of RISCV-VP/iss.cpp finds an interrupt in what `compute_pending_interrupts`
-- gives it.
use vcil.Prelude.{
  ℕ, ◌≡◌, inl, inr, refl, sym, Bool, true, false, not, ◌&&◌, ◌||◌, some, List, [], ◌∷◌, ltb, ◌==◌,
  if◌then◌else◌, arith, bit_and, not32, subst,
}
use vcil.Prelude.Bits.{bit, and-bit, some_bit}
use vcil.Iss.{PrivilegeLevel, user_mode, supervisor_mode, machine_mode, rank, same_level, Hart}
use vcil.Iss.Interrupt.{
  InterruptBit, ueip, seip, meip, usip, ssip, msip, utip, stip, mtip, PendingInterrupts, is_bit,
  compute_pending_interrupts, priorities, first_pending, interrupt_cause, prepare_interrupt,
}
use vcil.Iss.Interrupt.Levels.{branch_cases}

-- Every bit of `mip` that is set is the bit of an interrupt.
abbrev pub IsNamed : (InterruptBit → ℕ) → Hart → Type 0
IsNamed position h = (k : ℕ) → bit k h.csrs.mip ≡ 1 → (i : InterruptBit) × (position i ≡ k)

left : (a b : Bool) → (a && b) ≡ true → a ≡ true
left true b e = refl
left false b e = cc

-- What the test of a level leaves is a part of the pending interrupts.
part :
    (a mask : ℕ) (t : Bool)
    → (not (bit_and a mask == 0) && t) ≡ true
    → (k : ℕ) × (bit k (bit_and a mask) ≡ 1) × (bit k a ≡ 1)
part a mask t e =
    let one = left (not (bit_and a mask == 0)) t e in
    let (k, b) = some_bit (bit_and a mask) (ground arith) in (k, b, (and-bit k a mask b).0)

-- What is pending for a level is not nothing, and is a part of `mip`.
pub pending-mip :
    (h : Hart) (x : PendingInterrupts)
    → compute_pending_interrupts h ≡ some x
    → (k : ℕ) × (bit k x.pending ≡ 1) × (bit k h.csrs.mip ≡ 1)
unfolding compute_pending_interrupts
pending-mip h x e =
    let c = h.csrs in
    let st = c.mstatus in
    let pending = bit_and c.mie c.mip in
    let mp = bit_and pending (not32 c.mideleg) in
    let delegated = bit_and pending c.mideleg in
    let sp = bit_and delegated (not32 c.sideleg) in
    let up = bit_and delegated c.sideleg in
    let am = ltb (rank h.prv) 3 || (same_level h.prv machine_mode && st.mie) in
    let asu = ltb (rank h.prv) 1 || (same_level h.prv supervisor_mode && st.sie) in
    let au = same_level h.prv user_mode && st.uie in
    let chosen : PrivilegeLevel → ℕ → PendingInterrupts =
      λ l p. record { target_mode = l; pending = p } in
    elim (branch_cases (pending == 0) (not (mp == 0) && am) (not (sp == 0) && asu)
      (not (up == 0) && au) (chosen machine_mode mp) (chosen supervisor_mode sp)
      (chosen user_mode up) x e) [
        | inl (t, same) ↦
            let (k, b, p) = part pending (not32 c.mideleg) am t in
            (k, in_x k same b, (and-bit k c.mie c.mip p).1)
        | inr (inl (t, same)) ↦
            let (k, b, d) = part delegated (not32 c.sideleg) asu t in (k, in_x k same b, in_mip k d)
        | inr (inr (t, same)) ↦
            let (k, b, d) = part delegated c.sideleg au t in (k, in_x k same b, in_mip k d)
      ]
  where
    in_x : (k : ℕ) {y : PendingInterrupts} → y ≡ x → bit k y.pending ≡ 1 → bit k x.pending ≡ 1
    in_x k same b = subst (λ z. bit k z.pending ≡ 1) same b

    in_mip :
        (k : ℕ)
        → bit k (bit_and (bit_and h.csrs.mie h.csrs.mip) h.csrs.mideleg) ≡ 1
        → bit k h.csrs.mip ≡ 1
    in_mip k d =
        let (p, _) = and-bit k (bit_and h.csrs.mie h.csrs.mip) h.csrs.mideleg d in
        (and-bit k h.csrs.mie h.csrs.mip p).1

module _ (position exception : InterruptBit → ℕ) where
  abbrev IsFound : List InterruptBit → ℕ → Type 0
  IsFound is w = (j : InterruptBit) × (first_pending position exception is w ≡ some j)

  here :
      (i : InterruptBit) (is : List InterruptBit) (w : ℕ)
      → bit (position i) w ≡ 1
      → IsFound (i ∷ is) w
  unfolding first_pending
  here i is w b = (i, ground arith)

  there : (i : InterruptBit) (is : List InterruptBit) (w : ℕ) → IsFound is w → IsFound (i ∷ is) w
  unfolding first_pending
  there i is w (j, e) = go (is_bit w (position i))
    where
      go :
          (b : Bool)
          → (k : InterruptBit) × ((if b then some i else first_pending position exception is w)
              ≡ some k)
      go true = (i, refl)
      go false = (j, e)

  after_machine :
      (w : ℕ) → IsFound (seip ∷ ssip ∷ stip ∷ ueip ∷ usip ∷ utip ∷ []) w → IsFound priorities w
  after_machine w f = there meip _ w (there msip _ w (there mtip _ w f))

  after_supervisor : (w : ℕ) → IsFound (ueip ∷ usip ∷ utip ∷ []) w → IsFound priorities w
  after_supervisor w f = after_machine w (there seip _ w (there ssip _ w (there stip _ w f)))

  -- An interrupt whose bit is pending is in the list of priorities.
  found : (i : InterruptBit) (w : ℕ) → bit (position i) w ≡ 1 → IsFound priorities w
  found meip w b = here meip _ w b
  found msip w b = there meip _ w (here msip _ w b)
  found mtip w b = there meip _ w (there msip _ w (here mtip _ w b))
  found seip w b = after_machine w (here seip _ w b)
  found ssip w b = after_machine w (there seip _ w (here ssip _ w b))
  found stip w b = after_machine w (there seip _ w (there ssip _ w (here stip _ w b)))
  found ueip w b = after_supervisor w (here ueip _ w b)
  found usip w b = after_supervisor w (there ueip _ w (here usip _ w b))
  found utip w b = after_supervisor w (there ueip _ w (there usip _ w (here utip _ w b)))

  -- The throw of `prepare_interrupt` is not reached on what `compute_pending_interrupts` gives, if
  -- the bits that are set in `mip` are those of interrupts. It keeps the level and the program counter.
  pub prepare_interrupt-returns :
      (h : Hart) (x : PendingInterrupts)
      → IsNamed position h
      → compute_pending_interrupts h ≡ some x
      → (h' : Hart) × (prepare_interrupt position exception x h ≡ some h')
        × (h'.prv ≡ h.prv)
        × (h'.pc ≡ h.pc)
  unfolding prepare_interrupt
  prepare_interrupt-returns h x named e =
      let (k, b, m) = pending-mip h x e in
      let (i, p) = named k m in
      let (j, first) = found i x.pending (subst (λ t. bit t x.pending ≡ 1) (sym p) b) in
      prepared x.target_mode x.pending j first
    where
      prepared :
          (l : PrivilegeLevel) (w : ℕ) (j : InterruptBit)
          → first_pending position exception priorities w ≡ some j
          → (h' : Hart) × (prepare_interrupt position exception
                (record { target_mode = l; pending = w })
                h
              ≡ some h')
            × (h'.prv ≡ h.prv)
            × (h'.pc ≡ h.pc)
      prepared machine_mode w j e = (
        record h { csrs = record (h.csrs) { m = interrupt_cause position exception j h.csrs.m } },
        rw e refl,
        refl,
        refl,
      )
      prepared supervisor_mode w j e = (
        record h { csrs = record (h.csrs) { s = interrupt_cause position exception j h.csrs.s } },
        rw e refl,
        refl,
        refl,
      )
      prepared user_mode w j e = (
        record h { csrs = record (h.csrs) { u = interrupt_cause position exception j h.csrs.u } },
        rw e refl,
        refl,
        refl,
      )
