-- ===== src/Iss/Interrupt/Levels.antt =====
-- The levels in `compute_pending_interrupts` of RISCV-VP/iss.cpp.
use vcil.Prelude.{
  ℕ, ◌<◌, ◌≤◌, ◌≡◌, ◌⊎◌, inl, inr, refl, ap, sym, ◌∙◌, Bool, true, false, not, ◌&&◌, ◌||◌, none,
  some, ltb, ◌==◌, if◌then◌else◌, arith, bit_and, not32, subst,
}
use vcil.Iss.{
  PrivilegeLevel, user_mode, supervisor_mode, machine_mode, rank, same_level, Mstatus, Hart,
  switch_to_trap_handler,
}
use vcil.Iss.Return.{enabled, switch-return}
use vcil.Iss.Interrupt.{PendingInterrupts, compute_pending_interrupts}

-- Which branch of the chain of tests returned.
pub branch_cases {ℓ} :
    {A : Type ℓ} (z a b c : Bool) (m s u y : A)
    → (if z
        then none
        else (if a then some m else (if b then some s else (if c then some u else none))))
      ≡ some y
    → ((a ≡ true) × (m ≡ y)) ⊎ ((b ≡ true) × (s ≡ y)) ⊎ ((c ≡ true) × (u ≡ y))
branch_cases true a b c m s u y e = cc
branch_cases false true b c m s u y e = inl (refl, cc)
branch_cases false false true c m s u y e = inr (inl (refl, cc))
branch_cases false false false true m s u y e = inr (inr (refl, cc))
branch_cases false false false false m s u y e = cc

and_right : (a b : Bool) → (a && b) ≡ true → b ≡ true
and_right true b e = e
and_right false b e = cc

-- The level `l` is above `p`, or is `p` and enables interrupts.
abbrev IsTakenAt : PrivilegeLevel → PrivilegeLevel → Mstatus → Type 0
IsTakenAt l p st = (rank p < rank l) ⊎ ((p ≡ l) × (enabled p st ≡ true))

at_machine :
    (p : PrivilegeLevel) (st : Mstatus)
    → (ltb (rank p) 3 || (same_level p machine_mode && st.mie)) ≡ true
    → IsTakenAt machine_mode p st
unfolding enabled
at_machine machine_mode st e = inr (refl, e)
at_machine supervisor_mode st e = inl (omega arith)
at_machine user_mode st e = inl (omega arith)

at_supervisor :
    (p : PrivilegeLevel) (st : Mstatus)
    → (ltb (rank p) 1 || (same_level p supervisor_mode && st.sie)) ≡ true
    → IsTakenAt supervisor_mode p st
unfolding enabled
at_supervisor machine_mode st e = cc
at_supervisor supervisor_mode st e = inr (refl, e)
at_supervisor user_mode st e = inl (omega arith)

at_user :
    (p : PrivilegeLevel) (st : Mstatus)
    → (same_level p user_mode && st.uie) ≡ true
    → IsTakenAt user_mode p st
unfolding enabled
at_user machine_mode st e = cc
at_user supervisor_mode st e = cc
at_user user_mode st e = inr (refl, e)

-- An interrupt is never taken at a level below the current one, and at the current one only if it
-- enables interrupts.
pub compute_pending_interrupts-level :
    (h : Hart) (x : PendingInterrupts)
    → compute_pending_interrupts h ≡ some x
    → (rank h.prv < rank x.target_mode)
      ⊎ ((h.prv ≡ x.target_mode) × (enabled h.prv h.csrs.mstatus ≡ true))
unfolding compute_pending_interrupts
compute_pending_interrupts-level h x e =
    let c = h.csrs in
    let st = c.mstatus in
    let pending = bit_and c.mie c.mip in
    let mp = bit_and pending (not32 c.mideleg) in
    let sp = bit_and (bit_and pending c.mideleg) (not32 c.sideleg) in
    let up = bit_and (bit_and pending c.mideleg) c.sideleg in
    let am = ltb (rank h.prv) 3 || (same_level h.prv machine_mode && st.mie) in
    let asu = ltb (rank h.prv) 1 || (same_level h.prv supervisor_mode && st.sie) in
    let au = same_level h.prv user_mode && st.uie in
    let chosen : PrivilegeLevel → ℕ → PendingInterrupts =
      λ l p. record { target_mode = l; pending = p } in
    elim (branch_cases (pending == 0) (not (mp == 0) && am) (not (sp == 0) && asu)
      (not (up == 0) && au) (chosen machine_mode mp) (chosen supervisor_mode sp)
      (chosen user_mode up) x e) [
        | inl (t, same) ↦
            ap_target same (at_machine h.prv h.csrs.mstatus (and_right (not (mp == 0)) am t))
        | inr (inl (t, same)) ↦
            ap_target same (at_supervisor h.prv h.csrs.mstatus (and_right (not (sp == 0)) asu t))
        | inr (inr (t, same)) ↦
            ap_target same (at_user h.prv h.csrs.mstatus (and_right (not (up == 0)) au t))
      ]
  where
    ap_target :
        {y : PendingInterrupts}
        → y ≡ x
        → IsTakenAt y.target_mode h.prv h.csrs.mstatus
        → IsTakenAt x.target_mode h.prv h.csrs.mstatus
    ap_target same t = subst (λ z. IsTakenAt z.target_mode h.prv h.csrs.mstatus) same t

-- In a handler that masks the interrupts of its level, only interrupts for a higher level are taken.
pub masked-compute_pending_interrupts :
    (release : ℕ → ℕ) (target : PrivilegeLevel) (h h' : Hart) (x : PendingInterrupts)
    → rank h.prv ≤ rank target
    → switch_to_trap_handler release target h ≡ some h'
    → compute_pending_interrupts h' ≡ some x
    → rank target < rank x.target_mode
masked-compute_pending_interrupts release target h h' x l s e =
    let (h1, run, entered) = switch-return release target h l in
    let same : h1 ≡ h' = cc in
    let level : h'.prv ≡ target = ap (λ t. t.prv) (sym same) ∙ entered.level in
    let masked : enabled target h'.csrs.mstatus ≡ false =
      ap (λ t. enabled target t.csrs.mstatus) (sym same) ∙ entered.masked in
    elim (compute_pending_interrupts-level h' x e) [
      | inl above ↦ subst (λ t. rank t < rank x.target_mode) level above
      | inr (here, open_) ↦
          absurd (true_false (sym open_ ∙ ap (λ t. enabled t h'.csrs.mstatus) level ∙ masked))
    ]
  where
    true_false : true ≡ false → ⊥
    true_false e = cc
