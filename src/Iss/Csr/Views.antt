-- ===== src/Iss/Csr/Views.antt =====
-- The registers that are views of a word under one mask, and what a write to a view does.
use vcil.Prelude.{
  ℕ, ◌^◌, ◌<◌, ◌≡◌, ◌⊎◌, inl, inr, refl, Bool-cases, true, some, ◌==◌, bit_and, not32, arith, ap,
  ◌∙◌,
}
use vcil.Prelude.Bits.{merge-inside, merge-outside}
use vcil.Iss.{PrivilegeLevel}
use vcil.Iss.Csr.{
  Reg, mstatus, mip, mie, fcsr, Address, mstatus_a, sstatus_a, ustatus_a, sip_a, uip_a, mie_a,
  sie_a, uie_a, fcsr_a, Words, Masks, Headers, Build, masked, reg_index, store, write_masked,
  validate_csr_counter_read_access_rights, read_named, write_named, get_csr_value, set_csr_value,
}

pub data View : Type 0 where
  mstatus_v sstatus_v ustatus_v sip_v uip_v mie_v sie_v uie_v fcsr_v : View

abbrev pub address_of : View → Address
address_of mstatus_v = mstatus_a
address_of sstatus_v = sstatus_a
address_of ustatus_v = ustatus_a
address_of sip_v = sip_a
address_of uip_v = uip_a
address_of mie_v = mie_a
address_of sie_v = sie_a
address_of uie_v = uie_a
address_of fcsr_v = fcsr_a

abbrev pub reg_of : View → Reg
reg_of sip_v = mip
reg_of uip_v = mip
reg_of mie_v = mie
reg_of sie_v = mie
reg_of uie_v = mie
reg_of fcsr_v = fcsr
reg_of _ = mstatus

abbrev pub mask_of : View → Masks → ℕ
mask_of mstatus_v m = m.mstatus
mask_of sstatus_v m = m.sstatus
mask_of ustatus_v m = m.ustatus
mask_of sip_v m = m.sip
mask_of uip_v m = m.uip
mask_of mie_v m = m.mie
mask_of sie_v m = m.sie
mask_of uie_v m = m.uie
mask_of fcsr_v m = m.fcsr

module _ (hd : Headers) where
  store_self : (s : Words) (q : Reg) (x : ℕ) → store s q x q ≡ x
  store_self s q x = rw (index_self (reg_index q)) refl
    where
      index_self : (n : ℕ) → (n == n) ≡ true
      index_self n = ground arith

  validate_lem :
      (prv : PrivilegeLevel) (addr : ℕ) (s : Words)
      → addr < 0xC00
      → validate_csr_counter_read_access_rights hd prv addr s ≡ true
  unfolding validate_csr_counter_read_access_rights
  validate_lem prv addr s h = ground arith

  read_view :
      (build : Build) (v : View) (addr : ℕ) (s : Words)
      → read_named hd build (address_of v) addr s
        ≡ some (bit_and (s (reg_of v)) (mask_of v hd.masks), s)
  unfolding read_named
  read_view build mstatus_v addr s = refl
  read_view build sstatus_v addr s = refl
  read_view build ustatus_v addr s = refl
  read_view build sip_v addr s = refl
  read_view build uip_v addr s = refl
  read_view build mie_v addr s = refl
  read_view build sie_v addr s = refl
  read_view build uie_v addr s = refl
  read_view build fcsr_v addr s = refl

  write_view :
      (v : View) (addr value : ℕ) (s : Words)
      → write_named hd (address_of v) addr value s
        ≡ some (write_masked s (reg_of v) (mask_of v hd.masks) value)
  unfolding write_named
  write_view mstatus_v addr value s = refl
  write_view sstatus_v addr value s = refl
  write_view ustatus_v addr value s = refl
  write_view sip_v addr value s = refl
  write_view uip_v addr value s = refl
  write_view mie_v addr value s = refl
  write_view sie_v addr value s = refl
  write_view uie_v addr value s = refl
  write_view fcsr_v addr value s = refl

  -- Writing a 32-bit value to a view, at an address below the counters (0xC00), and reading it
  -- gives the value under the view's mask. The bits of the word that are not in the mask stay,
  -- and so do the other words.
  pub set_csr_value-get_csr_value :
      (build : Build) (prv : PrivilegeLevel) (v : View) (addr value : ℕ) (s : Words) (r : Reg)
      → hd.name addr ≡ address_of v
      → addr < 0xC00
      → value < 2 ^ 32
      → s (reg_of v) < 2 ^ 32
      → mask_of v hd.masks < 2 ^ 32
      → (s' : Words) × (set_csr_value hd addr value s ≡ some s')
        × (get_csr_value hd build prv addr s' ≡ some (bit_and value (mask_of v hd.masks), s'))
        × (bit_and (s' (reg_of v)) (not32 (mask_of v hd.masks))
            ≡ bit_and (s (reg_of v)) (not32 (mask_of v hd.masks)))
        × (((reg_index (reg_of v) == reg_index r) ≡ true) ⊎ (s' r ≡ s r))
  unfolding set_csr_value get_csr_value masked
  set_csr_value-get_csr_value build prv v addr value s r e below hv hs hm =
      let q = reg_of v in
      let m = mask_of v hd.masks in
      let s' : Words = write_masked s q m value in
      let stored : s' q ≡ masked m (s q) value = store_self s q (masked m (s q) value) in
      (
        s',
        rw e (write_view v addr value s),
        rw (validate_lem prv addr s' below, e)
            (read_view build v addr s'
              ∙ ap (λ x. some (x, s'))
                  (ap (λ x. bit_and x m) stored ∙ merge-inside 32 m (s q) value hm hs hv)),
        ap (λ x. bit_and x (not32 m)) stored ∙ merge-outside 32 m (s q) value hm hs hv,
        elim (Bool-cases (reg_index q == reg_index r)) [
          | inl same ↦ inl same
          | inr other ↦ inr (rw other refl)
        ],
      )
