-- ===== src/Iss/Arith/Division.antt =====
-- DIV, DIVU, REM and REMU of RISCV-VP/iss.cpp.
use vcil.Prelude.{
  ℕ, ◌+◌, ◌-◌, ◌*◌, ◌/◌, ◌%◌, ◌^◌, ◌<◌, ◌≤◌, ◌≡◌, refl, sym, ap, ◌∙◌, ◌&&◌, ◌==◌, if◌then◌else◌,
  ◌⊎◌, Bool, true, false, zero, suc, subst, u32, arith, Bool-cases, inl, inr,
}
use vcil.Iss.Arith.{
  is_negative, magnitude, signed, reg_min, minus_one, quotient, remainder, div, divu, rem, remu,
}

-- The law of unsigned division and remainder, for a divisor 0 too, and the bound of the remainder.
pub divu-remu :
    (a b : ℕ)
    → a < 2 ^ 32
    → b < 2 ^ 32
    → ((divu a b * b + remu a b) ≡ a) × ((if b == 0 then 0 else remu a b + 1) ≤ b)
unfolding divu remu
divu-remu a b ha hb = (grind arith, grind arith)

distribute : (k q b : ℕ) → (k + q) * b ≡ k * b + q * b
distribute k q b = grind arith

-- The product with a number taken away from 2 ^ 32.
neg_mul : (q b : ℕ) → q ≤ 2 ^ 32 → (2 ^ 32 - q) * b + q * b ≡ 2 ^ 32 * b
neg_mul q b h =
    let e : 2 ^ 32 - q + q ≡ 2 ^ 32 = omega arith in
    sym (distribute (2 ^ 32 - q) q b) ∙ ap (λ (t : ℕ). t * b) e

commute : (a b : ℕ) → a * b ≡ b * a
commute a b = grind arith

-- Magnitudes divide.
magnitudes : (x y : ℕ) → 0 < y → x / y * y + x % y ≡ x
magnitudes x y h = grind arith

-- The product with a negated word, as the word's multiple that is missing.
negated : (q b : ℕ) → q < 2 ^ 32 → (k : ℕ) × (u32 (2 ^ 32 - q) * b + q * b ≡ 2 ^ 32 * k)
negated q b h = elim (Bool-cases (q == 0)) [
  | inl nought ↦ (0, at_zero (ground arith))
  | inr other ↦
      let e : u32 (2 ^ 32 - q) ≡ 2 ^ 32 - q = ground arith in
      (b, ap (λ (t : ℕ). t * b + q * b) e ∙ neg_mul q b (omega arith))
]
  where
    at_zero : q ≡ 0 → u32 (2 ^ 32 - q) * b + q * b ≡ 2 ^ 32 * 0
    at_zero e = rw e (omega arith)

-- -q * m - r
minus_plus :
    (q m r : ℕ)
    → q < 2 ^ 32
    → r < 2 ^ 32
    → 0 < q * m + r
    → q * m + r ≤ 2 ^ 32
    → u32 (u32 (2 ^ 32 - q) * m + u32 (2 ^ 32 - r)) ≡ 2 ^ 32 - (q * m + r)
minus_plus q m r hq hr some_ h = let (k, e) = negated q m hq in omega (arith, e)

-- q * -m - r
plus_minus :
    (q m r : ℕ)
    → m ≤ 2 ^ 32
    → r < 2 ^ 32
    → 0 < q * m + r
    → q * m + r ≤ 2 ^ 32
    → u32 (q * (2 ^ 32 - m) + u32 (2 ^ 32 - r)) ≡ 2 ^ 32 - (q * m + r)
plus_minus q m r hm hr some_ h = omega (arith, neg_mul m q hm, commute q (2 ^ 32 - m), commute q m)

-- -q * -m + r
minus_minus :
    (q m r : ℕ)
    → q < 2 ^ 32
    → m ≤ 2 ^ 32
    → q * m + r < 2 ^ 32
    → u32 (u32 (2 ^ 32 - q) * (2 ^ 32 - m) + r) ≡ q * m + r
minus_minus q m r hq hm h =
    let (k, e) = negated q (2 ^ 32 - m) hq in
    omega (arith, e, neg_mul m q hm, commute q (2 ^ 32 - m), commute q m)

quotient_bound : (x y : ℕ) → 0 < y → x / y ≤ x
quotient_bound x y h = grind arith

-- The four cases of the signs, over the magnitudes `x` and `m`.
module _ (x m : ℕ) (mpos : 0 < m) (xsmall : x ≤ 2 ^ 31) (msmall : m ≤ 2 ^ 31) where
  both_plus : u32 (x / m * m + x % m) ≡ x
  both_plus = omega (arith, magnitudes x m mpos)

  under_minus : u32 (u32 (2 ^ 32 - x / m) * (2 ^ 32 - m) + x % m) ≡ x
  under_minus =
      minus_minus (x / m) m (x % m) (omega (arith, quotient_bound x m mpos)) (omega arith)
        (omega (arith, magnitudes x m mpos))
      ∙ magnitudes x m mpos

  over_minus : 0 < x → u32 (u32 (2 ^ 32 - x / m) * m + u32 (2 ^ 32 - x % m)) ≡ 2 ^ 32 - x
  over_minus h =
      minus_plus (x / m) m (x % m) (omega (arith, quotient_bound x m mpos))
        (omega (arith, magnitudes x m mpos)) (omega (arith, magnitudes x m mpos))
        (omega (arith, magnitudes x m mpos))
      ∙ ap (λ (t : ℕ). 2 ^ 32 - t) (magnitudes x m mpos)

  both_minus : 0 < x → u32 (x / m * (2 ^ 32 - m) + u32 (2 ^ 32 - x % m)) ≡ 2 ^ 32 - x
  both_minus h =
      plus_minus (x / m) m (x % m) (omega arith) (omega (arith, magnitudes x m mpos))
        (omega (arith, magnitudes x m mpos)) (omega (arith, magnitudes x m mpos))
      ∙ ap (λ (t : ℕ). 2 ^ 32 - t) (magnitudes x m mpos)

negated_twice : (b : ℕ) → b ≤ 2 ^ 32 → b ≡ 2 ^ 32 - (2 ^ 32 - b)
negated_twice b h = omega arith

quotient-remainder :
    (a b : ℕ) → a < 2 ^ 32 → b < 2 ^ 32 → 0 < b → u32 (quotient a b * b + remainder a b) ≡ a
quotient-remainder a b ha hb bpos = elim (Bool-cases (is_negative a)) [
  | inl na ↦ elim (Bool-cases (is_negative b)) [
    | inl nb ↦
        rw (na, nb)
          (ap
              (λ (t : ℕ).
                u32 ((2 ^ 32 - a) / (2 ^ 32 - b) * t + u32 (2 ^ 32 - (2 ^ 32 - a) % (2 ^ 32 - b))))
              (negated_twice b (omega arith))
            ∙ both_minus (2 ^ 32 - a) (2 ^ 32 - b) (omega arith) (ground arith) (ground arith)
                (omega arith)
            ∙ sym (negated_twice a (omega arith)))
    | inr pb ↦
        rw (na, pb)
          (over_minus (2 ^ 32 - a) b bpos (ground arith) (ground arith) (omega arith)
            ∙ sym (negated_twice a (omega arith)))
  ]
  | inr pa ↦ elim (Bool-cases (is_negative b)) [
    | inl nb ↦
        rw (pa, nb)
          (ap (λ (t : ℕ). u32 (u32 (2 ^ 32 - a / (2 ^ 32 - b)) * t + a % (2 ^ 32 - b)))
              (negated_twice b (omega arith))
            ∙ under_minus a (2 ^ 32 - b) (omega arith) (ground arith) (ground arith))
    | inr pb ↦ rw (pa, pb) (both_plus a b bpos (ground arith) (ground arith))
  ]
]

-- A remainder with a sign keeps its magnitude, and the sign where it is not zero.
signed-magnitude :
    (n : Bool) (m : ℕ)
    → m < 2 ^ 31
    → (magnitude (signed n m) ≡ m) × ((signed n m ≡ 0) ⊎ (is_negative (signed n m) ≡ n))
signed-magnitude true zero h = (refl, inl refl)
signed-magnitude true (suc m) h = (ground arith, inr (ground arith))
signed-magnitude false m h = (ground arith, inr (ground arith))

magnitude-small : (b : ℕ) → b < 2 ^ 32 → 0 < b → (magnitude b ≤ 2 ^ 31) × (0 < magnitude b)
magnitude-small b h p = (ground arith, ground arith)

remainder-below :
    (a b : ℕ)
    → b < 2 ^ 32
    → 0 < b
    → (magnitude (remainder a b) < magnitude b)
      × ((remainder a b ≡ 0) ⊎ (is_negative (remainder a b) ≡ is_negative a))
remainder-below a b hb bpos =
    let (small, some_) = magnitude-small b hb bpos in
    let below : magnitude a % magnitude b < magnitude b = grind arith in
    let (e, sign) = signed-magnitude (is_negative a) (magnitude a % magnitude b) (omega arith) in
    (subst (λ (t : ℕ). t < magnitude b) (sym e) below, sign)

-- Signed division and remainder on 32-bit words. The quotient times the divisor and the remainder
-- make the dividend, modulo 2 ^ 32. By zero the quotient is -1; by any other divisor the remainder is
-- smaller than the divisor, apart from signs, and zero or of the sign of the dividend.
pub div-rem :
    (a b : ℕ)
    → a < 2 ^ 32
    → b < 2 ^ 32
    → (u32 (div a b * b + rem a b) ≡ a)
      × (((b ≡ 0) × (div a b ≡ minus_one))
          ⊎ ((magnitude (rem a b) < magnitude b)
              × ((rem a b ≡ 0) ⊎ (is_negative (rem a b) ≡ is_negative a))))
unfolding div rem
div-rem a b ha hb = elim (Bool-cases (b == 0)) [
  | inl none_ ↦ let e : b ≡ 0 = ground arith in (rw e (omega arith), inl (e, rw e refl))
  | inr some_ ↦ elim (Bool-cases (a == reg_min && b == minus_one)) [
    | inl over ↦
        let e : a ≡ reg_min = ground arith in
        let e' : b ≡ minus_one = ground arith in
        (rw (some_, over, e, e') refl, rw (some_, over, e') (inr (omega arith, inl refl)))
    | inr fits ↦ (
      rw (some_, fits) (quotient-remainder a b ha hb (ground arith)),
      rw (some_, fits) (inr (remainder-below a b hb (ground arith))),
    )
  ]
]
