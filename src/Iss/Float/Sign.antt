-- ===== src/Iss/Float/Sign.antt =====
-- The sign injection of RISCV-VP/iss.cpp, FSGNJ, FSGNJN and FSGNJX, in both widths.
use native.Mathlib.Nat.{one-le-pow}
use vcil.Prelude.{
  ℕ, zero, suc, ◌+◌, ◌-◌, ◌*◌, ◌/◌, ◌%◌, ◌^◌, ◌<◌, ◌≡◌, refl, ap, ap₂, ◌∙◌, bit_and, bit_or,
  bit_xor, arith,
}
use vcil.Prelude.Bits.{and-mask, and-shift, or-shift_right, xor-shift}
use vcil.Iss.Float.{Width, single, double, SignOp, fsgnj, fsgnjn, fsgnjx, sign_place, sign_value}

-- The magnitude below the sign, and the sign.
abbrev pub magnitude : Width → ℕ → ℕ
magnitude w a = a % 2 ^ sign_place w

abbrev pub sign_bit : Width → ℕ → ℕ
sign_bit w a = a / 2 ^ sign_place w

-- The sign that the instruction gives, from those of its operands.
abbrev pub given_sign : SignOp → ℕ → ℕ → ℕ
given_sign fsgnj s t = t
given_sign fsgnjn s t = 1 - t
given_sign fsgnjx s t = (s + t) % 2

one_bit : (s t : ℕ) → s < 2 → t < 2 → bit_xor s t ≡ (s + t) % 2
one_bit zero zero h k = refl
one_bit zero (suc zero) h k = refl
one_bit (suc zero) zero h k = refl
one_bit (suc zero) (suc zero) h k = refl
one_bit zero (suc (suc t)) h k = absurd (omega arith)
one_bit (suc zero) (suc (suc t)) h k = absurd (omega arith)
one_bit (suc (suc s)) t h k = absurd (omega arith)

-- The sign of a word of `p + 1` bits, in place.
picked : (p b : ℕ) → b / 2 ^ p < 2 → bit_and b (1 * 2 ^ p) ≡ b / 2 ^ p * 2 ^ p
picked p b h =
    let one : bit_and (b / 2 ^ p) (2 ^ 1 - 1) ≡ b / 2 ^ p % 2 ^ 1 = and-mask 1 (b / 2 ^ p) in
    and-shift p b 1 ∙ ap (λ (t : ℕ). t * 2 ^ p) (one ∙ omega arith)

-- A sign above a magnitude.
joined : (p a t m : ℕ) → m ≡ t * 2 ^ p → bit_or (bit_and a (2 ^ p - 1)) m ≡ t * 2 ^ p + a % 2 ^ p
joined p a t m e =
    let below : a % 2 ^ p < 2 ^ p = grind (arith, one-le-pow p 2) in
    ap₂ bit_or (and-mask p a) e ∙ or-shift_right p t (a % 2 ^ p) below

turned :
    (p a t m : ℕ)
    → t < 2
    → a / 2 ^ p < 2
    → m ≡ t * 2 ^ p
    → bit_xor a m ≡ (a / 2 ^ p + t) % 2 * 2 ^ p + a % 2 ^ p
turned p a t m h k e =
    ap (bit_xor a) e
    ∙ xor-shift p a t
    ∙ ap (λ (s : ℕ). s * 2 ^ p + a % 2 ^ p) (one_bit (a / 2 ^ p) t k h)

-- FSGNJ, FSGNJN and FSGNJX keep the magnitude of the first operand and give it the sign of the
-- second, the opposite of it, or the two signs combined, on words of the width.
pub sign_value_lem :
    (w : Width) (op : SignOp) (a b : ℕ)
    → sign_bit w a < 2
    → sign_bit w b < 2
    → sign_value w op a b
      ≡ given_sign op (sign_bit w a) (sign_bit w b) * 2 ^ sign_place w + magnitude w a
unfolding sign_value
sign_value_lem single fsgnj a b ha hb = joined 31 a (b / 2 ^ 31) _ (picked 31 b hb)
sign_value_lem single fsgnjn a b ha hb =
    let other : (2 ^ 32 - 1 - b) / 2 ^ 31 ≡ 1 - b / 2 ^ 31 = omega arith in
    joined 31 a (1 - b / 2 ^ 31) _
      (picked 31 (2 ^ 32 - 1 - b) (omega arith) ∙ ap (λ (t : ℕ). t * 2 ^ 31) other)
sign_value_lem single fsgnjx a b ha hb = turned 31 a (b / 2 ^ 31) _ hb ha (picked 31 b hb)
sign_value_lem double fsgnj a b ha hb = joined 63 a (b / 2 ^ 63) _ (picked 63 b hb)
sign_value_lem double fsgnjn a b ha hb =
    let other : (2 ^ 64 - 1 - b) / 2 ^ 63 ≡ 1 - b / 2 ^ 63 = omega arith in
    joined 63 a (1 - b / 2 ^ 63) _
      (picked 63 (2 ^ 64 - 1 - b) (omega arith) ∙ ap (λ (t : ℕ). t * 2 ^ 63) other)
sign_value_lem double fsgnjx a b ha hb = turned 63 a (b / 2 ^ 63) _ hb ha (picked 63 b hb)
