-- ===== src/Iss/Arith/Product.antt =====
-- MUL, MULH, MULHU and MULHSU of RISCV-VP/iss.cpp.
use vcil.Prelude.{
  ℕ, ◌+◌, ◌-◌, ◌*◌, ◌/◌, ◌%◌, ◌^◌, ◌<◌, ◌≡◌, sym, ap, ap₂, ◌∙◌, Bool, true, false, if◌then◌else◌,
  u32, u64, arith,
}
use vcil.Iss.Arith.{is_negative, sign_extend, mul, mulh, mulhu, mulhsu}

product_bound : (a b : ℕ) → a < 2 ^ 32 → b < 2 ^ 32 → a * b < 2 ^ 64
product_bound a b ha hb = grind arith

-- The upper word of a sign extension.
sign_word : ℕ → ℕ
sign_word a = if is_negative a then 2 ^ 32 - 1 else 0

extended : (a : ℕ) → sign_extend a ≡ a + sign_word a * 2 ^ 32
unfolding sign_word
extended a = ground arith

crossed :
    (a b s t : ℕ)
    → (a + s * 2 ^ 32) * (b + t * 2 ^ 32) ≡ a * b + (s * b + t * a + s * t * 2 ^ 32) * 2 ^ 32
crossed a b s t = grind arith

-- MUL gives the low word of the product, whichever way the signs of the operands are read, and
-- MULHU the high word of the product without signs.
pub mulhu-mul : (a b : ℕ) → a < 2 ^ 32 → b < 2 ^ 32 → mulhu a b * 2 ^ 32 + mul a b ≡ a * b
unfolding mulhu mul
mulhu-mul a b ha hb =
    let low : u64 (sign_extend a * sign_extend b) % 2 ^ 32 ≡ a * b % 2 ^ 32 =
      ap (λ (t : ℕ). u64 t % 2 ^ 32)
        (ap₂ ◌*◌ (extended a) (extended b) ∙ crossed a b (sign_word a) (sign_word b))
      ∙ omega arith in
    omega (arith, low, product_bound a b ha hb)

-- What the sign word of one operand adds to the high word.
sign_product :
    (a b : ℕ)
    → sign_word a * b + (if is_negative a then b else 0) ≡ (if is_negative a then 2 ^ 32 * b else 0)
unfolding sign_word
sign_product a b = ground arith

high_word : (p k : ℕ) → u64 (p + k * 2 ^ 32) / 2 ^ 32 ≡ u32 (p / 2 ^ 32 + k)
high_word p k = omega arith

low_bound : (p : ℕ) → p < 2 ^ 64 → u64 p / 2 ^ 32 ≡ p / 2 ^ 32
low_bound p h = omega arith

both_signs :
    (p s t c d k : ℕ)
    → (na nb : Bool) → c < 2 ^ 32
    → d < 2 ^ 32
    → s + (if na then d else 0) ≡ (if na then 2 ^ 32 * d else 0)
    → t + (if nb then c else 0) ≡ (if nb then 2 ^ 32 * c else 0)
    → u32 (p + (s + t + k * 2 ^ 32))
      ≡ u32 (p + (if na then 2 ^ 32 - d else 0) + (if nb then 2 ^ 32 - c else 0))
both_signs p s t c d k true true hc hd e e' = omega arith
both_signs p s t c d k true false hc hd e e' = omega arith
both_signs p s t c d k false true hc hd e e' = omega arith
both_signs p s t c d k false false hc hd e e' = omega arith

one_sign :
    (p s d : ℕ) (na : Bool)
    → d < 2 ^ 32
    → s + (if na then d else 0) ≡ (if na then 2 ^ 32 * d else 0)
    → u32 (p + s) ≡ u32 (p + (if na then 2 ^ 32 - d else 0))
one_sign p s d true hd e = omega arith
one_sign p s d false hd e = omega arith

crossed_left : (a b s : ℕ) → (a + s * 2 ^ 32) * b ≡ a * b + s * b * 2 ^ 32
crossed_left a b s = grind arith

-- MULH and MULHSU give the high word of MULHU less the other operand for each operand that is read
-- with a sign and is negative, modulo 2 ^ 32.
pub mulh-mulhu :
    (a b : ℕ)
    → a < 2 ^ 32
    → b < 2 ^ 32
    → (mulh a b
        ≡ u32 (
            mulhu a b
            + (if is_negative a then 2 ^ 32 - b else 0)
            + (if is_negative b then 2 ^ 32 - a else 0)))
      × (mulhsu a b ≡ u32 (mulhu a b + (if is_negative a then 2 ^ 32 - b else 0)))
unfolding mulh mulhu mulhsu
mulh-mulhu a b ha hb =
    let s = sign_word a in
    let t = sign_word b in
    (
      ap (λ (x : ℕ). u64 x / 2 ^ 32) (ap₂ ◌*◌ (extended a) (extended b) ∙ crossed a b s t)
          ∙ high_word (a * b) (s * b + t * a + s * t * 2 ^ 32)
          ∙ both_signs (a * b / 2 ^ 32) (s * b) (t * a) a b (s * t) (is_negative a) (is_negative b)
              ha hb (sign_product a b) (sign_product b a)
          ∙ ap
              (λ (x : ℕ). u32 (
                x
                + (if is_negative a then 2 ^ 32 - b else 0)
                + (if is_negative b then 2 ^ 32 - a else 0)))
              (sym (low_bound (a * b) (product_bound a b ha hb))),
      ap (λ (x : ℕ). u64 x / 2 ^ 32) (ap (λ (x : ℕ). x * b) (extended a) ∙ crossed_left a b s)
          ∙ high_word (a * b) (s * b)
          ∙ one_sign (a * b / 2 ^ 32) (s * b) b (is_negative a) hb (sign_product a b)
          ∙ ap (λ (x : ℕ). u32 (x + (if is_negative a then 2 ^ 32 - b else 0)))
              (sym (low_bound (a * b) (product_bound a b ha hb))),
    )
