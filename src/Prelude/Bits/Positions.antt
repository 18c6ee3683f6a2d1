-- ===== src/Prelude/Bits/Positions.antt =====
-- The bits of unsigned words, one by one.
use Prim.Native.Nat.{ℕ, zero, suc, ◌-◌, ◌/◌, ◌%◌, ◌^◌, ◌≤◌, ◌<◌, min, max, bit_and, bit_or}
use mathlib.Core.Path.{◌≡◌, refl, ap, ap₂, sym, ◌∙◌}
use native.Mathlib.Nat.{pow-suc, zero-div, pow-succ', div-div-eq-div-mul}
use native.Mathlib.Omega.{arith}
use vcil.Prelude.Bits.Digit.{bit_and_digit, bit_or_digit}

abbrev pub bit : ℕ → ℕ → ℕ
bit k w = w / 2 ^ k % 2

-- The bit `k + 1` is the bit `k` of the half.
pub bit-half : (k w : ℕ) → bit (suc k) w ≡ bit k (w / 2)
bit-half k w =
    ap (λ (t : ℕ). t % 2)
      (ap (λ (t : ℕ). w / t) (pow-succ' 2 k) ∙ sym (div-div-eq-div-mul w 2 (2 ^ k)))

-- The bits of `&`, of `|` and of the complement.
pub and-bit_at : (k a b : ℕ) → bit k (bit_and a b) ≡ min (bit k a) (bit k b)
and-bit_at zero a b = omega (arith, bit_and_digit a b)
and-bit_at (suc k) a b =
    let half : bit_and a b / 2 ≡ bit_and (a / 2) (b / 2) = omega (arith, bit_and_digit a b) in
    bit-half k (bit_and a b)
    ∙ ap (bit k) half
    ∙ and-bit_at k (a / 2) (b / 2)
    ∙ ap₂ min (sym (bit-half k a)) (sym (bit-half k b))

pub or-bit : (k a b : ℕ) → bit k (bit_or a b) ≡ max (bit k a) (bit k b)
or-bit zero a b = omega (arith, bit_or_digit a b)
or-bit (suc k) a b =
    let half : bit_or a b / 2 ≡ bit_or (a / 2) (b / 2) = omega (arith, bit_or_digit a b) in
    bit-half k (bit_or a b)
    ∙ ap (bit k) half
    ∙ or-bit k (a / 2) (b / 2)
    ∙ ap₂ max (sym (bit-half k a)) (sym (bit-half k b))

pub complement-bit : (n k a : ℕ) → k < n → a < 2 ^ n → bit k (2 ^ n - 1 - a) ≡ 1 - bit k a
complement-bit zero k a h l = absurd (omega arith)
complement-bit (suc n) zero a h l = omega (arith, pow-suc 2 n)
complement-bit (suc n) (suc k) a h l =
    let half : (2 ^ suc n - 1 - a) / 2 ≡ 2 ^ n - 1 - a / 2 = omega (arith, pow-suc 2 n) in
    bit-half k (2 ^ suc n - 1 - a)
    ∙ ap (bit k) half
    ∙ complement-bit n k (a / 2) (omega arith) (omega (arith, pow-suc 2 n))
    ∙ ap (λ (t : ℕ). 1 - t) (sym (bit-half k a))

-- A bit that `&` leaves is a bit of both words.
pub and-bit : (k a b : ℕ) → bit k (bit_and a b) ≡ 1 → (bit k a ≡ 1) × (bit k b ≡ 1)
and-bit k a b h = let e = and-bit_at k a b in (omega (arith, e, h), omega (arith, e, h))

some_bit_below : (top w : ℕ) → w ≤ top → 0 < w → (k : ℕ) × (bit k w ≡ 1)
some_bit_below zero w l h = absurd (omega arith)
some_bit_below (suc top) zero l h = absurd (omega arith)
some_bit_below (suc top) (suc zero) l h = (0, refl)
some_bit_below (suc top) (suc (suc w)) l h =
    let (k, b) = some_bit_below top (suc (suc w) / 2) (omega arith) (omega arith) in
    (suc k, bit-half k (suc (suc w)) ∙ b)

-- A word other than 0 has a bit.
pub some_bit : (w : ℕ) → 0 < w → (k : ℕ) × (bit k w ≡ 1)
some_bit w h = some_bit_below w w (omega arith) h

-- The only bit of a power of two.
pub power_bit : (n k : ℕ) → bit k (2 ^ n) ≡ 1 → n ≡ k
power_bit zero zero b = refl
power_bit zero (suc k) b = absurd (omega (arith, bit-half k 1, zero-div (2 ^ k), b))
power_bit (suc n) zero b = absurd (omega (arith, pow-suc 2 n, b))
power_bit (suc n) (suc k) b =
    let half : 2 ^ suc n / 2 ≡ 2 ^ n = omega (arith, pow-suc 2 n) in
    ap suc (power_bit n k (ap (bit k) (sym half) ∙ sym (bit-half k (2 ^ suc n)) ∙ b))
