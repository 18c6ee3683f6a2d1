-- ===== src/Prelude/Bits/Digit.antt =====
-- One equation for the lowest binary digit of each operation. The native operations stand for a
-- recursion on digits that carries fuel; the fuel is removed here.
use Prim.Native.Nat.{
  ℕ, zero, suc, ◌+◌, ◌*◌, ◌/◌, ◌%◌, ◌≤◌, ◌<◌, min, max, bit_and, bit_or, bit_xor, digits, bitwise,
  differ, bit_and-bitwise, bit_or-bitwise, bit_xor-bitwise,
}
use mathlib.Core.Path.{◌≡◌, refl}
use native.Mathlib.Omega.{arith}

module _ (z : ℕ → ℕ) (f : ℕ → ℕ → ℕ) where
  -- Fuel beyond the first argument makes no difference.
  enough : (k n m a b : ℕ) → a ≤ k → k ≤ n → k ≤ m → digits z f n a b ≡ digits z f m a b
  enough k zero zero a b h p q = refl
  enough k (suc n) (suc m) zero b h p q = refl
  enough k zero (suc m) zero b h p q = refl
  enough k (suc n) zero zero b h p q = refl
  enough k zero (suc m) (suc a) b h p q = absurd (omega arith)
  enough k (suc n) zero (suc a) b h p q = absurd (omega arith)
  enough zero (suc n) (suc m) (suc a) b h p q = absurd (omega arith)
  enough (suc k) (suc n) (suc m) (suc a) b h p q =
      rw (enough k n m (suc a / 2) (b / 2) (omega arith) (omega arith) (omega arith))

  pub low_digit :
      (a b : ℕ)
      → bitwise z f (suc a) b ≡ bitwise z f (suc a / 2) (b / 2) * 2 + f (suc a % 2) (b % 2)
  low_digit a b = omega (
    arith,
    enough (suc a / 2) a (suc a / 2) (suc a / 2) (b / 2) (omega arith) (omega arith) (omega arith),
  )

pub bit_or_digit : (x y : ℕ) → bit_or x y ≡ bit_or (x / 2) (y / 2) * 2 + max (x % 2) (y % 2)
bit_or_digit zero y = simp bit_or-bitwise (omega arith)
bit_or_digit (suc x) y = simp bit_or-bitwise (low_digit (λ y. y) max x y)

pub bit_and_digit : (x y : ℕ) → bit_and x y ≡ bit_and (x / 2) (y / 2) * 2 + min (x % 2) (y % 2)
bit_and_digit zero y = simp bit_and-bitwise (omega arith)
bit_and_digit (suc x) y = simp bit_and-bitwise (low_digit (λ y. 0) min x y)

differ_bits : (x y : ℕ) → x < 2 → y < 2 → differ x y ≡ (x + y) % 2
differ_bits zero zero h k = refl
differ_bits zero (suc zero) h k = refl
differ_bits (suc zero) zero h k = refl
differ_bits (suc zero) (suc zero) h k = refl
differ_bits zero (suc (suc y)) h k = absurd (omega arith)
differ_bits (suc zero) (suc (suc y)) h k = absurd (omega arith)
differ_bits (suc (suc x)) y h k = absurd (omega arith)

pub bit_xor_digit : (a b : ℕ) → bit_xor a b ≡ bit_xor (a / 2) (b / 2) * 2 + (a % 2 + b % 2) % 2
bit_xor_digit zero b = simp bit_xor-bitwise (omega arith)
bit_xor_digit (suc a) b =
    rw (← differ_bits (suc a % 2) (b % 2) (omega arith) (omega arith))
      (simp bit_xor-bitwise (low_digit (λ y. y) differ a b))
