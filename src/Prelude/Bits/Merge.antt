-- ===== src/Prelude/Bits/Merge.antt =====
-- Writing some of the bits of a word: `(x & ~m) | (v & m)`, at every width.
use Prim.Native.Nat.{ℕ, zero, suc, ◌-◌, ◌/◌, ◌^◌, ◌<◌, bit_and, bit_or}
use mathlib.Core.Path.{◌≡◌}
use native.Mathlib.Nat.{pow-suc, one-le-pow}
use native.Mathlib.Omega.{arith}
use vcil.Prelude.Bits.Digit.{bit_or_digit, bit_and_digit}

abbrev pub merge : ℕ → ℕ → ℕ → ℕ → ℕ
merge k m x v = bit_or (bit_and x (2 ^ k - 1 - m)) (bit_and v m)

-- The bits of the mask are those of the new value.
pub merge-inside :
    (k m x v : ℕ) → m < 2 ^ k → x < 2 ^ k → v < 2 ^ k → bit_and (merge k m x v) m ≡ bit_and v m
merge-inside zero m x v hm hx hv = ground arith
merge-inside (suc k) m x v hm hx hv = ground (
  arith,
  pow-suc 2 k,
  one-le-pow k 2,
  bit_and_digit (merge (suc k) m x v) m,
  bit_or_digit (bit_and x (2 ^ suc k - 1 - m)) (bit_and v m),
  bit_and_digit x (2 ^ suc k - 1 - m),
  bit_and_digit v m,
  merge-inside k (m / 2) (x / 2) (v / 2),
)

-- The other bits are those of the old one.
pub merge-outside :
    (k m x v : ℕ)
    → m < 2 ^ k
    → x < 2 ^ k
    → v < 2 ^ k
    → bit_and (merge k m x v) (2 ^ k - 1 - m) ≡ bit_and x (2 ^ k - 1 - m)
merge-outside zero m x v hm hx hv = ground arith
merge-outside (suc k) m x v hm hx hv = ground (
  arith,
  pow-suc 2 k,
  one-le-pow k 2,
  bit_and_digit (merge (suc k) m x v) (2 ^ suc k - 1 - m),
  bit_or_digit (bit_and x (2 ^ suc k - 1 - m)) (bit_and v m),
  bit_and_digit x (2 ^ suc k - 1 - m),
  bit_and_digit v m,
  merge-outside k (m / 2) (x / 2) (v / 2),
)
