-- ===== src/Prelude/Bits/Fields.antt =====
-- Masks, shifted fields and bounds of `&`, `|` and `^`, as arithmetic, at every width.
use Prim.Native.Nat.{ℕ, zero, suc, ◌+◌, ◌-◌, ◌*◌, ◌/◌, ◌%◌, ◌^◌, ◌≤◌, ◌<◌, bit_and, bit_or, bit_xor}
use mathlib.Core.Path.{◌≡◌, refl, ap, ap₂, ◌∙◌}
use native.Mathlib.Nat.{pow-suc, one-le-pow}
use native.Mathlib.Omega.{arith}
use vcil.Prelude.Bits.Digit.{bit_or_digit, bit_and_digit, bit_xor_digit}

-- Induction by halving.
by_halves {ℓ} :
    (P : ℕ → Type ℓ) (base : P 0) (step : (h : ℕ) → P (suc h / 2) → P (suc h)) (top x : ℕ)
    → x ≤ top
    → P x
by_halves P base step top zero l = base
by_halves P base step zero (suc x) l = absurd (omega arith)
by_halves P base step (suc top) (suc x) l =
    step x (by_halves P base step top (suc x / 2) (omega arith))

pub and_zero : (a : ℕ) → bit_and a 0 ≡ 0
and_zero a =
    by_halves (λ x. bit_and x 0 ≡ 0) refl (λ h e. omega (arith, bit_and_digit (suc h) 0, e)) a a
      (omega arith)

pub or_zero : (a : ℕ) → bit_or a 0 ≡ a
or_zero a =
    by_halves (λ x. bit_or x 0 ≡ x) refl (λ h e. omega (arith, bit_or_digit (suc h) 0, e)) a a
      (omega arith)

-- A product with the next power of two.
twice : (q k : ℕ) → q * 2 ^ suc k ≡ q * 2 ^ k * 2
twice q k = omega (arith, ap (λ (t : ℕ). q * t) (pow-suc 2 k))

mask_fields : (k q r : ℕ) → r < 2 ^ k → bit_and (q * 2 ^ k + r) (2 ^ k - 1) ≡ r
mask_fields zero q r h = ground (arith, and_zero (q * 1 + r))
mask_fields (suc k) q r h = ground (
  arith,
  bit_and_digit (q * 2 ^ suc k + r) (2 ^ suc k - 1),
  twice q k,
  pow-suc 2 k,
  one-le-pow k 2,
  mask_fields k q (r / 2),
)

-- The mask of the `k` low bits is the remainder by `2 ^ k`.
pub and-mask : (k a : ℕ) → bit_and a (2 ^ k - 1) ≡ a % 2 ^ k
and-mask k a = ground (arith, one-le-pow k 2, mask_fields k (a / 2 ^ k) (a % 2 ^ k))

shift_fields : (k q r m : ℕ) → r < 2 ^ k → bit_and (q * 2 ^ k + r) (m * 2 ^ k) ≡ bit_and q m * 2 ^ k
shift_fields zero q zero m h = ground arith
shift_fields zero q (suc r) m h = absurd (omega arith)
shift_fields (suc k) q r m h = ground (
  arith,
  bit_and_digit (q * 2 ^ suc k + r) (m * 2 ^ suc k),
  twice q k,
  twice m k,
  twice (bit_and q m) k,
  pow-suc 2 k,
  shift_fields k q (r / 2) m,
)

-- A mask shifted to the left picks the field above `k` bits.
pub and-shift : (k a m : ℕ) → bit_and a (m * 2 ^ k) ≡ bit_and (a / 2 ^ k) m * 2 ^ k
and-shift k a m = ground (arith, one-le-pow k 2, shift_fields k (a / 2 ^ k) (a % 2 ^ k) m)

-- `|` of a shifted field with a field below it is a sum.
pub or-shift : (k q r : ℕ) → r < 2 ^ k → bit_or (q * 2 ^ k) r ≡ q * 2 ^ k + r
or-shift zero q r fits = ground (arith, or_zero q)
or-shift (suc k) q r fits =
    ground (arith, bit_or_digit (q * 2 ^ suc k) r, twice q k, pow-suc 2 k, or-shift k q (r / 2))

pub or-lt : (k a b : ℕ) → a < 2 ^ k → b < 2 ^ k → bit_or a b < 2 ^ k
or-lt zero zero zero h l = omega arith
or-lt zero (suc a) b h l = absurd (omega arith)
or-lt zero zero (suc b) h l = absurd (omega arith)
or-lt (suc k) a b h l = omega (
  arith,
  pow-suc 2 k,
  bit_or_digit a b,
  or-lt k (a / 2) (b / 2) (omega (arith, pow-suc 2 k)) (omega (arith, pow-suc 2 k)),
)

-- `&` with a word gives no more bits than the word has.
pub and-lt : (k a b : ℕ) → b < 2 ^ k → bit_and a b < 2 ^ k
and-lt zero a zero l = omega (arith, and_zero a)
and-lt zero a (suc b) l = absurd (omega arith)
and-lt (suc k) a b l =
    omega
      (arith, pow-suc 2 k, bit_and_digit a b, and-lt k (a / 2) (b / 2) (omega (arith, pow-suc 2 k)))

or-zero_left : (a : ℕ) → bit_or 0 a ≡ a
or-zero_left a =
    by_halves (λ x. bit_or 0 x ≡ x) refl (λ h e. omega (arith, bit_or_digit 0 (suc h), e)) a a
      (omega arith)

pub or-shift_right : (k q r : ℕ) → r < 2 ^ k → bit_or r (q * 2 ^ k) ≡ q * 2 ^ k + r
or-shift_right zero q zero h = omega (arith, or-zero_left (q * 1))
or-shift_right zero q (suc r) h = absurd (omega arith)
or-shift_right (suc k) q r h =
    ground
      (arith, bit_or_digit r (q * 2 ^ suc k), twice q k, pow-suc 2 k, or-shift_right k q (r / 2))

xor_fields :
    (k q r m : ℕ) → r < 2 ^ k → bit_xor (q * 2 ^ k + r) (m * 2 ^ k) ≡ bit_xor q m * 2 ^ k + r
xor_fields zero q zero m h =
    let left : q * 2 ^ 0 + 0 ≡ q = omega arith in
    let right : m * 2 ^ 0 ≡ m = omega arith in ap₂ bit_xor left right ∙ omega arith
xor_fields zero q (suc r) m h = absurd (omega arith)
xor_fields (suc k) q r m h = ground (
  arith,
  bit_xor_digit (q * 2 ^ suc k + r) (m * 2 ^ suc k),
  twice q k,
  twice m k,
  twice (bit_xor q m) k,
  pow-suc 2 k,
  xor_fields k q (r / 2) m,
)

-- `^` with a shifted field changes only the bits from `k` on.
pub xor-shift : (k a m : ℕ) → bit_xor a (m * 2 ^ k) ≡ bit_xor (a / 2 ^ k) m * 2 ^ k + a % 2 ^ k
xor-shift k a m = ground (arith, one-le-pow k 2, xor_fields k (a / 2 ^ k) (a % 2 ^ k) m)
