-- ===== src/Nice/Cipher/Rounds.antt =====
-- The substitution and the rounds of SM4 in RISCV-VP/nice.h, and the bounds of the words.
use vcil.Prelude.{
  Bool-cases, subst, false, ◌≤◌, inl, inr, ℕ, zero, suc, ◌+◌, ◌*◌, ◌/◌, ◌%◌, ◌^◌, ◌≤◌, ◌<◌, ◌≡◌,
  refl, ◌∙◌, Bool, true, List, [], ◌∷◌, arith, bit_or, shl32, ◌==◌, ==_iff, ltb, if◌then◌else◌,
}
use vcil.Prelude.Bits.{or-shift, and-mask, xor-lt, xor_cancel}
use vcil.Nice.Cipher.{sm4_sbox, sbox_at, sm4_nonlinear, sm4_linear, sm4ks, sm4ed, sm3p0, sm3p1}
use vcil.Nice.Cipher.Rotate.{rotl32-lt}

-- A test of every byte, and of the bytes from `start` on.
unfoldable pub passes : (test : ℕ → Bool) (count start : ℕ) → Bool
passes test zero start = true
passes test (suc count) start =
    let rest = passes test count (start + 1) in if test start then rest else false

pub passes-test :
    (test : ℕ → Bool) (count start y : ℕ)
    → passes test count start ≡ true
    → start ≤ y
    → y < start + count
    → test y ≡ true
unfolding passes
passes-test test zero start y all low high = absurd (omega arith)
passes-test test (suc count) start y all low high = elim (Bool-cases (start == y)) [
  | inl here ↦
      let at : start ≡ y = ground arith in
      subst (λ t. test t ≡ true) at (first (test start) (passes test count (start + 1)) all)
  | inr later ↦
      passes-test test count (start + 1) y (others (test start) (passes test count (start + 1)) all)
        (ground arith) (omega arith)
]
  where
    first : (x rest : Bool) → (if x then rest else false) ≡ true → x ≡ true
    first true rest e = refl
    first false rest e = e

    others : (x rest : Bool) → (if x then rest else false) ≡ true → rest ≡ true
    others true rest e = e
    others false rest e = cc

-- The place of a value in a table, from `i` on.
position : ℕ → ℕ → List ℕ → ℕ
position i y [] = i
position i y (x ∷ xs) = let rest = position (i + 1) y xs in if x == y then i else rest

-- The inverse of the substitution.
pub sbox_inverse : ℕ → ℕ
unfolding sm4_sbox position
sbox_inverse y = position 0 y sm4_sbox

inverse_table : passes (λ x. sbox_inverse (sbox_at x) == x) 256 0 ≡ true
unfolding passes sbox_inverse sbox_at
inverse_table = refl

byte_table : passes (λ x. ltb (sbox_at x) 256) 256 0 ≡ true
unfolding passes sbox_at
byte_table = refl

sbox_inverse-sbox_at : (x : ℕ) → x < 256 → sbox_inverse (sbox_at x) ≡ x
sbox_inverse-sbox_at x h = (==_iff (sbox_inverse (sbox_at x)) x).0 (
    passes-test (λ y. sbox_inverse (sbox_at y) == y) 256 0 x inverse_table (omega arith)
      (omega arith))

sbox_at-lt : (x : ℕ) → x < 256 → sbox_at x < 256
sbox_at-lt x h =
    ground
      (arith, passes-test (λ y. ltb (sbox_at y) 256) 256 0 x byte_table (omega arith) (omega arith))

sbox_byte : (a : ℕ) → sbox_at (a % 256) < 256
sbox_byte a = sbox_at-lt (a % 256) (omega arith)

-- The substitution acts on the four bytes of a word.
pub nonlinear_bytes :
    (a : ℕ)
    → sm4_nonlinear a
      ≡ sbox_at (a / 2 ^ 24 % 256) * 2 ^ 24
        + sbox_at (a / 2 ^ 16 % 256) * 2 ^ 16
        + sbox_at (a / 2 ^ 8 % 256) * 2 ^ 8
        + sbox_at (a % 256)
unfolding sm4_nonlinear
nonlinear_bytes a =
    rw (and-mask 8 (a / 2 ^ 24), and-mask 8 (a / 2 ^ 16), and-mask 8 (a / 2 ^ 8), and-mask 8 a)
      (pack (sbox_at (a / 2 ^ 24 % 256)) (sbox_at (a / 2 ^ 16 % 256)) (sbox_at (a / 2 ^ 8 % 256))
        (sbox_at (a % 256)) (sbox_byte (a / 2 ^ 24)) (sbox_byte (a / 2 ^ 16))
        (sbox_byte (a / 2 ^ 8)) (sbox_byte a))
  where
    pack :
        (p q r s : ℕ)
        → p < 256
        → q < 256
        → r < 256
        → s < 256
        → bit_or (bit_or (bit_or (shl32 p 24) (shl32 q 16)) (shl32 r 8)) s
          ≡ p * 2 ^ 24 + q * 2 ^ 16 + r * 2 ^ 8 + s
    pack p q r s hp hq hr hs = ground (
      arith,
      or-shift 24 p (q * 2 ^ 16) (omega arith),
      or-shift 16 (p * 256 + q) (r * 2 ^ 8) (omega arith),
      or-shift 8 (p * 65536 + q * 256 + r) s (omega arith),
    )

-- The word with the inverse substitution on each byte.
pub nonlinear_inverse : ℕ → ℕ
nonlinear_inverse b =
    sbox_inverse (b / 2 ^ 24 % 256) * 2 ^ 24
    + sbox_inverse (b / 2 ^ 16 % 256) * 2 ^ 16
    + sbox_inverse (b / 2 ^ 8 % 256) * 2 ^ 8
    + sbox_inverse (b % 256)

-- `SM4_Nonlinear` is a permutation of the 32-bit words: every word can be had back from its image.
pub nonlinear_inverse-sm4_nonlinear : (a : ℕ) → a < 2 ^ 32 → nonlinear_inverse (sm4_nonlinear a) ≡ a
unfolding nonlinear_inverse
nonlinear_inverse-sm4_nonlinear a h = rw (nonlinear_bytes a) (
    split (sbox_at (a / 2 ^ 24 % 256)) (sbox_at (a / 2 ^ 16 % 256)) (sbox_at (a / 2 ^ 8 % 256))
      (sbox_at (a % 256)) (sbox_byte (a / 2 ^ 24)) (sbox_byte (a / 2 ^ 16)) (sbox_byte (a / 2 ^ 8))
      (sbox_byte a)
    ∙ omega (
      arith,
      sbox_inverse-sbox_at (a / 2 ^ 24 % 256) (omega arith),
      sbox_inverse-sbox_at (a / 2 ^ 16 % 256) (omega arith),
      sbox_inverse-sbox_at (a / 2 ^ 8 % 256) (omega arith),
      sbox_inverse-sbox_at (a % 256) (omega arith),
    ))
  where
    split :
        (p q r s : ℕ)
        → p < 256
        → q < 256
        → r < 256
        → s < 256
        → nonlinear_inverse (p * 2 ^ 24 + q * 2 ^ 16 + r * 2 ^ 8 + s)
          ≡ sbox_inverse p * 2 ^ 24
            + sbox_inverse q * 2 ^ 16
            + sbox_inverse r * 2 ^ 8
            + sbox_inverse s
    split p q r s hp hq hr hs =
        let w = p * 2 ^ 24 + q * 2 ^ 16 + r * 2 ^ 8 + s in
        let ep : w / 2 ^ 24 % 256 ≡ p = omega arith in
        let eq : w / 2 ^ 16 % 256 ≡ q = omega arith in
        let er : w / 2 ^ 8 % 256 ≡ r = omega arith in
        let es : w % 256 ≡ s = omega arith in rw (ep, eq, er, es) refl

nonlinear-lt : (a : ℕ) → sm4_nonlinear a < 2 ^ 32
nonlinear-lt a = omega (
  arith,
  nonlinear_bytes a,
  sbox_at-lt (a / 2 ^ 24 % 256) (omega arith),
  sbox_at-lt (a / 2 ^ 16 % 256) (omega arith),
  sbox_at-lt (a / 2 ^ 8 % 256) (omega arith),
  sbox_at-lt (a % 256) (omega arith),
)

linear-lt : (b mode : ℕ) → b < 2 ^ 32 → mode ≤ 1 → sm4_linear b mode < 2 ^ 32
unfolding sm4_linear
linear-lt b zero h m =
    xor-lt 32 _ _ (xor-lt 32 _ _ h (rotl32-lt 13 19 refl refl b h)) (rotl32-lt 23 9 refl refl b h)
linear-lt b (suc zero) h m =
    xor-lt 32 _ _
      (xor-lt 32 _ _
        (xor-lt 32 _ _ (xor-lt 32 _ _ h (rotl32-lt 2 30 refl refl b h))
          (rotl32-lt 10 22 refl refl b h))
        (rotl32-lt 18 14 refl refl b h))
      (rotl32-lt 24 8 refl refl b h)
linear-lt b (suc (suc n)) h m = absurd (omega arith)

pub sm4ed-lt : (x tx : ℕ) → x < 2 ^ 32 → sm4ed x tx < 2 ^ 32
unfolding sm4ed
sm4ed-lt x tx h = xor-lt 32 x _ h (linear-lt _ 1 (nonlinear-lt tx) (omega arith))

pub sm4ks-lt : (k tk : ℕ) → k < 2 ^ 32 → sm4ks k tk < 2 ^ 32
unfolding sm4ks
sm4ks-lt k tk h = xor-lt 32 k _ h (linear-lt _ 0 (nonlinear-lt tk) (omega arith))

pub sm3p0-lt : (x : ℕ) → x < 2 ^ 32 → sm3p0 x < 2 ^ 32
unfolding sm3p0
sm3p0-lt x h =
    xor-lt 32 _ _ (xor-lt 32 _ _ h (rotl32-lt 9 23 refl refl x h)) (rotl32-lt 17 15 refl refl x h)

pub sm3p1-lt : (x : ℕ) → x < 2 ^ 32 → sm3p1 x < 2 ^ 32
unfolding sm3p1
sm3p1-lt x h =
    xor-lt 32 _ _ (xor-lt 32 _ _ h (rotl32-lt 15 17 refl refl x h)) (rotl32-lt 23 9 refl refl x h)

-- A round of the cipher is undone by the same round.
pub sm4ed_involutive : (x tx : ℕ) → sm4ed (sm4ed x tx) tx ≡ x
unfolding sm4ed
sm4ed_involutive x tx = xor_cancel x _
