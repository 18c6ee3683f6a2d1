-- ===== src/Nice/Cipher/Rotate.antt =====
-- The macros `SM3_Rotl32` and `SM4_Rotl32` of RISCV-VP/nice.h on 32-bit words.
use vcil.Prelude.{ℕ, ◌+◌, ◌-◌, ◌*◌, ◌/◌, ◌%◌, ◌^◌, ◌<◌, ◌≡◌, ap, ◌∙◌, arith}
use native.Mathlib.Nat.{one-le-pow}
use vcil.Prelude.Bits.{or-shift}
use vcil.Nice.Cipher.{rotl32}

module _ (n m : ℕ) (split : 2 ^ n * 2 ^ m ≡ 2 ^ 32) (rest : 32 - n ≡ m) where
  shl_lem : (q r : ℕ) → r < 2 ^ m → (q * 2 ^ m + r) * 2 ^ n % 2 ^ 32 ≡ r * 2 ^ n
  shl_lem q r h = grind (arith, ap (λ (t : ℕ). q * t) split)

  high : (q r : ℕ) → r < 2 ^ m → (q * 2 ^ m + r) / 2 ^ m ≡ q
  high q r h = grind arith

  parts : (x : ℕ) → x ≡ x / 2 ^ m * 2 ^ m + x % 2 ^ m
  parts x = grind arith

  mod_bound : (x : ℕ) → x % 2 ^ m < 2 ^ m
  mod_bound x = grind (arith, one-le-pow m 2)

  quotient_bound : (x : ℕ) → x < 2 ^ 32 → x / 2 ^ m < 2 ^ n
  quotient_bound x h = grind arith

  fits : (r q : ℕ) → r < 2 ^ m → q < 2 ^ n → r * 2 ^ n + q < 2 ^ 32
  fits r q h k = grind arith

  pub rotl32_fields : (q r : ℕ) → r < 2 ^ m → q < 2 ^ n → rotl32 (q * 2 ^ m + r) n ≡ r * 2 ^ n + q
  unfolding rotl32
  rotl32_fields q r h k = rw (rest, shl_lem q r h, high q r h) (or-shift n r q k)

  -- Where `n` and `m` make 32, a rotation of a 32-bit word by `n` swaps the `n` upper bits and
  -- the `m` lower ones.
  pub rotl32_lem : (x : ℕ) → x < 2 ^ 32 → rotl32 x n ≡ x % 2 ^ m * 2 ^ n + x / 2 ^ m
  rotl32_lem x h =
      ap (λ t. rotl32 t n) (parts x)
      ∙ rotl32_fields (x / 2 ^ m) (x % 2 ^ m) (mod_bound x) (quotient_bound x h)

  pub rotl32-lt : (x : ℕ) → x < 2 ^ 32 → rotl32 x n < 2 ^ 32
  rotl32-lt x h =
      rw (rotl32_lem x h) (fits (x % 2 ^ m) (x / 2 ^ m) (mod_bound x) (quotient_bound x h))
