-- ===== src/Firmware/Sm4/Sbox.antt =====
-- The table `SM4_Sbox` of RISCV-VP/nice.h.
use vcil.Prelude.{ℕ, ◌<◌, ◌≡◌, refl, true, ◌==◌, ==_iff, arith}
use vcil.Nice.Cipher.{sbox_at}
use vcil.Nice.Cipher.Rounds.{passes, passes-test}
use vcil.Firmware.Sm4.Standard.{sbox}

table : passes (λ x. sbox_at x == sbox x) 256 0 ≡ true
unfolding passes sbox_at sbox
table = refl

-- The table is the S-box of the standard: an inversion between two affine maps.
pub sbox_at-sbox : (x : ℕ) → x < 256 → sbox_at x ≡ sbox x
sbox_at-sbox x h =
    (==_iff (sbox_at x) (sbox x)).0
      (passes-test (λ y. sbox_at y == sbox y) 256 0 x table (omega arith) (omega arith))
