-- ===== src/Firmware/Sm3/Vectors.antt =====
-- The two messages of RISCV-VP/sm_tlm_uart/sm3.c, with the digests of the SM3 standard.
use vcil.Prelude.{ℕ, ◌%◌, ◌+◌, ◌≡◌, refl, List, [], ◌∷◌}
use vcil.Firmware.Arrays.{Array, array}
use vcil.Firmware.Sm3.{sm3_nice}
use vcil.Nice.Cipher.{sm3p0, sm3p1}

abbrev abc : Array
abc = array (0x61 ∷ 0x62 ∷ 0x63 ∷ [])

abbrev words : Array → List ℕ
words v = v 0 ∷ v 1 ∷ v 2 ∷ v 3 ∷ v 4 ∷ v 5 ∷ v 6 ∷ v 7 ∷ []

abc_digest :
    words (sm3_nice sm3p0 sm3p1 abc 3)
    ≡ 0x66c7f0f4 ∷ 0x62eeedd9 ∷ 0xd1f2d46b ∷ 0xdc10e4e2 ∷ 0x4167c487 ∷ 0x5cf2f7a2 ∷ 0x297da02b
      ∷ 0x8f4ba8e0 ∷ []
unfolding sm3_nice sm3p0 sm3p1
abc_digest = refl

-- `abcd` sixteen times.
abbrev abcd : Array
abcd i = 0x61 + i % 4

abcd_digest :
    words (sm3_nice sm3p0 sm3p1 abcd 64)
    ≡ 0xdebe9ff9 ∷ 0x2275b8a1 ∷ 0x38604889 ∷ 0xc18e5a4d ∷ 0x6fdb70e5 ∷ 0x387e5765 ∷ 0x293dcba3
      ∷ 0x9c0c5732 ∷ []
unfolding sm3_nice sm3p0 sm3p1
abcd_digest = refl
