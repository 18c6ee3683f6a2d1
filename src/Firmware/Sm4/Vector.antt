-- ===== src/Firmware/Sm4/Vector.antt =====
-- The vector of the SM4 standard.
use vcil.Prelude.{ℕ, ◌≡◌, refl, List, [], ◌∷◌}
use vcil.Firmware.Arrays.{Array, array}
use vcil.Firmware.Sm4.{sm4_nice}
use vcil.Nice.Cipher.{sm4ks, sm4ed}

abbrev pub block : Array
block = array (0x01234567 ∷ 0x89abcdef ∷ 0xfedcba98 ∷ 0x76543210 ∷ [])

block_encrypted :
    let r = sm4_nice sm4ks sm4ed block block in
    ◌≡◌ {A = List ℕ}
      (r.x 35 ∷ r.x 34 ∷ r.x 33 ∷ r.x 32 ∷ [])
      (0x681edf34 ∷ 0xd206965e ∷ 0x86b3e94f ∷ 0x536e4246 ∷ [])
unfolding sm4_nice sm4ks sm4ed
block_encrypted = refl
