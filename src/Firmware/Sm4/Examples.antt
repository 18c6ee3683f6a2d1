-- ===== src/Firmware/Sm4/Examples.antt =====
-- The round trip of a block under the coprocessor's own instructions.
use vcil.Prelude.{◌-◌, ◌≡◌, refl, arith, [], ◌∷◌}
use vcil.Nice.Cipher.{sm4ks, sm4ed}
use vcil.Nice.Cipher.Rounds.{sm4ed_involutive}
use vcil.Firmware.Arrays.{Array, array}
use vcil.Firmware.Sm4.{sm4_nice}
use vcil.Firmware.Sm4.Standard.{quad, encrypt, decrypt}
use vcil.Firmware.Sm4.Ciphers.{IsResult, sm4_nice-encrypts}
use vcil.Firmware.Sm4.Rounds.{sm4_nice-decrypts}

abbrev key : Array
key = array (0x01234567 ∷ 0x89abcdef ∷ 0xfedcba98 ∷ 0x76543210 ∷ [])

abbrev message : Array
message = array (0x00010203 ∷ 0x04050607 ∷ 0x08090a0b ∷ 0x0c0d0e0f ∷ [])

sm4_nice-decrypts_example : (sm4_nice sm4ks sm4ed key message).y (35 - 1) ≡ message 1
sm4_nice-decrypts_example =
    sm4_nice-decrypts sm4ks sm4ed key message 1 sm4ed_involutive (omega arith)

sm4_nice-encrypts_example :
    let s = sm4_nice sm4ks sm4ed key message in
    let c = encrypt key (quad message) in IsResult s.x c × IsResult s.y (decrypt key c)
sm4_nice-encrypts_example = sm4_nice-encrypts sm4ks sm4ed (λ k t. refl) (λ x t. refl) key message
