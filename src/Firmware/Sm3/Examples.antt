-- ===== src/Firmware/Sm3/Examples.antt =====
-- The padding and the expansion of the message "abc".
use vcil.Prelude.{ℕ, zero, suc, refl, ◌+◌, ◌-◌, ◌*◌, ◌≡◌, arith, [], ◌∷◌, ltb, ◌==◌, if◌then◌else◌}
use vcil.Nice.Cipher.{sm3p0, sm3p1}
use vcil.Firmware.Arrays.{Array, zeros, array}
use vcil.Firmware.Sm3.{Words, num_blocks, padded, sm3_nice}
use vcil.Firmware.Sm3.Standard.{permute0, permute1, hash}
use vcil.Firmware.Sm3.Blocks.{IsBytes}
use vcil.Firmware.Sm3.Digests.{HoldsRegisters, sm3_nice-hash}
use vcil.Firmware.Sm3.Padding.{length_byte, padded_lem}

abbrev abc : Array
abc = array (0x61 ∷ 0x62 ∷ 0x63 ∷ [])

abbrev fresh : Words
fresh = record { w68 = zeros; w64 = zeros }

padded_lem_example : padded abc 3 63 ≡ (
    if ltb 63 3
    then abc 63
    else (if 63 == 3
        then 0x80
        else (if ltb (63 + 8) (num_blocks 3 * 64)
            then 0
            else length_byte 3 (num_blocks 3 * 64 - 1 - 63))))
unfolding num_blocks
padded_lem_example = padded_lem abc 3 63 (omega arith) (omega arith)

abc-IsBytes : IsBytes abc 3
abc-IsBytes zero h = omega arith
abc-IsBytes (suc zero) h = omega arith
abc-IsBytes (suc (suc zero)) h = omega arith
abc-IsBytes (suc (suc (suc k))) h = absurd (omega arith)

sm3p0-permute0 : (x : ℕ) → sm3p0 x ≡ permute0 x
unfolding sm3p0
sm3p0-permute0 x = refl

sm3p1-permute1 : (x : ℕ) → sm3p1 x ≡ permute1 x
unfolding sm3p1
sm3p1-permute1 x = refl

sm3_nice-hash_example : HoldsRegisters (sm3_nice sm3p0 sm3p1 abc 3) (hash abc 3)
sm3_nice-hash_example =
    sm3_nice-hash sm3p0 sm3p1 sm3p0-permute0 sm3p1-permute1 abc 3 abc-IsBytes (omega arith)
      (λ e. omega (arith, e))
