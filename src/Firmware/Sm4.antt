-- ===== src/Firmware/Sm4.antt =====
-- `sm4_nice` of RISCV-VP/sm_tlm_uart/sm4.h (and, word for word, of RISCV-VP/sm4_nice_uart/insn.c):
-- key schedule, encryption and decryption of one block. The two instructions `custom3_sm4ks` and
-- `custom3_sm4ed` are parameters. Every index is below the declared size of its array.
pub mod Rounds
pub mod Standard
pub mod Sbox
pub mod Ciphers
pub mod Vector
pub mod Examples
use vcil.Prelude.{ℕ, ◌+◌, ◌-◌, List, [], ◌∷◌, bit_xor}
use vcil.Firmware.Arrays.{Array, zeros, put, array, for_range}

abbrev pub sm4_fk : Array
sm4_fk = array (0xA3B1BAC6 ∷ 0x56AA3350 ∷ 0x677D9197 ∷ 0xB27022DC ∷ [])

abbrev pub sm4_ck : Array
sm4_ck = array (
    0x00070e15 ∷ 0x1c232a31 ∷ 0x383f464d ∷ 0x545b6269 ∷ 0x70777e85 ∷ 0x8c939aa1 ∷ 0xa8afb6bd
    ∷ 0xc4cbd2d9 ∷ 0xe0e7eef5 ∷ 0xfc030a11 ∷ 0x181f262d ∷ 0x343b4249 ∷ 0x50575e65 ∷ 0x6c737a81
    ∷ 0x888f969d ∷ 0xa4abb2b9 ∷ 0xc0c7ced5 ∷ 0xdce3eaf1 ∷ 0xf8ff060d ∷ 0x141b2229 ∷ 0x30373e45
    ∷ 0x4c535a61 ∷ 0x686f767d ∷ 0x848b9299 ∷ 0xa0a7aeb5 ∷ 0xbcc3cad1 ∷ 0xd8dfe6ed ∷ 0xf4fb0209
    ∷ 0x10171e25 ∷ 0x2c333a41 ∷ 0x484f565d ∷ 0x646b7279 ∷ [])

-- The arrays at the end of the function.
pub record Sm4 : Type 0 where
  pub k : Array
  pub rk : Array
  pub x : Array
  pub y : Array

pub record Schedule : Type 0 where
  pub k : Array
  pub rk : Array

module _ (ks ed : ℕ → ℕ → ℕ) where
  pub key_round : ℕ → Schedule → Schedule
  key_round i s =
      let k_temp =
        bit_xor (bit_xor (bit_xor (s.k (i + 1)) (s.k (i + 2))) (s.k (i + 3))) (sm4_ck i) in
      let k' : Array = put s.k (i + 4) (ks (s.k i) k_temp) in
      record { k = k'; rk = put s.rk i (k' (i + 4)) }

  -- The body of the two loops over `X` and `Y`, over the round key that it takes.
  pub block_round : Array → ℕ → Array → Array
  block_round round_key i x =
      let temp = bit_xor (bit_xor (bit_xor (x (i + 1)) (x (i + 2))) (x (i + 3))) (round_key i) in
      put x (i + 4) (ed (x i) temp)

  pub sm4_nice : Array → Array → Sm4
  unfolding key_round block_round for_range
  sm4_nice key cipher =
      let k = for_range 4 0 (λ i a. put a i (bit_xor (key i) (sm4_fk i))) zeros in
      let s = for_range 32 0 key_round (record { k = k; rk = zeros }) in
      let x = for_range 4 0 (λ i a. put a i (cipher i)) zeros in
      let x' = for_range 32 0 (block_round s.rk) x in
      let y = for_range 4 0 (λ i a. put a i (x' (35 - i))) zeros in
      let y' = for_range 32 0 (block_round (λ i. s.rk (31 - i))) y in
      record { k = s.k; rk = s.rk; x = x'; y = y' }
