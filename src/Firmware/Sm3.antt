-- ===== src/Firmware/Sm3.antt =====
-- `SM3_nice` of RISCV-VP/sm_tlm_uart/sm3.h (and, word for word, of RISCV-VP/sm3_nice_uart/insn.c):
-- padding, message expansion and compression. The instructions `custom3_sm3p0` and `custom3_sm3p1`
-- are parameters. A message of `message_len` bytes is an array of its bytes. A rotation by 0, which
-- C leaves undefined in the shift to the right by 32, gives the word itself.
pub mod Expansion
pub mod Padding
pub mod Standard
pub mod Blocks
pub mod Digests
pub mod Vectors
pub mod Examples
use vcil.Prelude.{
  ℕ, ◌+◌, ◌-◌, ◌*◌, ◌/◌, ◌%◌, ◌^◌, List, [], ◌∷◌, bit_and, bit_or, bit_xor, ltb, leb, ◌&&◌,
  if◌then◌else◌, u32, shl32, shr, not32,
}
use vcil.Nice.Cipher.{rotl32}
use vcil.Firmware.Arrays.{Array, zeros, put, array, for_range}

abbrev pub iv : Array
iv = array (
    0x7380166F ∷ 0x4914B2B9 ∷ 0x172442D7 ∷ 0xDA8A0600 ∷ 0xA96F30BC ∷ 0x163138AA ∷ 0xE38DEE4D
    ∷ 0xB0FB0E4E ∷ [])

-- The table after `T_init`.
pub t_init : Array
unfolding for_range
t_init =
    let first = for_range 16 0 (λ j t. put t j 0x79CC4519) zeros in
    for_range 48 16 (λ j t. put t j 0x7A879D8A) first

pub ff : ℕ → ℕ → ℕ → ℕ → ℕ
ff x y z j =
    if leb 0 j && leb j 15
    then bit_xor (bit_xor x y) z
    else (if leb 16 j && leb j 63
        then bit_or (bit_or (bit_and x y) (bit_and x z)) (bit_and y z)
        else 0)

pub gg : ℕ → ℕ → ℕ → ℕ → ℕ
gg x y z j =
    if leb 0 j && leb j 15
    then bit_xor (bit_xor x y) z
    else (if leb 16 j && leb j 63 then bit_or (bit_and x y) (bit_and (not32 x) z) else 0)

pub record Words : Type 0 where
  pub w68 : Array
  pub w64 : Array

-- The word that four bytes of the message make.
pub message_word : Array → ℕ → ℕ
message_word message_buf j =
    bit_or
      (bit_or
        (bit_or (bit_and (shl32 (message_buf (j * 4 + 0)) 24) 0xFF000000)
          (bit_and (shl32 (message_buf (j * 4 + 1)) 16) 0x00FF0000))
        (bit_and (shl32 (message_buf (j * 4 + 2)) 8) 0x0000FF00))
      (bit_and (message_buf (j * 4 + 3)) 0x000000FF)

-- The number of blocks of 64 bytes that the padded message takes.
pub num_blocks : ℕ → ℕ
num_blocks message_len = u32 (message_len + 1 + 8 + 64) / 64

-- `message_buf`: the message, the byte 0x80, zeros and the length in bits.
pub padded : Array → ℕ → Array
unfolding num_blocks for_range
padded message message_len =
    let num = num_blocks message_len in
    let copied : Array = λ i. if ltb i message_len then message i else 0 in
    let marked : Array = put copied message_len 0x80 in
    for_range 8 0
      (λ i a. put a (num * 64 - i - 1) (bit_and (u32 (message_len * 8) / 2 ^ (i * 8)) 0xFF)) marked

pub record Digest : Type 0 where
  pub v : Array
  pub words : Words

module _ (p0 p1 : ℕ → ℕ) where
  -- The value that the second loop stores into `W68[j]`.
  pub expanded : Array → ℕ → ℕ
  unfolding rotl32
  expanded w j =
      let w68_buf = bit_xor (bit_xor (w (j - 16)) (w (j - 9))) (rotl32 (w (j - 3)) 15) in
      let w68_temp = p1 w68_buf in bit_xor (bit_xor w68_temp (rotl32 (w (j - 13)) 7)) (w (j - 6))

  pub message_ext_nice : Array → Words → Words
  unfolding message_word expanded for_range
  message_ext_nice message_buf w =
      let first = for_range 16 0 (λ j a. put a j (message_word message_buf j)) w.w68 in
      let w68 = for_range 52 16 (λ j a. put a j (expanded a j)) first in
      record {
        w68 = w68;
        w64 = for_range 64 0 (λ j a. put a j (bit_xor (w68 j) (w68 (j + 4)))) w.w64;
      }

  -- A round of the compression, over the registers A to H in the entries 0 to 7.
  pub cf_round : Array → Words → ℕ → Array → Array
  unfolding ff gg rotl32
  cf_round t w j v =
      let ss1 = rotl32 (u32 (rotl32 (v 0) 12 + v 4 + rotl32 (t j) (j % 32))) 7 in
      let ss2 = bit_xor ss1 (rotl32 (v 0) 12) in
      let tt1 = u32 (ff (v 0) (v 1) (v 2) j + v 3 + ss2 + w.w64 j) in
      let tt2 = u32 (gg (v 4) (v 5) (v 6) j + v 7 + ss1 + w.w68 j) in
      let v1 : Array = put v 3 (v 2) in
      let v2 : Array = put v1 2 (rotl32 (v1 1) 9) in
      let v3 : Array = put v2 1 (v2 0) in
      let v4 : Array = put v3 0 tt1 in
      let v5 : Array = put v4 7 (v4 6) in
      let v6 : Array = put v5 6 (rotl32 (v5 5) 19) in
      let v7 : Array = put v6 5 (v6 4) in put v7 4 (p0 tt2)

  pub cf_nice : Array → Words → Array → Array
  unfolding cf_round for_range
  cf_nice t w v =
      let v_buf = for_range 8 0 (λ j a. put a j (v j)) zeros in
      let v_buf' = for_range 64 0 (cf_round t w) v_buf in
      for_range 8 0 (λ j a. put a j (bit_xor (v_buf' j) (a j))) v

  -- The chaining value after the blocks of the message.
  pub sm3_nice : Array → ℕ → Array
  unfolding padded num_blocks t_init message_ext_nice cf_nice for_range
  sm3_nice message message_len =
      let message_buf = padded message message_len in
      let start : Digest = record { v = iv; words = record { w68 = zeros; w64 = zeros } } in
      let done =
        for_range (num_blocks message_len) 0
          (λ i (d : Digest).
            let words = message_ext_nice (λ j. message_buf (i * 64 + j)) d.words in
            record { v = cf_nice t_init words d.v; words = words })
          start in
      done.v
