-- ===== src/Firmware/Sm3/Standard.antt =====
-- The hash function SM3 as its standard states it, GB/T 32905, independently of the programs in
-- RISCV-VP/sm_tlm_uart and RISCV-VP/sm3_nice_uart: a message is padded to blocks of 16 words, the
-- words of a block are expanded by a shift register, and eight registers take 64 rounds at once.
use vcil.Prelude.{
  ℕ, zero, suc, ◌+◌, ◌-◌, ◌*◌, ◌/◌, ◌%◌, ◌^◌, bit_and, bit_or, bit_xor, ltb, ◌==◌, if◌then◌else◌,
  not32,
}
use vcil.Nice.Cipher.{rotl32}

-- The least number of blocks of 64 bytes for the message, the byte after it and eight bytes.
abbrev pub block_count : ℕ → ℕ
block_count len = (len + 9 + 63) / 64

-- The byte at `j` of the padded message: the message, a bit 1, zeros, and the length in bits.
unfoldable pub padded_byte : (ℕ → ℕ) → ℕ → ℕ → ℕ
padded_byte message len j =
    let end_ = block_count len * 64 in
    if ltb j len
    then message j
    else if j == len
    then 0x80
    else if ltb (j + 8) end_
    then 0
    else len * 8 / 2 ^ ((end_ - 1 - j) * 8) % 256

-- Four bytes make a word, the most significant first.
unfoldable pub block_word : (ℕ → ℕ) → ℕ → ℕ
block_word bytes j =
    bytes (j * 4) * 2 ^ 24
    + bytes (j * 4 + 1) * 2 ^ 16
    + bytes (j * 4 + 2) * 2 ^ 8
    + bytes (j * 4 + 3)

pub record Registers : Type 0 where
  pub a : ℕ
  pub b : ℕ
  pub c : ℕ
  pub d : ℕ
  pub e : ℕ
  pub f : ℕ
  pub g : ℕ
  pub h : ℕ

abbrev pub initial : Registers
initial = record {
  a = 0x7380166F;
  b = 0x4914B2B9;
  c = 0x172442D7;
  d = 0xDA8A0600;
  e = 0xA96F30BC;
  f = 0x163138AA;
  g = 0xE38DEE4D;
  h = 0xB0FB0E4E;
}

-- The permutations P0 and P1.
abbrev pub permute0 : ℕ → ℕ
permute0 x = bit_xor (bit_xor x (rotl32 x 9)) (rotl32 x 17)

abbrev pub permute1 : ℕ → ℕ
permute1 x = bit_xor (bit_xor x (rotl32 x 15)) (rotl32 x 23)

-- The word that follows 16 words.
abbrev pub next_word : (ℕ → ℕ) → ℕ
next_word w =
    bit_xor (bit_xor (permute1 (bit_xor (bit_xor (w 0) (w 7)) (rotl32 (w 13) 15))) (rotl32 (w 3) 7))
      (w 10)

-- The 16 words from the word `j` of the expansion of a block.
unfoldable pub window : (ℕ → ℕ) → ℕ → ℕ → ℕ
window block zero i = block i
window block (suc j) i = if ltb i 15 then window block j (i + 1) else next_word (window block j)

abbrev pub constant : ℕ → ℕ
constant j = if ltb j 16 then 0x79CC4519 else 0x7A879D8A

abbrev pub mix_abc : ℕ → ℕ → ℕ → ℕ → ℕ
mix_abc j x y z =
    if ltb j 16
    then bit_xor (bit_xor x y) z
    else bit_or (bit_or (bit_and x y) (bit_and x z)) (bit_and y z)

abbrev pub mix_efg : ℕ → ℕ → ℕ → ℕ → ℕ
mix_efg j x y z =
    if ltb j 16 then bit_xor (bit_xor x y) z else bit_or (bit_and x y) (bit_and (not32 x) z)

-- A round, with the words `w` from the word of the round on.
unfoldable pub round : ℕ → (ℕ → ℕ) → Registers → Registers
round j w r =
    let turned = rotl32 r.a 12 in
    let ss1 = rotl32 ((turned + r.e + rotl32 (constant j) (j % 32)) % 2 ^ 32) 7 in
    let ss2 = bit_xor ss1 turned in
    let tt1 = (mix_abc j r.a r.b r.c + r.d + ss2 + bit_xor (w 0) (w 4)) % 2 ^ 32 in
    let tt2 = (mix_efg j r.e r.f r.g + r.h + ss1 + w 0) % 2 ^ 32 in
    record {
      a = tt1;
      b = r.a;
      c = rotl32 r.b 9;
      d = r.c;
      e = permute0 tt2;
      f = r.e;
      g = rotl32 r.f 19;
      h = r.g;
    }

-- The first `n` rounds.
unfoldable pub rounds : (ℕ → ℕ) → ℕ → Registers → Registers
unfolding round window
rounds block zero r = r
rounds block (suc n) r = round n (window block n) (rounds block n r)

-- The registers, added to the registers before the rounds.
unfoldable pub compress : (ℕ → ℕ) → Registers → Registers
unfolding rounds
compress block v =
    let r = rounds block 64 v in
    record {
      a = bit_xor r.a v.a;
      b = bit_xor r.b v.b;
      c = bit_xor r.c v.c;
      d = bit_xor r.d v.d;
      e = bit_xor r.e v.e;
      f = bit_xor r.f v.f;
      g = bit_xor r.g v.g;
      h = bit_xor r.h v.h;
    }

-- The registers after `n` blocks of the padded message.
unfoldable pub chained : (ℕ → ℕ) → ℕ → ℕ → Registers
unfolding compress block_word padded_byte
chained message len zero = initial
chained message len (suc n) =
    compress (block_word (λ k. padded_byte message len (n * 64 + k))) (chained message len n)

unfoldable pub hash : (ℕ → ℕ) → ℕ → Registers
unfolding chained
hash message len = chained message len (block_count len)
