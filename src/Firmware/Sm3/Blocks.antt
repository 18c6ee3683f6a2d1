-- ===== src/Firmware/Sm3/Blocks.antt =====
-- The bytes, the words and the tables of `SM3_nice` of RISCV-VP/sm_tlm_uart/sm3.h are those of the
-- standard.
use vcil.Prelude.{
  ℕ, ◌+◌, ◌*◌, ◌/◌, ◌%◌, ◌^◌, ◌<◌, ◌≡◌, ◌≢◌, inl, inr, refl, ap, ap₂, ◌∙◌, bit_and, bit_or, u32,
  shl32, arith, lt-cases,
}
use vcil.Prelude.Bits.{and-mask, and-shift, or-shift}
use vcil.Firmware.Arrays.{Array, zeros}
use vcil.Firmware.Sm3.{t_init, ff, gg, message_word, num_blocks, padded}
use vcil.Firmware.Sm3.Padding.{padded_lem, num_blocks_lem}
use vcil.Firmware.Sm3.Expansion.{fill, fill-inside, fill-outside}
use vcil.Firmware.Sm3.Standard.{block_count, padded_byte, block_word, constant, mix_abc, mix_efg}

-- The bytes of the message are bytes.
abbrev pub IsBytes : Array → ℕ → Type 0
IsBytes message len = (k : ℕ) → k < len → message k < 256

pub num_blocks-block_count :
    (len : ℕ) → len < 2 ^ 29 → len % 64 ≢ 55 → num_blocks len ≡ block_count len
num_blocks-block_count len h e = ground (arith, num_blocks_lem len)

pub padded-padded_byte :
    (message : Array) (len j : ℕ)
    → len < 2 ^ 29
    → len % 64 ≢ 55
    → j < block_count len * 64
    → padded message len j ≡ padded_byte message len j
unfolding padded_byte
padded-padded_byte message len j h e k =
    let n = num_blocks-block_count len h e in
    let bits : u32 (len * 8) ≡ len * 8 = omega arith in
    padded_lem message len j (omega arith) (omega (arith, n)) ∙ rw (n, bits) refl

pub padded_byte-lt :
    (message : Array) (len j : ℕ) → IsBytes message len → padded_byte message len j < 256
unfolding padded_byte
padded_byte-lt message len j h = ground (arith, h j)

-- A byte moved up by `k` bits, under its mask.
placed : (k b : ℕ) → b < 256 → b * 2 ^ k / 2 ^ k ≡ b → bit_and (b * 2 ^ k) (255 * 2 ^ k) ≡ b * 2 ^ k
placed k b h e =
    and-shift k (b * 2 ^ k) 255
    ∙ ap (λ (t : ℕ). t * 2 ^ k) (ap (λ (t : ℕ). bit_and t 255) e ∙ and-mask 8 b ∙ omega arith)

joined :
    (b0 b1 b2 b3 : ℕ)
    → b1 < 256
    → b2 < 256
    → b3 < 256
    → bit_or (bit_or (bit_or (b0 * 2 ^ 24) (b1 * 2 ^ 16)) (b2 * 2 ^ 8)) b3
      ≡ b0 * 2 ^ 24 + b1 * 2 ^ 16 + b2 * 2 ^ 8 + b3
joined b0 b1 b2 b3 h1 h2 h3 =
    let first : bit_or (b0 * 2 ^ 24) (b1 * 2 ^ 16) ≡ (b0 * 256 + b1) * 2 ^ 16 =
      or-shift 24 b0 (b1 * 2 ^ 16) (omega arith) ∙ omega arith in
    let second : bit_or ((b0 * 256 + b1) * 2 ^ 16) (b2 * 2 ^ 8)
        ≡ (b0 * 65536 + b1 * 256 + b2) * 2 ^ 8 =
      or-shift 16 (b0 * 256 + b1) (b2 * 2 ^ 8) (omega arith) ∙ omega arith in
    rw (first, second) (or-shift 8 (b0 * 65536 + b1 * 256 + b2) b3 (omega arith) ∙ omega arith)

-- The word of four bytes, as the program makes it.
four_bytes :
    (b0 b1 b2 b3 : ℕ)
    → b0 < 256
    → b1 < 256
    → b2 < 256
    → b3 < 256
    → bit_or
        (bit_or
          (bit_or (bit_and (shl32 b0 24) 0xFF000000) (bit_and (shl32 b1 16) 0x00FF0000))
          (bit_and (shl32 b2 8) 0x0000FF00))
        (bit_and b3 0x000000FF)
      ≡ b0 * 2 ^ 24 + b1 * 2 ^ 16 + b2 * 2 ^ 8 + b3
four_bytes b0 b1 b2 b3 h0 h1 h2 h3 =
    let s0 : shl32 b0 24 ≡ b0 * 2 ^ 24 = omega arith in
    let s1 : shl32 b1 16 ≡ b1 * 2 ^ 16 = omega arith in
    let s2 : shl32 b2 8 ≡ b2 * 2 ^ 8 = omega arith in
    let m3 : bit_and b3 0xFF ≡ b3 = and-mask 8 b3 ∙ omega arith in
    ap₂ bit_or
      (ap₂ bit_or
        (ap₂ bit_or (ap (λ t. bit_and t 0xFF000000) s0 ∙ placed 24 b0 h0 (omega arith))
          (ap (λ t. bit_and t 0x00FF0000) s1 ∙ placed 16 b1 h1 (omega arith)))
        (ap (λ t. bit_and t 0x0000FF00) s2 ∙ placed 8 b2 h2 (omega arith)))
      m3
    ∙ joined b0 b1 b2 b3 h1 h2 h3

-- The words of a block, from the bytes that the program has at the same places.
pub message_word-block_word :
    (buf bytes : Array) (j : ℕ)
    → ((k : ℕ) → bytes k < 256)
    → ((k : ℕ) → k < j * 4 + 4 → buf k ≡ bytes k)
    → message_word buf j ≡ block_word bytes j
unfolding message_word block_word
message_word-block_word buf bytes j h e =
    let e0 : buf (j * 4 + 0) ≡ bytes (j * 4) = ap buf (omega arith) ∙ e (j * 4) (omega arith) in
    let e1 = e (j * 4 + 1) (omega arith) in
    let e2 = e (j * 4 + 2) (omega arith) in
    let e3 = e (j * 4 + 3) (omega arith) in
    four_bytes (buf (j * 4 + 0)) (buf (j * 4 + 1)) (buf (j * 4 + 2)) (buf (j * 4 + 3))
      (omega (arith, e0, h (j * 4))) (omega (arith, e1, h (j * 4 + 1)))
      (omega (arith, e2, h (j * 4 + 2))) (omega (arith, e3, h (j * 4 + 3)))
    ∙ omega (arith, e0, e1, e2, e3)

-- The table of the constants.
pub t_init-constant : (j : ℕ) → j < 64 → t_init j ≡ constant j
unfolding t_init
t_init-constant j h =
    let first : Array = fill (λ a k. 0x79CC4519) 16 0 zeros in
    elim (lt-cases j 16) [
      | inl early ↦
          fill-outside (λ a k. 0x7A879D8A) 48 16 first j (inl early)
          ∙ fill-inside (λ a k. 0x79CC4519) 16 0 zeros j (λ b c j l e. refl) (omega arith)
              (omega arith)
          ∙ ground arith
      | inr late ↦
          fill-inside (λ a k. 0x7A879D8A) 48 16 first j (λ b c j l e. refl) late (omega arith)
          ∙ ground arith
    ]

pub ff-mix_abc : (x y z j : ℕ) → j < 64 → ff x y z j ≡ mix_abc j x y z
unfolding ff
ff-mix_abc x y z j h = ground arith

pub gg-mix_efg : (x y z j : ℕ) → j < 64 → gg x y z j ≡ mix_efg j x y z
unfolding gg
gg-mix_efg x y z j h = ground arith
