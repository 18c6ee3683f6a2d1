-- ===== src/Firmware/Sm3/Padding.antt =====
-- The padding and the number of blocks in `SM3_nice` of RISCV-VP/sm_tlm_uart/sm3.h.
use vcil.Prelude.{
  ℕ, ◌+◌, ◌-◌, ◌*◌, ◌/◌, ◌%◌, ◌^◌, ◌<◌, ◌≤◌, ◌⊎◌, inl, inr, lt-cases, zero, suc, ◌≡◌, refl, ◌∙◌,
  ◌==◌, if◌then◌else◌, bit_and, u32, arith, ltb,
}
use vcil.Prelude.Bits.{and-mask}
use vcil.Firmware.Arrays.{Array, put, for_range, put_self, put_ne}
use vcil.Firmware.Sm3.{num_blocks, padded}

-- For a length below 2 ^ 32 - 73 the number of blocks is the least that has room for the
-- message, the mark and the length, except that a message of 55 bytes beyond whole blocks gets
-- one block more.
pub num_blocks_lem :
    (len : ℕ)
    → len < 2 ^ 32 - 73
    → num_blocks len ≡ (len + 9 + 63) / 64 + (if len % 64 == 55 then 1 else 0)
unfolding num_blocks
num_blocks_lem len h = ground arith

-- The byte of the length that the loop stores at the distance `i` from the end.
abbrev pub length_byte : ℕ → ℕ → ℕ
length_byte len i = u32 (len * 8) / 2 ^ (i * 8) % 256

-- The writes `a[N - i - 1] = f(i)` for `n` values of `i` from `i`.
abbrev backwards : ℕ → (ℕ → ℕ) → ℕ → ℕ → Array → Array
backwards N f n i a = for_range n i (λ i a. put a (N - i - 1) (f i)) a

-- They leave what is outside.
backwards-outside :
    (N : ℕ) (f : ℕ → ℕ) (n i : ℕ) (a : Array) (j : ℕ)
    → i + n ≤ N
    → (N ≤ j + i) ⊎ (j + i + n < N)
    → backwards N f n i a j ≡ a j
unfolding for_range
backwards-outside N f zero i a j b h = refl
backwards-outside N f (suc n) i a j b h =
    backwards-outside N f n (i + 1) (put a (N - i - 1) (f i)) j (omega arith)
      (elim h [ inl l ↦ inl (omega arith) | inr l ↦ inr (omega arith) ])
    ∙ put_ne a (N - i - 1) (f i) j (elim h [ inl l ↦ omega arith | inr l ↦ omega arith ])

-- And they write the value for the distance of the entry from the end.
backwards-inside :
    (N : ℕ) (f : ℕ → ℕ) (n i : ℕ) (a : Array) (j : ℕ)
    → i + n ≤ N
    → N ≤ j + i + n
    → j + i < N
    → backwards N f n i a j ≡ f (N - 1 - j)
unfolding for_range
backwards-inside N f zero i a j b l h = absurd (omega arith)
backwards-inside N f (suc n) i a j b l h = elim (lt-cases (j + i + 1) N) [
  | inl later ↦
      backwards-inside N f n (i + 1) (put a (N - i - 1) (f i)) j (omega arith) (omega arith)
        (omega arith)
  | inr here ↦
      let e : N - i - 1 ≡ j = omega arith in
      let e' : N - 1 - j ≡ i = omega arith in
      backwards-outside N f n (i + 1) (put a (N - i - 1) (f i)) j (omega arith) (inl (omega arith))
      ∙ rw (e, e') (put_self a j (f i))
]

-- The message with the byte 0x80 after it, before the loop.
marked_lem :
    (message : Array) (len j : ℕ)
    → put (λ i. if ltb i len then message i else 0) len 0x80 j
      ≡ (if ltb j len then message j else (if j == len then 0x80 else 0))
marked_lem message len j = ground arith

-- The choice between the parts, before the eight bytes of the length and in them.
choose_early :
    (len j N a b : ℕ)
    → j + 8 < N
    → (if ltb j len then a else (if j == len then 0x80 else 0))
      ≡ (if ltb j len then a else (if j == len then 0x80 else (if ltb (j + 8) N then 0 else b)))
choose_early len j N a b h = ground arith

choose_late :
    (len j N a b : ℕ)
    → N ≤ j + 8
    → len + 9 ≤ N
    → b ≡ (if ltb j len then a else (if j == len then 0x80 else (if ltb (j + 8) N then 0 else b)))
choose_late len j N a b h e = ground arith

num_blocks-enough : (len : ℕ) → len < 2 ^ 32 - 73 → len + 9 ≤ num_blocks len * 64
unfolding num_blocks
num_blocks-enough len h = ground arith

padded-backwards :
    (message : Array) (len j : ℕ)
    → padded message len j
      ≡ backwards
          (num_blocks len * 64)
          (λ i. bit_and (u32 (len * 8) / 2 ^ (i * 8)) 0xFF)
          8
          0
          (put (λ i. if ltb i len then message i else 0) len 0x80)
          j
unfolding padded for_range
padded-backwards message len j = refl

-- The padded message of `len` bytes, for `len` below 2 ^ 32 - 73, at each index in its blocks:
-- the message, the byte 0x80, zeros up to eight bytes from the end, and in these the number of
-- bits modulo 2 ^ 32, most significant byte first.
pub padded_lem :
    (message : Array) (len j : ℕ)
    → len < 2 ^ 32 - 73
    → j < num_blocks len * 64
    → padded message len j ≡ (
        if ltb j len
        then message j
        else (if j == len
            then 0x80
            else (if ltb (j + 8) (num_blocks len * 64)
                then 0
                else length_byte len (num_blocks len * 64 - 1 - j))))
unfolding padded
padded_lem message len j h k =
    let N = num_blocks len * 64 in
    let enough : len + 9 ≤ N = num_blocks-enough len h in
    let f : ℕ → ℕ = λ i. bit_and (u32 (len * 8) / 2 ^ (i * 8)) 0xFF in
    let base : Array = put (λ i. if ltb i len then message i else 0) len 0x80 in
    elim (lt-cases (j + 8) N) [
      | inl early ↦
          padded-backwards message len j
          ∙ backwards-outside N f 8 0 base j (omega arith) (inr (omega arith))
          ∙ marked_lem message len j
          ∙ choose_early len j N (message j) (length_byte len (N - 1 - j)) early
      | inr late ↦
          padded-backwards message len j
          ∙ backwards-inside N f 8 0 base j (omega arith) (omega arith) (omega arith)
          ∙ and-mask 8 (u32 (len * 8) / 2 ^ ((N - 1 - j) * 8))
          ∙ choose_late len j N (message j) (length_byte len (N - 1 - j)) late enough
    ]
