-- ===== src/Firmware/Sm3/Digests.antt =====
-- `SM3_nice` of RISCV-VP/sm_tlm_uart/sm3.h computes the hash of the standard.
use vcil.Prelude.{
  ℕ, zero, suc, ◌+◌, ◌-◌, ◌*◌, ◌%◌, ◌^◌, ◌<◌, ◌≤◌, ◌≡◌, ◌≢◌, inl, inr, refl, ap, ap₂, sym, ◌∙◌,
  subst, Bool, true, false, bit_xor, ltb, if◌then◌else◌, arith, lt-cases,
}
use vcil.Nice.Cipher.{rotl32}
use vcil.Firmware.Arrays.{Array, zeros, put, for_range, for_range_rule}
use vcil.Firmware.Sm3.{
  Words, Digest, iv, t_init, message_word, num_blocks, padded, expanded, message_ext_nice, cf_round,
  cf_nice, sm3_nice,
}
use vcil.Firmware.Sm3.Expansion.{message_ext_nice_lem}
use vcil.Firmware.Sm3.Blocks.{
  IsBytes, num_blocks-block_count, padded-padded_byte, padded_byte-lt, message_word-block_word,
  t_init-constant, ff-mix_abc, gg-mix_efg,
}
use vcil.Firmware.Sm3.Standard.{
  padded_byte, block_word, Registers, permute0, permute1, next_word, window, round, rounds,
  compress, chained, hash,
}

-- The entries A to H of the program are the registers.
pub record HoldsRegisters (v : Array) (r : Registers) : Type 0 where
  pub a : v 0 ≡ r.a
  pub b : v 1 ≡ r.b
  pub c : v 2 ≡ r.c
  pub d : v 3 ≡ r.d
  pub e : v 4 ≡ r.e
  pub f : v 5 ≡ r.f
  pub g : v 6 ≡ r.g
  pub h : v 7 ≡ r.h

module _ (p0 p1 : ℕ → ℕ) (is_p0 : (x : ℕ) → p0 x ≡ permute0 x)
    (is_p1 : (x : ℕ) → p1 x ≡ permute1 x) where
  expanded-next_word :
      (e : Array) (w : ℕ → ℕ) (j : ℕ)
      → ((i : ℕ) → i < 16 → w i ≡ e (j + i))
      → next_word w ≡ expanded p0 p1 e (j + 16)
  unfolding expanded rotl32
  expanded-next_word e w j same =
      let at : (i k : ℕ) → i < 16 → j + i ≡ k → w i ≡ e k = λ i k l q. same i l ∙ ap e q in
      rw
        (
          at 0 (j + 16 - 16) (omega arith) (omega arith),
          at 7 (j + 16 - 9) (omega arith) (omega arith),
          at 13 (j + 16 - 3) (omega arith) (omega arith),
          at 3 (j + 16 - 13) (omega arith) (omega arith),
          at 10 (j + 16 - 6) (omega arith) (omega arith),
          is_p1 (bit_xor (bit_xor (e (j + 16 - 16)) (e (j + 16 - 9))) (rotl32 (e (j + 16 - 3)) 15)),
        )
        refl

  -- The window at `j` is the words from `j` on of a table that meets the recurrence.
  window-table :
      (e block : Array)
      → ((k : ℕ) → k < 16 → e k ≡ block k)
      → ((k : ℕ) → 16 ≤ k → k < 68 → e k ≡ expanded p0 p1 e k)
      → (j i : ℕ) → i < 16
      → j + i < 68
      → window block j i ≡ e (j + i)
  unfolding window
  window-table e block first later zero i l h = sym (first i l) ∙ ap e (omega arith)
  window-table e block first later (suc j) i l h = elim (lt-cases i 15) [
    | inl inside ↦
        let t : ltb i 15 ≡ true = ground arith in
        ap choose t
        ∙ window-table e block first later j (i + 1) (omega arith) (omega arith)
        ∙ ap e (omega arith)
    | inr last ↦
        let t : ltb i 15 ≡ false = ground arith in
        ap choose t
        ∙ expanded-next_word e (window block j) j
            (λ k m. window-table e block first later j k m (omega arith))
        ∙ sym (later (j + 16) (omega arith) (omega arith))
        ∙ ap e (omega arith)
  ]
    where
      choose : Bool → ℕ
      choose b = if b then window block j (i + 1) else next_word (window block j)

  -- A round of the program is a round of the standard.
  cf_round-round :
      (w : Words) (words : ℕ → ℕ) (j : ℕ) (v : Array) (r : Registers)
      → j < 64
      → w.w68 j ≡ words 0
      → w.w64 j ≡ bit_xor (words 0) (words 4)
      → HoldsRegisters v r
      → HoldsRegisters (cf_round p0 p1 t_init w j v) (round j words r)
  unfolding cf_round round
  cf_round-round w words j v r l w68 w64 s = record {
    a =
        rw (ff-mix_abc (v 0) (v 1) (v 2) j l, t_init-constant j l, w64, s.a, s.b, s.c, s.d, s.e)
          refl;
    b = s.a;
    c = ap (λ t. rotl32 t 9) s.b;
    d = s.c;
    e =
        rw (gg-mix_efg (v 4) (v 5) (v 6) j l, t_init-constant j l, w68, s.a, s.e, s.f, s.g, s.h)
          (is_p0 _);
    f = s.e;
    g = ap (λ t. rotl32 t 19) s.f;
    h = s.g;
  }

  -- The compression of a block, where the tables hold its words.
  cf_nice-compress :
      (w : Words) (block v : Array) (r : Registers)
      → ((j : ℕ)
          → j < 64
          → (w.w68 j ≡ window block j 0)
            × (w.w64 j ≡ bit_xor (window block j 0) (window block j 4)))
      → HoldsRegisters v r
      → HoldsRegisters (cf_nice p0 p1 t_init w v) (compress block r)
  unfolding cf_nice compress rounds for_range
  cf_nice-compress w block v r table s =
      let start : Array = for_range 8 0 (λ j a. put a j (v j)) zeros in
      let done : Array = for_range 64 0 (cf_round p0 p1 t_init w) start in
      let kept : HoldsRegisters done (rounds block 64 r) =
        for_range_rule (λ k a. HoldsRegisters a (rounds block k r)) 64 0 (cf_round p0 p1 t_init w)
          start
          (λ k a lo hi held.
            let (w68, w64) = table k hi in
            cf_round-round w (window block k) k a (rounds block k r) hi w68 w64 held)
          (record { a = s.a; b = s.b; c = s.c; d = s.d; e = s.e; f = s.f; g = s.g; h = s.h }) in
      record {
        a = ap₂ bit_xor kept.a s.a;
        b = ap₂ bit_xor kept.b s.b;
        c = ap₂ bit_xor kept.c s.c;
        d = ap₂ bit_xor kept.d s.d;
        e = ap₂ bit_xor kept.e s.e;
        f = ap₂ bit_xor kept.f s.f;
        g = ap₂ bit_xor kept.g s.g;
        h = ap₂ bit_xor kept.h s.h;
      }

  -- The expansion and the compression of a block.
  block-compress :
      (buf block : Array) (w : Words) (v : Array) (r : Registers)
      → ((j : ℕ) → j < 16 → message_word buf j ≡ block j)
      → HoldsRegisters v r
      → HoldsRegisters (cf_nice p0 p1 t_init (message_ext_nice p0 p1 buf w) v) (compress block r)
  block-compress buf block w v r same s =
      let e = message_ext_nice p0 p1 buf w in
      let first : (k : ℕ) → k < 16 → e.w68 k ≡ block k = λ k l.
        (message_ext_nice_lem p0 p1 buf w k (omega arith)).0
        ∙ ap (choose_word e.w68 k) (less k 16 l)
        ∙ same k l in
      let later : (k : ℕ) → 16 ≤ k → k < 68 → e.w68 k ≡ expanded p0 p1 e.w68 k = λ k lo hi.
        (message_ext_nice_lem p0 p1 buf w k hi).0 ∙ ap (choose_word e.w68 k) (not_less k 16 lo) in
      let at : (j i : ℕ) → i < 16 → j + i < 68 → e.w68 (j + i) ≡ window block j i =
        λ j i l h. sym (window-table e.w68 block first later j i l h) in
      cf_nice-compress e block v r
        (λ j l. (
          ap e.w68 (omega arith) ∙ at j 0 (omega arith) (omega arith),
          (message_ext_nice_lem p0 p1 buf w j (omega arith)).1
              ∙ ap (choose_mixed e.w68 j) (less j 64 l)
              ∙ ap₂ bit_xor (ap e.w68 (omega arith) ∙ at j 0 (omega arith) (omega arith))
                  (at j 4 (omega arith) (omega arith)),
        ))
        s
    where
      choose_word : Array → ℕ → Bool → ℕ
      choose_word a k b = if b then message_word buf k else expanded p0 p1 a k

      choose_mixed : Array → ℕ → Bool → ℕ
      choose_mixed a k b = if b then bit_xor (a k) (a (k + 4)) else w.w64 k

      less : (a b : ℕ) → a < b → ltb a b ≡ true
      less a b h = ground arith

      not_less : (a b : ℕ) → b ≤ a → ltb a b ≡ false
      not_less a b h = ground arith

  -- `SM3_nice` leaves the hash of the standard in the eight words, if the instructions compute the
  -- permutations P0 and P1, for every message of fewer than 2 ^ 29 bytes whose length is not 55
  -- beyond whole blocks of 64.
  pub sm3_nice-hash :
      (message : Array) (len : ℕ)
      → IsBytes message len
      → len < 2 ^ 29
      → len % 64 ≢ 55
      → HoldsRegisters (sm3_nice p0 p1 message len) (hash message len)
  unfolding sm3_nice hash chained
  sm3_nice-hash message len bytes short whole =
      let n = num_blocks-block_count len short whole in
      let P : ℕ → Digest → Type 0 = λ k d. HoldsRegisters d.v (chained message len k) in
      let body : ℕ → Digest → Digest = λ i d.
        let words = message_ext_nice p0 p1 (λ j. padded message len (i * 64 + j)) d.words in
        record { v = cf_nice p0 p1 t_init words d.v; words = words } in
      let start : Digest = record { v = iv; words = record { w68 = zeros; w64 = zeros } } in
      let all : P (0 + num_blocks len) (for_range (num_blocks len) 0 body start) =
        for_range_rule P (num_blocks len) 0 body start
          (λ k d lo hi held.
            block-compress (λ j. padded message len (k * 64 + j))
              (block_word (λ j. padded_byte message len (k * 64 + j))) d.words d.v
              (chained message len k)
              (λ j l.
                message_word-block_word (λ j. padded message len (k * 64 + j))
                  (λ j. padded_byte message len (k * 64 + j)) j
                  (λ i. padded_byte-lt message len (k * 64 + i) bytes)
                  (λ i m.
                    padded-padded_byte message len (k * 64 + i) short whole
                      (omega (arith, n, hi, m, l))))
              held)
          (record {
            a = refl;
            b = refl;
            c = refl;
            d = refl;
            e = refl;
            f = refl;
            g = refl;
            h = refl;
          }) in
      subst
        (λ k. HoldsRegisters (for_range (num_blocks len) 0 body start).v (chained message len k))
        (omega (arith, n)) all
