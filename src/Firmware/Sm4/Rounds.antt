-- ===== src/Firmware/Sm4/Rounds.antt =====
-- Encryption and decryption in `sm4_nice` of RISCV-VP/sm_tlm_uart/sm4.h.
use vcil.Prelude.{
  ℕ, zero, suc, ◌+◌, ◌-◌, ◌<◌, ◌≤◌, ◌≡◌, refl, ap, ap₂, sym, subst, ◌∙◌, inl, inr, bit_xor, arith,
  ◌==◌, Bool-cases, ==_iff,
}
use vcil.Prelude.Bits.{xor_comm, xor_assoc}
use vcil.Firmware.Arrays.{Array, zeros, put, for_range, put_self, put_ne}
use vcil.Firmware.Sm4.{sm4_nice, block_round}

abbrev mix : Array → Array → ℕ → ℕ
mix x round_key i = bit_xor (bit_xor (bit_xor (x (i + 1)) (x (i + 2))) (x (i + 3))) (round_key i)

module _ (ks ed : ℕ → ℕ → ℕ) (round_key : Array) where
  -- `r` is `x` up to the entry `i + 4`, and from there on each entry is the round of those before.
  record IsRounds (n i : ℕ) (x r : Array) : Type 0 where
    before : (j : ℕ) → j < i + 4 → r j ≡ x j
    rounds : (j : ℕ) → i ≤ j → j < i + n → r (j + 4) ≡ ed (r j) (mix r round_key j)

  for_range-IsRounds :
      (n i : ℕ) (x : Array) → IsRounds n i x (for_range n i (block_round ks ed round_key) x)
  unfolding for_range block_round
  for_range-IsRounds zero i x = record {
    before = λ j h. refl;
    rounds = λ j h k. absurd (omega arith);
  }
  for_range-IsRounds (suc n) i x =
      let v = ed (x i) (mix x round_key i) in
      let x' = put x (i + 4) v in
      let r = for_range-IsRounds n (i + 1) x' in
      let res = for_range n (i + 1) (block_round ks ed round_key) x' in
      let kept : (j : ℕ) → j < i + 4 → res j ≡ x j =
        λ j h. r.before j (omega arith) ∙ put_ne x (i + 4) v j (λ e. omega arith) in
      let first : res (i + 4) ≡ ed (res i) (mix res round_key i) =
        r.before (i + 4) (omega arith)
        ∙ put_self x (i + 4) v
        ∙ sym (
            ap₂ ed (kept i (omega arith)) (
              mix_ext x res i (kept (i + 1) (omega arith)) (kept (i + 2) (omega arith))
                (kept (i + 3) (omega arith)))) in
      record {
        before = kept;
        rounds = λ j h k. elim (Bool-cases (i == j)) [
          | inl now ↦
              subst (λ t. res (t + 4) ≡ ed (res t) (mix res round_key t)) ((==_iff i j).0 now) first
          | inr later ↦ r.rounds j (ground arith) (omega arith)
        ];
      }
    where
      mix_ext :
          (a b : Array) (i : ℕ)
          → b (i + 1) ≡ a (i + 1)
          → b (i + 2) ≡ a (i + 2)
          → b (i + 3) ≡ a (i + 3)
          → mix b round_key i ≡ mix a round_key i
      mix_ext a b i p q r = rw (p, q, r) refl

-- The three words and the key are mixed in the reverse order by the decryption.
mix_reversed :
    (a b c k : ℕ) → bit_xor (bit_xor (bit_xor c b) a) k ≡ bit_xor (bit_xor (bit_xor a b) c) k
mix_reversed a b c k =
    ap (λ t. bit_xor t k)
      (ap (λ t. bit_xor t a) (xor_comm c b) ∙ xor_comm (bit_xor b c) a ∙ sym (xor_assoc a b c))

-- Two runs of 32 rounds, the second over the words and the keys of the first in reverse order.
module _ (ed : ℕ → ℕ → ℕ) (involutive : (x t : ℕ) → ed (ed x t) t ≡ x) (x y keys : Array)
    (forth : (j : ℕ) → j < 32 → x (j + 4) ≡ ed (x j) (mix x keys j))
    (back : (j : ℕ) → j < 32 → y (j + 4) ≡ ed (y j) (mix y (λ i. keys (31 - i)) j))
    (start : (j : ℕ) → j < 4 → y j ≡ x (35 - j)) where
  reverse_step :
      (n j : ℕ)
      → n + j ≡ 31
      → y n ≡ x (j + 4)
      → y (n + 1) ≡ x (j + 3)
      → y (n + 2) ≡ x (j + 2)
      → y (n + 3) ≡ x (j + 1)
      → y (n + 4) ≡ x j
  reverse_step n j e h0 h1 h2 h3 =
      let key : 31 - n ≡ j = omega arith in
      let same : mix y (λ i. keys (31 - i)) n ≡ mix x keys j =
        rw (h1, h2, h3, key) (mix_reversed (x (j + 1)) (x (j + 2)) (x (j + 3)) (keys j)) in
      back n (omega arith)
      ∙ ap₂ ed (h0 ∙ forth j (omega arith)) same
      ∙ involutive (x j) (mix x keys j)

  reverse : (m : ℕ) → m ≤ 32 → (n : ℕ) → n < m + 4 → y n ≡ x (35 - n)
  reverse zero h n k = start n k
  reverse (suc m) h n k = elim (Bool-cases (n == m + 4)) [
    | inl last ↦
        let at_end : n ≡ m + 4 = (==_iff n (m + 4)).0 last in
        let j = 31 - m in
        let ih = reverse m (omega arith) in
        let e0 : 35 - m ≡ j + 4 = omega arith in
        let e1 : 35 - (m + 1) ≡ j + 3 = omega arith in
        let e2 : 35 - (m + 2) ≡ j + 2 = omega arith in
        let e3 : 35 - (m + 3) ≡ j + 1 = omega arith in
        let e4 : 35 - (m + 4) ≡ j = omega arith in
        let done =
          reverse_step m j (omega arith) (ih m (omega arith) ∙ ap x e0)
            (ih (m + 1) (omega arith) ∙ ap x e1) (ih (m + 2) (omega arith) ∙ ap x e2)
            (ih (m + 3) (omega arith) ∙ ap x e3) in
        subst (λ t. y t ≡ x (35 - t)) (sym at_end) (done ∙ ap x (sym e4))
    | inr early ↦ reverse m (omega arith) n (ground arith)
  ]

-- The loops that fill the first four entries.
fill : (g : Array) (j : ℕ) → j < 4 → for_range 4 0 (λ i a. put a i (g i)) zeros j ≡ g j
unfolding for_range
fill g zero h = refl
fill g (suc zero) h = refl
fill g (suc (suc zero)) h = refl
fill g (suc (suc (suc zero))) h = refl
fill g (suc (suc (suc (suc j)))) h = absurd (omega arith)

-- `sm4_nice` decrypts what it has encrypted: for every key schedule, key and block, if the round
-- instruction of the cipher is undone by itself, then the last four words of the decryption, read
-- backwards as those of the encryption are, are the block.
pub sm4_nice-decrypts :
    (ks ed : ℕ → ℕ → ℕ) (key cipher : Array) (i : ℕ)
    → ((x t : ℕ) → ed (ed x t) t ≡ x)
    → i < 4
    → (sm4_nice ks ed key cipher).y (35 - i) ≡ cipher i
unfolding sm4_nice
sm4_nice-decrypts ks ed key cipher i involutive h =
    let s = (sm4_nice ks ed key cipher).rk in
    let x = for_range 4 0 (λ i a. put a i (cipher i)) zeros in
    let x' = for_range 32 0 (block_round ks ed s) x in
    let y = for_range 4 0 (λ i a. put a i (x' (35 - i))) zeros in
    let forth = for_range-IsRounds ks ed s 32 0 x in
    let back = for_range-IsRounds ks ed (λ i. s (31 - i)) 32 0 y in
    let y' = for_range 32 0 (block_round ks ed (λ i. s (31 - i))) y in
    let all =
      reverse ed involutive x' y' s (λ j hj. forth.rounds j (omega arith) (omega arith))
        (λ j hj. back.rounds j (omega arith) (omega arith))
        (λ j hj. back.before j (omega arith) ∙ fill (λ i. x' (35 - i)) j hj) 32 (omega arith)
        (35 - i) (omega arith) in
    let e : 35 - (35 - i) ≡ i = omega arith in
    all ∙ ap x' e ∙ forth.before i (omega arith) ∙ fill cipher i h
