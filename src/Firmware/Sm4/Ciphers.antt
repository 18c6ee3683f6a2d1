-- ===== src/Firmware/Sm4/Ciphers.antt =====
-- `sm4_nice` of RISCV-VP/sm_tlm_uart/sm4.h encrypts and decrypts as the standard does.
use vcil.Prelude.{
  ℕ, suc, ◌+◌, ◌-◌, ◌/◌, ◌%◌, ◌^◌, ◌<◌, ◌≡◌, refl, ap, sym, ◌∙◌, true, bit_xor, ◌==◌, ==_iff, arith,
  inl, inr, lt-cases,
}
use vcil.Nice.Cipher.{sm4_nonlinear, sm4_linear, sm4ks, sm4ed}
use vcil.Nice.Cipher.Rounds.{passes, passes-test, nonlinear_bytes}
use vcil.Firmware.Arrays.{Array, zeros, put, for_range, for_range_rule, put_self, put_ne}
use vcil.Firmware.Sm4.{Schedule, sm4_fk, sm4_ck, key_round, block_round, sm4_nice}
use vcil.Firmware.Sm4.Standard.{
  Quad, quad, reversed, substitute, linear, linear_key, next, key_constant, key_register, round_key,
  rounds, encrypt, decrypt,
}
use vcil.Firmware.Sm4.Sbox.{sbox_at-sbox}

sm4_nonlinear-substitute : (a : ℕ) → sm4_nonlinear a ≡ substitute a
unfolding substitute
sm4_nonlinear-substitute a =
    nonlinear_bytes a
    ∙ omega (
      arith,
      sbox_at-sbox (a / 2 ^ 24 % 256) (omega arith),
      sbox_at-sbox (a / 2 ^ 16 % 256) (omega arith),
      sbox_at-sbox (a / 2 ^ 8 % 256) (omega arith),
      sbox_at-sbox (a % 256) (omega arith),
    )

-- The functions of the coprocessor are the rounds of the standard.
sm4ks-linear_key : (k t : ℕ) → sm4ks k t ≡ bit_xor k (linear_key (substitute t))
unfolding sm4ks sm4_linear linear_key
sm4ks-linear_key k t = rw (sm4_nonlinear-substitute t) refl

sm4ed-linear : (x t : ℕ) → sm4ed x t ≡ bit_xor x (linear (substitute t))
unfolding sm4ed sm4_linear linear
sm4ed-linear x t = rw (sm4_nonlinear-substitute t) refl

constants : passes (λ i. sm4_ck i == key_constant i) 32 0 ≡ true
unfolding passes
constants = refl

sm4_ck-key_constant : (i : ℕ) → i < 32 → sm4_ck i ≡ key_constant i
sm4_ck-key_constant i h =
    (==_iff (sm4_ck i) (key_constant i)).0
      (passes-test (λ k. sm4_ck k == key_constant k) 32 0 i constants (omega arith) (omega arith))

-- Four entries of an array, from `n` on.
record IsAt (a : Array) (n : ℕ) (q : Quad) : Type 0 where
  x0 : a n ≡ q.x0
  x1 : a (n + 1) ≡ q.x1
  x2 : a (n + 2) ≡ q.x2
  x3 : a (n + 3) ≡ q.x3

-- The word of a round, behind the four.
IsAt-next :
    (a : Array) (n : ℕ) (q : Quad) (v : ℕ) (l : ℕ → ℕ) (k : ℕ)
    → IsAt a n q
    → v
      ≡ bit_xor
          (a n)
          (l (substitute (bit_xor (bit_xor (bit_xor (a (n + 1)) (a (n + 2))) (a (n + 3))) k)))
    → IsAt (put a (n + 4) v) (suc n) (next l k q)
unfolding next
IsAt-next a n q v l k s e =
    let kept : (i j : ℕ) → i ≡ j → i < n + 4 → put a (n + 4) v i ≡ a j =
      λ i j same h. put_ne a (n + 4) v i (λ t. omega arith) ∙ ap a same in
    record {
      x0 = kept (suc n) (n + 1) (omega arith) (omega arith) ∙ s.x1;
      x1 = kept (suc n + 1) (n + 2) (omega arith) (omega arith) ∙ s.x2;
      x2 = kept (suc n + 2) (n + 3) (omega arith) (omega arith) ∙ s.x3;
      x3 =
          ap (put a (n + 4) v) (omega arith)
          ∙ put_self a (n + 4) v
          ∙ e
          ∙ rw (s.x0, s.x1, s.x2, s.x3) refl;
    }

-- The register of the key schedule after `n` rounds, and the round keys so far.
record IsScheduled (key : Array) (n : ℕ) (s : Schedule) : Type 0 where
  register : IsAt s.k n (key_register key n)
  stored : (j : ℕ) → j < n → s.rk j ≡ round_key key j

-- The last four words, read backwards.
pub record IsResult (a : Array) (q : Quad) : Type 0 where
  pub x0 : a 35 ≡ q.x0
  pub x1 : a 34 ≡ q.x1
  pub x2 : a 33 ≡ q.x2
  pub x3 : a 32 ≡ q.x3

module _ (ks ed : ℕ → ℕ → ℕ) (is_ks : (k t : ℕ) → ks k t ≡ sm4ks k t)
    (is_ed : (x t : ℕ) → ed x t ≡ sm4ed x t) where
  -- 32 rounds over the keys `keys`.
  block_round-rounds :
      (round_keys keys x : Array) (q : Quad)
      → ((j : ℕ) → j < 32 → round_keys j ≡ keys j)
      → IsAt x 0 q
      → IsResult (for_range 32 0 (block_round ks ed round_keys) x) (reversed (rounds keys q 32))
  unfolding rounds block_round
  block_round-rounds round_keys keys x q same s =
      let r : IsAt (for_range 32 0 (block_round ks ed round_keys) x) 32 (rounds keys q 32) =
        for_range_rule (λ n a. IsAt a n (rounds keys q n)) 32 0 (block_round ks ed round_keys) x
          (λ n a lo hi held.
            IsAt-next a n (rounds keys q n) _ linear (keys n) held
              (is_ed _ _ ∙ sm4ed-linear _ _ ∙ rw (same n hi) refl))
          s in
      record { x0 = r.x3; x1 = r.x2; x2 = r.x1; x3 = r.x0 }

  -- A round of the key schedule.
  key_round-IsScheduled :
      (key : Array) (n : ℕ) (s : Schedule)
      → n < 32
      → IsScheduled key n s
      → IsScheduled key (suc n) (key_round ks ed n s)
  unfolding key_round key_register round_key
  key_round-IsScheduled key n s h held =
      let q = key_register key n in
      let v =
        ks (s.k n)
          (bit_xor (bit_xor (bit_xor (s.k (n + 1)) (s.k (n + 2))) (s.k (n + 3))) (sm4_ck n)) in
      let k' : Array = put s.k (n + 4) v in
      let moved : IsAt k' (suc n) (next linear_key (key_constant n) q) =
        IsAt-next s.k n q v linear_key (key_constant n) held.register
          (is_ks _ _ ∙ sm4ks-linear_key _ _ ∙ rw (sm4_ck-key_constant n h) refl) in
      let last : k' (n + 4) ≡ round_key key n = ap k' (omega arith) ∙ moved.x3 in
      record {
        register = moved;
        stored = λ j l. elim (lt-cases j n) [
          | inl early ↦ put_ne s.rk n (k' (n + 4)) j (λ e. omega arith) ∙ held.stored j early
          | inr late ↦
              let e : n ≡ j = omega arith in
              ap (put s.rk n (k' (n + 4))) (sym e)
              ∙ put_self s.rk n (k' (n + 4))
              ∙ last
              ∙ ap (round_key key) e
        ];
      }

  -- `sm4_nice` encrypts the block and decrypts the result as the standard does, if the two
  -- instructions compute what the functions of the coprocessor do: the last four words of `X` and
  -- of `Y`, read backwards, are the ciphertext and its decryption.
  pub sm4_nice-encrypts :
      (key cipher : Array)
      → let s = sm4_nice ks ed key cipher in
        let c = encrypt key (quad cipher) in IsResult s.x c × IsResult s.y (decrypt key c)
  unfolding sm4_nice encrypt decrypt rounds key_register for_range
  sm4_nice-encrypts key cipher =
      let k : Array = for_range 4 0 (λ i a. put a i (bit_xor (key i) (sm4_fk i))) zeros in
      let scheduled : IsScheduled key 32
          (for_range 32 0 (key_round ks ed) (record { k = k; rk = zeros })) =
        for_range_rule (IsScheduled key) 32 0 (key_round ks ed) (record { k = k; rk = zeros })
          (λ n s lo hi held. key_round-IsScheduled key n s hi held)
          (record {
            register = record { x0 = refl; x1 = refl; x2 = refl; x3 = refl };
            stored = λ j l. absurd (omega arith);
          }) in
      let rk = (for_range 32 0 (key_round ks ed) (record { k = k; rk = zeros })).rk in
      let x : Array = for_range 4 0 (λ i a. put a i (cipher i)) zeros in
      let forth =
        block_round-rounds rk (round_key key) x (quad cipher) scheduled.stored
          (record { x0 = refl; x1 = refl; x2 = refl; x3 = refl }) in
      let x' : Array = for_range 32 0 (block_round ks ed rk) x in
      let y : Array = for_range 4 0 (λ i a. put a i (x' (35 - i))) zeros in
      let back =
        block_round-rounds (λ i. rk (31 - i)) (λ i. round_key key (31 - i)) y
          (encrypt key (quad cipher)) (λ j l. scheduled.stored (31 - j) (omega arith))
          (record { x0 = forth.x0; x1 = forth.x1; x2 = forth.x2; x3 = forth.x3 }) in
      (forth, back)
