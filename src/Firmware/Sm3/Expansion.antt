-- ===== src/Firmware/Sm3/Expansion.antt =====
-- `message_ext_nice` of RISCV-VP/sm_tlm_uart/sm3.h.
use vcil.Prelude.{
  ℕ, zero, suc, ◌+◌, ◌-◌, ◌<◌, ◌≤◌, ◌≡◌, ◌⊎◌, inl, inr, refl, sym, ◌∙◌, subst, if◌then◌else◌,
  bit_xor, arith, lt-cases, ltb, true, false,
}
use vcil.Firmware.Arrays.{Array, put, put_self, put_ne, for_range}
use vcil.Firmware.Sm3.{Words, message_word, expanded, message_ext_nice}

-- `for (k = i; k < i + n; k++) a[k] = g(a, k)`.
abbrev pub fill : (Array → ℕ → ℕ) → ℕ → ℕ → Array → Array
fill g n i a = for_range n i (λ j a. put a j (g a j)) a

module _ (g : Array → ℕ → ℕ) where
  pub fill-outside : (n i : ℕ) (a : Array) (k : ℕ) → (k < i) ⊎ (i + n ≤ k) → fill g n i a k ≡ a k
  unfolding for_range
  fill-outside zero i a k h = refl
  fill-outside (suc n) i a k h =
      fill-outside n (i + 1) (put a i (g a i)) k
        (elim h [ inl l ↦ inl (omega arith) | inr l ↦ inr (omega arith) ])
      ∙ put_ne a i (g a i) k (elim h [ inl l ↦ omega arith | inr l ↦ omega arith ])

  -- Each entry has the value that `g` gives in the final array, where `g` looks below it only.
  pub fill-inside :
      (n i : ℕ) (a : Array) (k : ℕ)
      → ((b c : Array) (j : ℕ) → i ≤ j → ((l : ℕ) → l < j → b l ≡ c l) → g b j ≡ g c j)
      → i ≤ k
      → k < i + n
      → fill g n i a k ≡ g (fill g n i a) k
  unfolding for_range
  fill-inside zero i a k loc l h = absurd (omega arith)
  fill-inside (suc n) i a k loc l h =
      let b : Array = put a i (g a i) in
      elim (lt-cases i k) [
        | inl later ↦
            fill-inside n (i + 1) b k (λ b c j lj e. loc b c j (omega arith) e) (omega arith)
              (omega arith)
        | inr here ↦
            let e : i ≡ k = omega arith in
            subst (λ t. fill g n (i + 1) b t ≡ g (fill g n (i + 1) b) t) e
              (fill-outside n (i + 1) b i (inl (omega arith))
                ∙ put_self a i (g a i)
                ∙ loc a (fill g n (i + 1) b) i (omega arith) (λ l lt. sym (
                    fill-outside n (i + 1) b l (inl (omega arith))
                    ∙ put_ne a i (g a i) l (omega arith))))
      ]

module _ (p0 p1 : ℕ → ℕ) where
  expanded-local :
      (b c : Array) (j : ℕ)
      → 16 ≤ j
      → ((l : ℕ) → l < j → b l ≡ c l)
      → expanded p0 p1 b j ≡ expanded p0 p1 c j
  unfolding expanded
  expanded-local b c j h e =
      rw
        (
          e (j - 16) (omega arith),
          e (j - 9) (omega arith),
          e (j - 3) (omega arith),
          e (j - 13) (omega arith),
          e (j - 6) (omega arith),
        )
        refl

  -- The expansion of a block, for every index below 68: the words of the message first, then the
  -- recurrence of the standard for the words 16 to 67 of `W68`, and `W64` from `W68` in its 64
  -- words. What the tables held there before is gone.
  pub message_ext_nice_lem :
      (message_buf : Array) (w : Words) (j : ℕ)
      → j < 68
      → let e = message_ext_nice p0 p1 message_buf w in
        (e.w68 j ≡ (if ltb j 16 then message_word message_buf j else expanded p0 p1 e.w68 j))
        × (e.w64 j ≡ (if ltb j 64 then bit_xor (e.w68 j) (e.w68 (j + 4)) else w.w64 j))
  unfolding message_ext_nice
  message_ext_nice_lem message_buf w j h =
      let g1 : Array → ℕ → ℕ = λ a k. message_word message_buf k in
      let first : Array = fill g1 16 0 w.w68 in
      let w68 : Array = fill (expanded p0 p1) 52 16 first in
      let g3 : Array → ℕ → ℕ = λ a k. bit_xor (w68 k) (w68 (k + 4)) in
      (
        elim (lt-cases j 16) [
          | inl early ↦
              fill-outside (expanded p0 p1) 52 16 first j (inl early)
              ∙ fill-inside g1 16 0 w.w68 j (λ b c j l e. refl) (omega arith) (omega arith)
              ∙ rw (is_less j 16 early) refl
          | inr late ↦
              fill-inside (expanded p0 p1) 52 16 first j expanded-local late (omega arith)
              ∙ rw (not_less j 16 late) refl
        ],
        elim (lt-cases j 64) [
          | inl early ↦
              fill-inside g3 64 0 w.w64 j (λ b c j l e. refl) (omega arith) (omega arith)
              ∙ rw (is_less j 64 early) refl
          | inr late ↦ fill-outside g3 64 0 w.w64 j (inr late) ∙ rw (not_less j 64 late) refl
        ],
      )
    where
      is_less : (a b : ℕ) → a < b → ltb a b ≡ true
      is_less a b h = ground arith

      not_less : (a b : ℕ) → b ≤ a → ltb a b ≡ false
      not_less a b h = ground arith
