-- ===== src/Timing/Predictor/ReturnStack.antt =====
-- The return address stack of RISCV-VP/timing.h.
use vcil.Prelude.{ℕ, ◌≤◌, ◌≡◌, refl, true, false, some, List, [], ◌∷◌, ◌++◌, length, arith}
use vcil.Timing.Predictor.{Ras, push, pop, empty}

abbrev pub IsBounded : Ras → Type 0
IsBounded r = length r.q ≤ 2

-- A list of at most two items.
data Short : List ℕ → Type 0 where
  none_kept : Short []
  one_kept : (a : ℕ) → Short (a ∷ [])
  two_kept : (a b : ℕ) → Short (a ∷ b ∷ [])

Short-le : (xs : List ℕ) → length xs ≤ 2 → Short xs
Short-le [] h = none_kept
Short-le (a ∷ []) h = one_kept a
Short-le (a ∷ b ∷ []) h = two_kept a b
Short-le (a ∷ b ∷ c ∷ xs) h = absurd (omega arith)

-- The stack stays within two entries, whatever is pushed, and the entry that is popped next is the
-- one pushed last.
pub pop-push :
    (pc : ℕ) (r : Ras)
    → IsBounded r
    → IsBounded (push pc r) × ((s : Ras) × (pop (push pc r) ≡ some (pc, s)) × (length s.q ≤ 1))
unfolding push pop empty
pop-push pc r h = go r.q (Short-le r.q h)
  where
    go :
        (xs : List ℕ)
        → Short xs
        → IsBounded (push pc (record { q = xs }))
          × ((s : Ras) × (pop (push pc (record { q = xs })) ≡ some (pc, s)) × (length s.q ≤ 1))
    go xs none_kept = (omega arith, (record { q = [] }, refl, omega arith))
    go xs (one_kept a) = (omega arith, (record { q = a ∷ [] }, refl, omega arith))
    go xs (two_kept a b) = (omega arith, (record { q = b ∷ [] }, refl, omega arith))

-- After two pushes on a stack of at most two entries the two links come back in the reverse
-- order, and then the stack is empty.
pub pop-push_twice :
    (a b : ℕ) (r : Ras)
    → IsBounded r
    → (s t : Ras) × (pop (push b (push a r)) ≡ some (b, s))
      × (pop s ≡ some (a, t))
      × (empty t ≡ true)
unfolding push pop empty
pop-push_twice a b r h = go r.q (Short-le r.q h)
  where
    go :
        (xs : List ℕ)
        → Short xs
        → (s t : Ras) × (pop (push b (push a (record { q = xs }))) ≡ some (b, s))
          × (pop s ≡ some (a, t))
          × (empty t ≡ true)
    go xs none_kept = (record { q = a ∷ [] }, record { q = [] }, refl, refl, refl)
    go xs (one_kept c) = (record { q = a ∷ [] }, record { q = [] }, refl, refl, refl)
    go xs (two_kept c d) = (record { q = a ∷ [] }, record { q = [] }, refl, refl, refl)

pub not-empty-push : (pc : ℕ) (r : Ras) → empty (push pc r) ≡ false
unfolding push empty
not-empty-push pc r = go r.q
  where
    go : (xs : List ℕ) → empty (push pc (record { q = xs })) ≡ false
    go [] = refl
    go (a ∷ []) = refl
    go (a ∷ b ∷ xs) = ground (arith, append_one b xs)
      where
        append_one : (b : ℕ) (xs : List ℕ) → 2 ≤ length (b ∷ xs ++ pc ∷ [])
        append_one b [] = omega arith
        append_one b (c ∷ xs) = omega arith

-- A stack that is not empty has an entry to pop.
pub pop_not_empty :
    (r : Ras)
    → IsBounded r
    → empty r ≡ false
    → (a : ℕ) × (s : Ras) × (pop r ≡ some (a, s)) × IsBounded s
unfolding pop empty
pop_not_empty r h e = go r.q (Short-le r.q h) e
  where
    go :
        (xs : List ℕ)
        → Short xs
        → empty (record { q = xs }) ≡ false
        → (a : ℕ) × (s : Ras) × (pop (record { q = xs }) ≡ some (a, s)) × IsBounded s
    go xs none_kept e = cc
    go xs (one_kept a) e = (a, record { q = [] }, refl, omega arith)
    go xs (two_kept a b) e = (b, record { q = a ∷ [] }, refl, omega arith)
