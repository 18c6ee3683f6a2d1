-- ===== src/Firmware/Arrays.antt =====
-- C arrays of words as functions from indices, and the counted loop.
use mathlib.Core.Path.{fun_ext}
use vcil.Prelude.{
  ℕ, zero, suc, ◌+◌, ◌<◌, ◌≤◌, ◌≡◌, subst, ◌≢◌, List, get_or, ◌==◌, if◌then◌else◌, arith,
}

abbrev pub Array : Type 0
Array = ℕ → ℕ

abbrev pub zeros : Array
zeros i = 0

abbrev pub put : Array → ℕ → ℕ → Array
put a i v j = if i == j then v else a j

-- An array with the given values first.
abbrev pub array : List ℕ → Array
array xs i = get_or xs i 0

-- `for (k = i; k < i + n; k++) s = body(k, s)`.
unfoldable pub for_range {ℓ} : {S : Type ℓ} (count first : ℕ) (body : ℕ → S → S) → S → S
for_range zero k body state = state
for_range (suc left) k body state = for_range left (k + 1) body (body k state)

-- What the body keeps, from the first index to the last, holds after the loop.
pub for_range_rule {ℓ κ} :
    {S : Type ℓ} (P : ℕ → S → Type κ) (count first : ℕ) (body : ℕ → S → S) (state : S)
    → ((k : ℕ) (s : S) → first ≤ k → k < first + count → P k s → P (suc k) (body k s))
    → P first state
    → P (first + count) (for_range count first body state)
unfolding for_range
for_range_rule P zero first body state keep p = subst (λ k. P k state) (omega arith) p
for_range_rule P (suc left) first body state keep p =
    subst (λ k. P k (for_range left (first + 1) body (body first state))) (omega arith)
      (for_range_rule P left (first + 1) body (body first state)
        (λ k s lo hi. keep k s (omega arith) (omega arith))
        (subst (λ k. P k (body first state)) (omega arith)
          (keep first state (omega arith) (omega arith) p)))

pub put_self : (a : Array) (i v : ℕ) → put a i v i ≡ v
put_self a i v = ground arith

pub put_ne : (a : Array) (i v j : ℕ) → i ≢ j → put a i v j ≡ a j
put_ne a i v j h = ground arith

pub put_twice : (a : Array) (i v w : ℕ) → put (put a i v) i w ≡ put a i w
put_twice a i v w = fun_ext λ j. ground arith
