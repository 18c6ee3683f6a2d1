-- ===== src/Timing/Pipeline/Access.antt =====
-- Reads and writes of registers in the pipeline of RISCV-VP/timing.h, and pending results.
use vcil.Prelude.{
  ℕ, ◌+◌, ◌<◌, ◌≡◌, refl, false, List, [], ◌∷◌, ◌++◌, Option, none, some, ◌==◌, u64, arith,
  Bool-cases, Option-cases, inl, inr,
}
use vcil.Prelude.Int.{ℤ, pos, pos_part, ◌+ℤ◌}
use vcil.Timing.Pipeline.{
  Range, RegisterLatency, Pipeline, stall, find, pending_latency, access_register,
  add_result_latency, reserve_store,
}
use vcil.Timing.Pipeline.Elapse.{
  All, survive, survive_registers, elapse, IsDistinct, IsValid, advance-elapse,
}
use vcil.Timing.Pipeline.Laws.{elapse-IsValid, find-survive}

-- The first pending entry of a register is its only one, and it is gone when its latency is over.
pub find-survive_self :
    (r : ℕ) (es : List RegisterLatency) (k : ℕ)
    → IsDistinct es
    → pending_latency es r ≡ some (pos k)
    → find (survive_registers k es) r ≡ false
unfolding find pending_latency survive
find-survive_self r [] k d h = refl
find-survive_self r (e ∷ es) k d h = elim (Bool-cases (e.reg_idx == r)) [
  | inl same ↦ ground (arith, find-survive k r es)
  | inr other ↦ ground (arith, find-survive_self r es k d.1)
]

pending_latency-pos :
    (r : ℕ) (es : List RegisterLatency) (l : ℤ)
    → All (λ e. 0 < pos_part e.latency) es
    → pending_latency es r ≡ some l
    → (l ≡ pos (pos_part l)) × (0 < pos_part l)
unfolding pending_latency
pending_latency-pos r [] l h e = cc
pending_latency-pos r (x ∷ es) l h e = ground (arith, pending_latency-pos r es l h.1)

find-eq-false :
    (r : ℕ) (es : List RegisterLatency) → pending_latency es r ≡ none → find es r ≡ false
unfolding find pending_latency
find-eq-false r [] h = refl
find-eq-false r (e ∷ es) h = ground (arith, find-eq-false r es)

-- The cycles that an access to a register waits.
abbrev pub waits : Option ℤ → ℕ
waits none = 0
waits (some l) = pos_part l

-- Accessing a register of a well-formed pipeline fails no assertion and waits exactly for the
-- latency left of that register, if it has one. Afterwards the register has no pending result.
pub access_register-IsValid :
    (r : ℕ) (p : Pipeline)
    → IsValid p
    → (p' : Pipeline) × (access_register r p ≡ some p')
      × IsValid p'
      × (find p'.pending_register_latencies r ≡ false)
      × (p'.num_total_cycles
          ≡ u64 (p.num_total_cycles + waits (pending_latency p.pending_register_latencies r)))
unfolding access_register stall elapse
access_register-IsValid r p v =
    elim (Option-cases (pending_latency p.pending_register_latencies r)) [
      | inl e ↦
          (p, rw (e, access_register), v, find-eq-false r _ e, rw e (omega (arith, v.counter)))
      | inr (l, e) ↦
          let (is_pos, positive) = pending_latency-pos r _ l v.registers e in
          let k = pos_part l in
          (
            elapse k p,
            rw (e, access_register) (rw is_pos (advance-elapse k p positive v)),
            elapse-IsValid k p v,
            find-survive_self r _ k v.distinct (rw (← is_pos) e),
            rw e refl,
          )
    ]

-- Pushing the result of a register that has none pending.
find-append :
    (r x : ℕ) (l : ℤ) (es : List RegisterLatency)
    → (r == x) ≡ false
    → find es x ≡ false
    → find (es ++ record { reg_idx = r; latency = l } ∷ []) x ≡ false
unfolding find
find-append r x l [] h k = rw h refl
find-append r x l (e ∷ es) h k = ground (arith, find-append r x l es h)

IsDistinct-append :
    (r : ℕ) (l : ℤ) (es : List RegisterLatency)
    → IsDistinct es
    → find es r ≡ false
    → IsDistinct (es ++ record { reg_idx = r; latency = l } ∷ [])
unfolding find
IsDistinct-append r l [] d h = (refl, tt)
IsDistinct-append r l (e ∷ es) d h =
    ground (arith, find-append r e.reg_idx l es, IsDistinct-append r l es d.1)

All-append {ℓ κ} :
    {A : Type ℓ} (P : A → Type κ) (xs : List A) (x : A) → All P xs → P x → All P (xs ++ x ∷ [])
All-append P [] x h k = (k, tt)
All-append P (y ∷ xs) x h k = (h.0, All-append P xs x h.1 k)

pending_latency-append :
    (r : ℕ) (l : ℤ) (es : List RegisterLatency)
    → find es r ≡ false
    → pending_latency (es ++ record { reg_idx = r; latency = l } ∷ []) r ≡ some l
unfolding find pending_latency
pending_latency-append r l [] h = ground arith
pending_latency-append r l (e ∷ es) h = ground (arith, pending_latency-append r l es)

pub add_result_latency-IsValid :
    (r : ℕ) (l : ℤ) (p : Pipeline)
    → IsValid p
    → find p.pending_register_latencies r ≡ false
    → 0 < pos_part l
    → (q : Pipeline) × (add_result_latency r l p ≡ some q)
      × IsValid q
      × (pending_latency q.pending_register_latencies r ≡ some l)
unfolding add_result_latency
add_result_latency-IsValid r l p v f h = (
  record p {
    pending_register_latencies =
        p.pending_register_latencies ++ record { reg_idx = r; latency = l } ∷ [];
  },
  ground arith,
  record {
    registers = All-append _ p.pending_register_latencies _ v.registers h;
    distinct = IsDistinct-append r l p.pending_register_latencies v.distinct f;
    mult_valid = v.mult_valid;
    div_valid = v.div_valid;
    stores = v.stores;
    counter = v.counter;
  },
  pending_latency-append r l p.pending_register_latencies f,
)

-- A reserved store keeps a pipeline well-formed.
pub reserve_store-IsValid :
    (addrs : Range) (n : ℕ) (p : Pipeline) → IsValid p → IsValid (reserve_store addrs (pos n) p)
unfolding reserve_store
reserve_store-IsValid addrs n p v = record {
  registers = v.registers;
  distinct = v.distinct;
  mult_valid = v.mult_valid;
  div_valid = v.div_valid;
  stores =
      All-append _ p.pending_store_reservations (record { range = addrs; latency = pos n +ℤ pos 1 })
        v.stores (ground arith);
  counter = v.counter;
}
