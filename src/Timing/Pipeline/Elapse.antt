-- ===== src/Timing/Pipeline/Elapse.antt =====
-- What `advance` comes to where no assertion fails: each entry is older by `n` cycles, and those
-- that are through are gone.
use vcil.Prelude.{
  ℕ, ◌+◌, ◌^◌, ◌<◌, ◌≡◌, refl, Bool, true, false, List, [], ◌∷◌, Option, some, ltb, not, ◌||◌,
  if◌then◌else◌, u64, arith,
}
use vcil.Prelude.Int.{ℤ, pos, pos_part, ◌-ℤ◌}
use vcil.Timing.Pipeline.{
  RegisterLatency, StoreReservation, OperationReservation, Pipeline, advance_register,
  advance_store, advance_operation, advance_all, advance, find,
}

abbrev pub All {ℓ κ} : {A : Type ℓ} → (A → Type κ) → List A → Type κ
All P [] = Unit
All P (x ∷ xs) = P x × All P xs

-- The facts about one kind of entry, over the latency of an entry and the step of its loop.
module _ {ℓ} {A : Type ℓ} (lat : A → ℤ) (older : ℕ → A → A) where
  unfoldable pub survive : ℕ → List A → List A
  survive n [] = []
  survive n (x ∷ xs) = if ltb n (pos_part (lat x)) then older n x ∷ survive n xs else survive n xs

  module _ (step : ℤ → A → Option (Bool × A))
      (step_lem : (n : ℕ) (x : A)
        → 0 < pos_part (lat x)
        → step (pos n) x ≡ some (ltb n (pos_part (lat x)), older n x)) where
    pub advance_all-survive :
        (n : ℕ) (xs : List A)
        → All (λ x. 0 < pos_part (lat x)) xs
        → advance_all (step (pos n)) xs ≡ some (survive n xs)
    unfolding advance_all survive
    advance_all-survive n [] h = refl
    advance_all-survive n (x ∷ xs) h =
        rw (step_lem n x h.0) (rw (advance_all-survive n xs h.1) refl)

abbrev pub older_register : ℕ → RegisterLatency → RegisterLatency
older_register n e = record e { latency = e.latency -ℤ pos n }

abbrev pub older_store : ℕ → StoreReservation → StoreReservation
older_store n s = record s { latency = s.latency -ℤ pos n }

pub advance_register_lem :
    (n : ℕ) (e : RegisterLatency)
    → 0 < pos_part e.latency
    → advance_register (pos n) e ≡ some (ltb n (pos_part e.latency), older_register n e)
unfolding advance_register
advance_register_lem n e h = ground arith

pub advance_store_lem :
    (n : ℕ) (e : StoreReservation)
    → 0 < pos_part e.latency
    → advance_store (pos n) e ≡ some (ltb n (pos_part e.latency), older_store n e)
unfolding advance_store
advance_store_lem n e h = ground arith

abbrev pub survive_registers : ℕ → List RegisterLatency → List RegisterLatency
survive_registers = survive (λ e. e.latency) older_register

abbrev pub survive_stores : ℕ → List StoreReservation → List StoreReservation
survive_stores = survive (λ s. s.latency) older_store

advance_registers :
    (n : ℕ) (es : List RegisterLatency)
    → All (λ e. 0 < pos_part e.latency) es
    → advance_all (advance_register (pos n)) es ≡ some (survive_registers n es)
advance_registers =
    advance_all-survive (λ e. e.latency) older_register advance_register advance_register_lem

advance_stores :
    (n : ℕ) (es : List StoreReservation)
    → All (λ e. 0 < pos_part e.latency) es
    → advance_all (advance_store (pos n)) es ≡ some (survive_stores n es)
advance_stores = advance_all-survive (λ s. s.latency) older_store advance_store advance_store_lem

-- A unit that is through is free; the value left in its `latency` is never read.
unfoldable pub older_operation : ℕ → OperationReservation → OperationReservation
older_operation n o =
    if o.acquired
    then record { acquired = ltb n (pos_part o.latency); latency = o.latency -ℤ pos n }
    else o

-- The pipeline after `n` cycles in which nothing is issued.
unfoldable pub elapse : ℕ → Pipeline → Pipeline
elapse n p = record {
  pending_register_latencies = survive_registers n p.pending_register_latencies;
  mult = older_operation n p.mult;
  div = older_operation n p.div;
  pending_store_reservations = survive_stores n p.pending_store_reservations;
  num_total_cycles = u64 (p.num_total_cycles + n);
}

-- A unit in use has cycles left.
abbrev pub OperationIsValid : OperationReservation → Type 0
OperationIsValid o = o.acquired ≡ true → 0 < pos_part o.latency

-- No register has two pending results.
abbrev pub IsDistinct : List RegisterLatency → Type 0
IsDistinct [] = Unit
IsDistinct (e ∷ es) = (find es e.reg_idx ≡ false) × IsDistinct es

-- Every pending entry has cycles left, no register has two pending results, and the counter is a
-- `uint64_t`.
pub record IsValid (p : Pipeline) : Type 0 where
  pub registers : All (λ e. 0 < pos_part e.latency) p.pending_register_latencies
  pub distinct : IsDistinct p.pending_register_latencies
  pub mult_valid : OperationIsValid p.mult
  pub div_valid : OperationIsValid p.div
  pub stores : All (λ s. 0 < pos_part s.latency) p.pending_store_reservations
  pub counter : p.num_total_cycles < 2 ^ 64

pub advance_operation_lem :
    (n : ℕ) (o : OperationReservation)
    → OperationIsValid o
    → advance_operation (pos n) o
      ≡ some (not o.acquired || ltb n (pos_part o.latency), older_operation n o)
unfolding advance_operation older_operation
advance_operation_lem n o h = ground arith

pub advance-elapse :
    (n : ℕ) (p : Pipeline) → 0 < n → IsValid p → advance (pos n) p ≡ some (elapse n p)
unfolding advance elapse
advance-elapse n p h v = ground (
  arith,
  advance_registers n p.pending_register_latencies v.registers,
  advance_stores n p.pending_store_reservations v.stores,
  advance_operation_lem n p.mult v.mult_valid,
  advance_operation_lem n p.div v.div_valid,
)
