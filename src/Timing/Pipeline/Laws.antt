-- ===== src/Timing/Pipeline/Laws.antt =====
-- `advance` of the pipeline of RISCV-VP/timing.h on well-formed states.
use vcil.Prelude.{
  ℕ, ◌+◌, ◌<◌, ◌≡◌, refl, false, List, [], ◌∷◌, Option, none, some, if◌then◌else◌, u64, arith,
}
use vcil.Prelude.Int.{ℤ, pos, pos_part, ◌-ℤ◌}
use vcil.Timing.Pipeline.{
  RegisterLatency, StoreReservation, OperationReservation, Pipeline, advance, stall, find,
}
use vcil.Timing.Pipeline.Elapse.{
  All, survive, survive_registers, older_register, older_store, older_operation, elapse, IsDistinct,
  IsValid, OperationIsValid, advance-elapse,
}

-- The survivors of a list, over the latency of an entry.
module _ {A : Type 0} (lat : A → ℤ) (older : ℕ → A → A)
    (lat-older : (n : ℕ) (x : A) → lat (older n x) ≡ lat x -ℤ pos n) where
  pub survive-All :
      (n : ℕ) (xs : List A)
      → All (λ x. 0 < pos_part (lat x)) xs
      → All (λ x. 0 < pos_part (lat x)) (survive lat older n xs)
  unfolding survive
  survive-All n [] h = tt
  survive-All n (x ∷ xs) h = ground (arith, lat-older n x, survive-All n xs h.1)

  -- Surviving `m` cycles and then `n` is surviving `m + n`.
  pub survive-survive :
      ((m n : ℕ) (x : A) → older n (older m x) ≡ older (m + n) x)
      → (m n : ℕ) (xs : List A)
      → survive lat older n (survive lat older m xs) ≡ survive lat older (m + n) xs
  unfolding survive
  survive-survive h m n [] = refl
  survive-survive h m n (x ∷ xs) = ground (arith, h m n x, lat-older m x, survive-survive h m n xs)

pub find-survive :
    (n r : ℕ) (es : List RegisterLatency)
    → find es r ≡ false
    → find (survive_registers n es) r ≡ false
unfolding find survive
find-survive n r [] h = refl
find-survive n r (e ∷ es) h = ground (arith, find-survive n r es)

survive-IsDistinct :
    (n : ℕ) (es : List RegisterLatency) → IsDistinct es → IsDistinct (survive_registers n es)
unfolding find survive
survive-IsDistinct n [] h = tt
survive-IsDistinct n (e ∷ es) h =
    ground (arith, find-survive n e.reg_idx es, survive-IsDistinct n es h.1)

older_operation-IsValid :
    (n : ℕ) (o : OperationReservation) → OperationIsValid o → OperationIsValid (older_operation n o)
unfolding older_operation
older_operation-IsValid n o h e = ground arith

pub elapse-IsValid : (n : ℕ) (p : Pipeline) → IsValid p → IsValid (elapse n p)
unfolding elapse
elapse-IsValid n p v = record {
  registers = survive-All (λ e. e.latency) older_register (λ m e. refl) n _ v.registers;
  distinct = survive-IsDistinct n _ v.distinct;
  mult_valid = older_operation-IsValid n p.mult v.mult_valid;
  div_valid = older_operation-IsValid n p.div v.div_valid;
  stores = survive-All (λ s. s.latency) older_store (λ m e. refl) n _ v.stores;
  counter = omega arith;
}

-- A well-formed pipeline advances by any positive number of cycles with no assertion failing. It
-- stays well-formed, and the cycle counter grows by that number modulo 2 ^ 64.
pub advance-IsValid :
    (n : ℕ) (p : Pipeline)
    → 0 < n
    → IsValid p
    → (p' : Pipeline) × (advance (pos n) p ≡ some p')
      × IsValid p'
      × (p'.num_total_cycles ≡ u64 (p.num_total_cycles + n))
unfolding elapse
advance-IsValid n p h v = (elapse n p, advance-elapse n p h v, elapse-IsValid n p v, refl)

pub stall-elapse : (n : ℕ) (p : Pipeline) → 0 < n → IsValid p → stall (pos n) p ≡ some (elapse n p)
unfolding stall
stall-elapse n p h v = advance-elapse n p h v

pub elapse_cycles :
    (n : ℕ) (p : Pipeline) → (elapse n p).num_total_cycles ≡ u64 (p.num_total_cycles + n)
unfolding elapse
elapse_cycles n p = refl

-- What the simulator can tell of a unit: the cycles that it is still taken for, if any.
abbrev pub busy : OperationReservation → Option ℤ
busy o = if o.acquired then some o.latency else none

-- Two pipelines that no later call tells apart: they may differ in the value left over in the
-- `latency` of a free unit.
pub record IsSame (p q : Pipeline) : Type 0 where
  pub registers : p.pending_register_latencies ≡ q.pending_register_latencies
  pub mult : busy p.mult ≡ busy q.mult
  pub div : busy p.div ≡ busy q.div
  pub stores : p.pending_store_reservations ≡ q.pending_store_reservations
  pub cycles : p.num_total_cycles ≡ q.num_total_cycles

busy-older :
    (m n : ℕ) (o : OperationReservation)
    → busy (older_operation n (older_operation m o)) ≡ busy (older_operation (m + n) o)
unfolding older_operation
busy-older m n o = ground arith

older-older_register :
    (m n : ℕ) (e : RegisterLatency)
    → older_register n (older_register m e) ≡ older_register (m + n) e
older-older_register m n e = ground arith

older-older_store :
    (m n : ℕ) (s : StoreReservation) → older_store n (older_store m s) ≡ older_store (m + n) s
older-older_store m n s = ground arith

elapse-elapse : (m n : ℕ) (p : Pipeline) → IsSame (elapse n (elapse m p)) (elapse (m + n) p)
unfolding elapse
elapse-elapse m n p = record {
  registers =
      survive-survive (λ e. e.latency) older_register (λ k e. refl) older-older_register m n _;
  mult = busy-older m n p.mult;
  div = busy-older m n p.div;
  stores = survive-survive (λ s. s.latency) older_store (λ k s. refl) older-older_store m n _;
  cycles = omega arith;
}

-- Advancing a well-formed pipeline by `m` cycles and then by `n`, both positive, leads to the
-- same pipeline as advancing it by `m + n` at once, up to what is left in the latency of a free
-- unit.
pub advance-add :
    (m n : ℕ) (p : Pipeline)
    → 0 < m
    → 0 < n
    → IsValid p
    → (q r s : Pipeline) × (advance (pos m) p ≡ some q)
      × (advance (pos n) q ≡ some r)
      × (advance (pos (m + n)) p ≡ some s)
      × IsSame r s
advance-add m n p hm hn v = (
  elapse m p,
  elapse n (elapse m p),
  elapse (m + n) p,
  advance-elapse m p hm v,
  advance-elapse n (elapse m p) hn (elapse-IsValid m p v),
  advance-elapse (m + n) p (omega arith) v,
  elapse-elapse m n p,
)
