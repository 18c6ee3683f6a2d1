-- ===== src/Timing/Pipeline/Issue.antt =====
-- The operations that leave a result pending, called as the simulator calls them: after an access
-- to the result register.
use vcil.Prelude.{
  ℕ, suc, ◌+◌, ◌<◌, ◌≡◌, refl, true, false, Option, some, ltb, if◌then◌else◌, arith, Bool-cases,
  inl, inr,
}
use vcil.Prelude.Int.{ℤ, pos, pos_part, ◌+ℤ◌}
use vcil.Timing.Pipeline.{
  Range, size, OperationReservation, Pipeline, stall, find, acquire, pending_latency,
  access_register, reserve_mult, reserve_div, do_mult, do_div, do_csr, do_load,
  has_store_reservation, get_mult_result_latency, get_div_result_latency,
}
use vcil.Timing.Pipeline.Elapse.{older_operation, elapse, IsValid, advance-elapse}
use vcil.Timing.Pipeline.Laws.{elapse-IsValid, find-survive}
use vcil.Timing.Pipeline.Access.{access_register-IsValid, add_result_latency-IsValid}

-- The calls that the simulator makes after it has written the result register.
pub data PendingOp : Type 0 where
  mult div : ℕ → ℕ → PendingOp
  csr : PendingOp
  load : Range → ℕ → PendingOp

unfoldable pub run_op : PendingOp → ℕ → Pipeline → Option Pipeline
run_op (mult a b) rd p = do_mult rd a b p
run_op (div a b) rd p = do_div rd a b p
run_op csr rd p = do_csr rd p
run_op (load addrs latency) rd p = do_load addrs rd (pos latency) p

-- A load of fewer than four bytes that overlaps a pending store takes one cycle more.
pub result_latency : PendingOp → Pipeline → ℕ
result_latency (mult a b) p = 18
result_latency (div a b) p = 34
result_latency csr p = 5
result_latency (load addrs latency) p =
    latency + (if has_store_reservation addrs p then (if ltb (size addrs) 4 then 1 else 0) else 0)

abbrev pub OpIsValid : PendingOp → Type 0
OpIsValid (load addrs latency) = 0 < latency
OpIsValid _ = Unit {0}

-- `q` is well-formed with no pending result for `r`, after a wait.
pub record IsReady (r : ℕ) (q : Pipeline) : Type 0 where
  pub valid : IsValid q
  pub free : find q.pending_register_latencies r ≡ false

elapse-IsReady : (n r : ℕ) (p : Pipeline) → IsReady r p → IsReady r (elapse n p)
unfolding elapse
elapse-IsReady n r p h = record {
  valid = elapse-IsValid n p h.valid;
  free = find-survive n r p.pending_register_latencies h.free;
}

eq_pos : (l : ℤ) → 0 < pos_part l → l ≡ pos (pos_part l)
eq_pos l h = ground arith

with_mult-IsReady :
    (r n : ℕ) (p : Pipeline)
    → IsReady r p
    → IsReady r (record p { mult = record { acquired = true; latency = pos (suc n) } })
with_mult-IsReady r n p h = record {
  valid = record {
    registers = h.valid.registers;
    distinct = h.valid.distinct;
    mult_valid = λ e. omega arith;
    div_valid = h.valid.div_valid;
    stores = h.valid.stores;
    counter = h.valid.counter;
  };
  free = h.free;
}

with_div-IsReady :
    (r n : ℕ) (p : Pipeline)
    → IsReady r p
    → IsReady r (record p { div = record { acquired = true; latency = pos (suc n) } })
with_div-IsReady r n p h = record {
  valid = record {
    registers = h.valid.registers;
    distinct = h.valid.distinct;
    mult_valid = h.valid.mult_valid;
    div_valid = λ e. omega arith;
    stores = h.valid.stores;
    counter = h.valid.counter;
  };
  free = h.free;
}

-- A unit that is taken is waited for, and is free when its latency is over.
older_self-free :
    (o : OperationReservation) → (older_operation (pos_part o.latency) o).acquired ≡ false
unfolding older_operation
older_self-free o = ground arith

reserve_mult-IsReady :
    (r n : ℕ) (p : Pipeline)
    → IsReady r p
    → (q : Pipeline) × (reserve_mult (pos (suc n)) p ≡ some q) × IsReady r q
unfolding reserve_mult acquire stall
reserve_mult-IsReady r n p h = elim (Bool-cases p.mult.acquired) [
  | inl taken ↦
      let k = pos_part p.mult.latency in
      let positive : 0 < k = h.valid.mult_valid taken in
      (
        record (elapse k p) { mult = record { acquired = true; latency = pos (suc n) } },
        ground (
          arith,
          eq_pos p.mult.latency positive,
          advance-elapse k p positive h.valid,
          elapse-mult k p,
          older_self-free p.mult,
        ),
        with_mult-IsReady r n (elapse k p) (elapse-IsReady k r p h),
      )
  | inr free ↦ (
    record p { mult = record { acquired = true; latency = pos (suc n) } },
    ground arith,
    with_mult-IsReady r n p h,
  )
]
  where
    elapse-mult : (k : ℕ) (p : Pipeline) → (elapse k p).mult ≡ older_operation k p.mult
    elapse-mult k p = unfold elapse in refl

reserve_div-IsReady :
    (r n : ℕ) (p : Pipeline)
    → IsReady r p
    → (q : Pipeline) × (reserve_div (pos (suc n)) p ≡ some q) × IsReady r q
unfolding reserve_div acquire stall
reserve_div-IsReady r n p h = elim (Bool-cases p.div.acquired) [
  | inl taken ↦
      let k = pos_part p.div.latency in
      let positive : 0 < k = h.valid.div_valid taken in
      (
        record (elapse k p) { div = record { acquired = true; latency = pos (suc n) } },
        ground (
          arith,
          eq_pos p.div.latency positive,
          advance-elapse k p positive h.valid,
          elapse-div k p,
          older_self-free p.div,
        ),
        with_div-IsReady r n (elapse k p) (elapse-IsReady k r p h),
      )
  | inr free ↦ (
    record p { div = record { acquired = true; latency = pos (suc n) } },
    ground arith,
    with_div-IsReady r n p h,
  )
]
  where
    elapse-div : (k : ℕ) (p : Pipeline) → (elapse k p).div ≡ older_operation k p.div
    elapse-div k p = unfold elapse in refl

-- `q` is a well-formed pipeline in which the result of `r` takes `n` more cycles.
abbrev pub Awaits : ℕ → ℕ → Option Pipeline → Type 0
Awaits r n o =
    (q : Pipeline) × (o ≡ some q)
    × IsValid q
    × (pending_latency q.pending_register_latencies r ≡ some (pos n))

add_pos : (a b : ℕ) → pos a +ℤ pos b ≡ pos (a + b)
add_pos a b = ground arith

load_extra :
    (addrs : Range) (n : ℕ)
    → pos n +ℤ (if ltb (size addrs) 4 then pos 1 else pos 0)
      ≡ pos (n + (if ltb (size addrs) 4 then 1 else 0))
load_extra addrs n = ground arith

pub run_op-Awaits :
    (op : PendingOp) (rd : ℕ) (p : Pipeline)
    → OpIsValid op
    → IsReady rd p
    → Awaits rd (result_latency op p) (run_op op rd p)
unfolding run_op result_latency do_mult do_div do_csr do_load get_mult_result_latency
    get_div_result_latency stall
run_op-Awaits (mult a b) rd p o h =
    let (q, e, ready) = reserve_mult-IsReady rd 16 p h in
    rw e (add_result_latency-IsValid rd (pos 18) q ready.valid ready.free (omega arith))
run_op-Awaits (div a b) rd p o h =
    let (q, e, ready) = reserve_div-IsReady rd 32 p h in
    rw e (add_result_latency-IsValid rd (pos 34) q ready.valid ready.free (omega arith))
run_op-Awaits csr rd p o h = add_result_latency-IsValid rd (pos 5) p h.valid h.free (omega arith)
run_op-Awaits (load addrs latency) rd p o h = elim (Bool-cases (has_store_reservation addrs p)) [
  | inl hit ↦
      let extra : ℕ = if ltb (size addrs) 4 then 1 else 0 in
      rw (hit, stall, advance-elapse 1 p (omega arith) h.valid)
        (rw (load_extra addrs latency) (
          add_result_latency-IsValid rd (pos (latency + extra)) (elapse 1 p)
            (elapse-IsReady 1 rd p h).valid (elapse-IsReady 1 rd p h).free (omega arith)))
  | inr miss ↦ rw miss (
      rw (add_pos latency 0)
        (add_result_latency-IsValid rd (pos (latency + 0)) p h.valid h.free (omega arith)))
]

-- Accessing a register and then issuing an operation whose result it receives fails no assertion on
-- a well-formed pipeline: it stays well-formed, and the result is pending with the latency of the
-- operation (18 for a multiplication, 34 for a division, 5 for a CSR, and for a load its own, one
-- more if it is narrow and overlaps a pending store). A load's own latency has to be positive.
pub access-run_op :
    (op : PendingOp) (rd : ℕ) (p : Pipeline)
    → OpIsValid op
    → IsValid p
    → (p' : Pipeline) × (access_register rd p ≡ some p')
      × Awaits rd (result_latency op p') (run_op op rd p')
access-run_op op rd p o v =
    let (p', e, valid, free, _) = access_register-IsValid rd p v in
    (p', e, run_op-Awaits op rd p' o (record { valid = valid; free = free }))
