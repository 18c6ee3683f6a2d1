-- ===== src/Timing/Pipeline.antt =====
-- `HiFive1PipelineTiming` of RISCV-VP/timing.h, as built with `E203_TIMING` (which the file
-- defines): pending results, the two arithmetic units, pending stores and the cycle counter.
-- An `int` is a ℤ, an `unsigned` a number below 2 ^ 32; a failed `assert` is `none`.
pub mod Elapse
pub mod Laws
pub mod Access
pub mod Issue
pub mod Ranges
pub mod Examples
use vcil.Prelude.{
  ℕ, ◌+◌, ◌-◌, ◌%◌, ◌^◌, Bool, true, false, not, ◌&&◌, Option, none, some, List, [], ◌∷◌, ◌++◌, ltb,
  leb, ◌==◌, if◌then◌else◌, u32, u64,
}
use vcil.Prelude.Int.{ℤ, pos, pos_part, neg_part, ◌-ℤ◌, ◌+ℤ◌, ltb_ℤ, leb_ℤ}
use vcil.Timing.Assert.{◌>>=◌, ◌>>◌, assert}

pub record Range : Type 0 where
  pub start : ℕ
  pub end : ℕ

pub contains : Range → ℕ → Option Bool
contains r addr = do assert (leb r.start r.end); some (leb r.start addr && ltb addr r.end)

pub overlaps : Range → Range → Bool
overlaps r other = if ltb other.start r.start then ltb r.start other.end else ltb other.start r.end

-- `end - start` on `unsigned`.
pub size : Range → ℕ
size r = u32 (r.end + 2 ^ 32 - r.start)

pub record StoreReservation : Type 0 where
  pub range : Range
  pub latency : ℤ

pub record OperationReservation : Type 0 where
  pub acquired : Bool
  pub latency : ℤ

pub record RegisterLatency : Type 0 where
  pub reg_idx : ℕ
  pub latency : ℤ

pub record Pipeline : Type 0 where
  pub pending_register_latencies : List RegisterLatency
  pub mult : OperationReservation
  pub div : OperationReservation
  pub pending_store_reservations : List StoreReservation
  pub num_total_cycles : ℕ

abbrev pub is_positive : ℤ → Bool
is_positive l = ltb_ℤ (pos 0) l

-- The three `advance` methods return whether the entry is still pending.
unfoldable pub advance_store : ℤ → StoreReservation → Option (Bool × StoreReservation)
advance_store num_cycles s = do
  assert (is_positive s.latency)
  let left = s.latency -ℤ num_cycles
  some (is_positive left, record s { latency = left })

unfoldable pub advance_register : ℤ → RegisterLatency → Option (Bool × RegisterLatency)
advance_register num_cycles e = do
  assert (is_positive e.latency)
  let left = e.latency -ℤ num_cycles
  some (is_positive left, record e { latency = left })

pub acquire : ℤ → OperationReservation → Option OperationReservation
acquire num_cycles o = do
  assert (is_positive num_cycles)
  assert (not o.acquired)
  some (record { acquired = true; latency = num_cycles })

unfoldable pub release : OperationReservation → Option OperationReservation
release o = do
  assert (leb_ℤ o.latency (pos 0))
  assert o.acquired
  some (record o { acquired = false })

unfoldable pub advance_operation : ℤ → OperationReservation → Option (Bool × OperationReservation)
unfolding release
advance_operation num_cycles o =
    if o.acquired
    then (do
      assert (is_positive o.latency)
      let o' : OperationReservation = record o { latency = o.latency -ℤ num_cycles }
      if leb_ℤ o'.latency (pos 0)
          then (do o'' ← release o'; some (false, o''))
          else some (true, o'))
    else some (true, o)

abbrev pub keep {ℓ} : {A : Type ℓ} → Bool × A → List A → List A
keep (pending, x) rest = if pending then x ∷ rest else rest

-- The loop that advances every entry of a vector and erases those that are through.
unfoldable pub advance_all {ℓ} : {A : Type ℓ} → (A → Option (Bool × A)) → List A → Option (List A)
advance_all step [] = some []
advance_all step (x ∷ xs) = do r ← step x; rest ← advance_all step xs; some (keep r rest)

unfoldable pub advance : ℤ → Pipeline → Option Pipeline
advance num_cycles p = do
  assert (is_positive num_cycles)
  regs ← advance_all (advance_register num_cycles) p.pending_register_latencies
  mult ← advance_operation num_cycles p.mult
  div ← advance_operation num_cycles p.div
  stores ← advance_all (advance_store num_cycles) p.pending_store_reservations
  some (record {
    pending_register_latencies = regs;
    mult = mult.1;
    div = div.1;
    pending_store_reservations = stores;
    num_total_cycles = u64 (p.num_total_cycles + pos_part num_cycles);
  })

pub stall : ℤ → Pipeline → Option Pipeline
stall num_cycles p = advance num_cycles p

-- The entry that the search loops stop at: the first one of the register.
pub pending_latency : List RegisterLatency → ℕ → Option ℤ
pending_latency [] reg_idx = none
pending_latency (e ∷ es) reg_idx =
    if e.reg_idx == reg_idx then some e.latency else pending_latency es reg_idx

pub access_register : ℕ → Pipeline → Option Pipeline
access_register reg_idx p = elim (pending_latency p.pending_register_latencies reg_idx) [
  | none ↦ some p
  | some latency ↦ stall latency p
]

pub find : List RegisterLatency → ℕ → Bool
find [] reg_idx = false
find (e ∷ es) reg_idx = if e.reg_idx == reg_idx then true else find es reg_idx

pub add_result_latency : ℕ → ℤ → Pipeline → Option Pipeline
add_result_latency reg_idx result_latency p = do
  assert (not (find p.pending_register_latencies reg_idx))
  assert (is_positive result_latency)
  some (record p {
    pending_register_latencies =
        p.pending_register_latencies ++ record { reg_idx = reg_idx; latency = result_latency } ∷ [];
  })

pub reserve_mult : ℤ → Pipeline → Option Pipeline
reserve_mult num_cycles p = do
  q ← (if p.mult.acquired then stall p.mult.latency p else some p)
  unit ← acquire num_cycles q.mult
  some (record q { mult = unit })

pub get_mult_result_latency : ℕ → ℕ → ℤ
get_mult_result_latency a b = pos 17

pub do_mult : ℕ → ℕ → ℕ → Pipeline → Option Pipeline
do_mult result_reg_idx a b p = do
  let num_cycles = get_mult_result_latency a b
  q ← reserve_mult num_cycles p
  add_result_latency result_reg_idx (num_cycles +ℤ pos 1) q

pub reserve_div : ℤ → Pipeline → Option Pipeline
reserve_div num_cycles p = do
  q ← (if p.div.acquired then stall p.div.latency p else some p)
  unit ← acquire num_cycles q.div
  some (record q { div = unit })

pub get_div_result_latency : ℕ → ℕ → ℤ
get_div_result_latency a b = pos 33

pub do_div : ℕ → ℕ → ℕ → Pipeline → Option Pipeline
do_div result_reg_idx a b p = do
  let num_cycles = get_div_result_latency a b
  q ← reserve_div num_cycles p
  add_result_latency result_reg_idx (num_cycles +ℤ pos 1) q

pub do_csr : ℕ → Pipeline → Option Pipeline
do_csr result_reg_idx p = add_result_latency result_reg_idx (pos 5) p

pub reserve_store : Range → ℤ → Pipeline → Pipeline
reserve_store addr_range num_cycles p = record p {
  pending_store_reservations =
      p.pending_store_reservations
      ++ record { range = addr_range; latency = num_cycles +ℤ pos 1 } ∷ [];
}

pub any_overlaps : List StoreReservation → Range → Bool
any_overlaps [] addrs = false
any_overlaps (e ∷ es) addrs = if overlaps e.range addrs then true else any_overlaps es addrs

pub has_store_reservation : Range → Pipeline → Bool
unfolding any_overlaps
has_store_reservation addrs p = any_overlaps p.pending_store_reservations addrs

pub do_load : Range → ℕ → ℤ → Pipeline → Option Pipeline
do_load addr_range rd latency p =
    if has_store_reservation addr_range p
    then (do
      q ← stall (pos 1) p
      let extra = if ltb (size addr_range) 4 then pos 1 else pos 0
      add_result_latency rd (latency +ℤ extra) q)
    else add_result_latency rd (latency +ℤ pos 0) p
