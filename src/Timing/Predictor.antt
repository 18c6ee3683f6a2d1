-- ===== src/Timing/Predictor.antt =====
-- The branch predictor of RISCV-VP/timing.h: `HiFive1RAS`, `HiFive1BTB`, `HiFive1BHT` and
-- `HiFive1BranchPredictor`. The pipeline that the predictor points to is handed in and out. `none`
-- is a failed `assert` or an access out of range. A counter is an `int` that `std::max` keeps from
-- falling below 0, so the truncated `-` on numbers is exact.
pub mod ReturnStack
pub mod Learning
pub mod Outcome
pub mod Calls
pub mod Transfers
pub mod Examples
use Prim.Native.Nat.{min}
use vcil.Prelude.{
  ℕ, zero, suc, ◌+◌, ◌-◌, ◌%◌, ◌/◌, ◌^◌, Bool, true, false, not, Option, none, some, List, [], ◌∷◌,
  ◌++◌, ltb, leb, ◌==◌, if◌then◌else◌, length, get_elem?, get_or, set, replicate, bit_or,
}
use vcil.Prelude.Int.{pos}
use vcil.Timing.Assert.{◌>>=◌, ◌>>◌, assert}
use vcil.Timing.Pipeline.{Pipeline, stall}

-- The return address stack: a deque, its front first.
pub record Ras : Type 0 where
  pub q : List ℕ

abbrev pub ras_size : ℕ
ras_size = 2

abbrev pub pop_front : List ℕ → List ℕ
pop_front [] = []
pop_front (x ∷ xs) = xs

pub push : ℕ → Ras → Ras
push pc r =
    let longer = r.q ++ pc ∷ [] in
    record { q = if ltb ras_size (length longer) then pop_front longer else longer }

pub empty : Ras → Bool
empty r = length r.q == 0

-- The last element of a list that is not empty, and what stands before it.
pub pop_back : List ℕ → Option (ℕ × List ℕ)
pop_back [] = none
pop_back (x ∷ []) = some (x, [])
pop_back (x ∷ y ∷ xs) = pop_back (y ∷ xs) >>= λ r. some (r.0, x ∷ r.1)

pub pop : Ras → Option (ℕ × Ras)
unfolding pop_back
pop r = do assert (not (empty r)); e ← pop_back r.q; some (e.0, record { q = e.1 })

-- The branch target buffer.
pub record Btb : Type 0 where
  pub table : List ℕ

abbrev pub btb_entries : ℕ
btb_entries = 40

pub tag : ℕ → ℕ
tag pc = pc / 1 % btb_entries

pub find : ℕ → Btb → Option ℕ
find pc b = get_elem? b.table (tag pc)

pub update : ℕ → ℕ → Btb → Btb
update pc target b = record { table = set b.table (tag pc) target }

-- The branch history table.
pub record Entry : Type 0 where
  pub history : ℕ
  pub counters : List ℕ

abbrev pub history_bits : ℕ
history_bits = 3

abbrev pub counter_threshold : ℕ
counter_threshold = 2 ^ 2 / 2

abbrev pub counter_max : ℕ
counter_max = 2 ^ 2 - 1

abbrev pub history_mask : ℕ
history_mask = 2 ^ (history_bits - 1)

pub predict_branch_taken : Entry → Option Bool
predict_branch_taken e = do
  counter ← get_elem? e.counters e.history
  some (leb counter_threshold counter)

pub update_history : Bool → Entry → Option Entry
update_history branch_taken e = do
  assert (ltb e.history (2 ^ history_bits))
  counter ← get_elem? e.counters e.history
  some (record {
    history = bit_or (e.history / 2) (if branch_taken then history_mask else 0);
    counters =
        set e.counters e.history
          (if branch_taken then min (counter + 1) counter_max else counter - 1);
  })

pub record Bht : Type 0 where
  pub table : List Entry

abbrev pub bht_entries : ℕ
bht_entries = 128

pub bht_tag : ℕ → ℕ
bht_tag pc = pc / 1 % bht_entries

pub get_entry : ℕ → Bht → Option Entry
get_entry pc b = do assert (ltb (bht_tag pc) bht_entries); get_elem? b.table (bht_tag pc)

pub record BranchPredictor : Type 0 where
  pub ras : Ras
  pub btb : Btb
  pub bht : Bht

unfoldable pub branch_predictor : BranchPredictor
branch_predictor = record {
  ras = record { q = [] };
  btb = record { table = replicate btb_entries 0 };
  bht = record {
    table =
        replicate bht_entries (record { history = 0; counters = replicate (2 ^ history_bits) 0 });
  };
}

abbrev pub branch_misprediction_penalty : ℕ
branch_misprediction_penalty = 3

-- The two data structures and the pipeline after a wrong prediction of the target.
pub mispredicted_target : ℕ → ℕ → Btb → Pipeline → Option (Btb × Pipeline)
mispredicted_target last_pc pc b p = do
  p' ← stall (pos branch_misprediction_penalty) p
  some (update last_pc pc b, p')

-- The part of `update_branch_prediction` that depends on the prediction and on the outcome.
pub resolve : Bool → Bool → ℕ → ℕ → Btb → Pipeline → Option (Btb × Pipeline)
unfolding mispredicted_target
resolve true true last_pc pc b p = do
  target ← find last_pc b
  (if target == pc then some (b, p) else mispredicted_target last_pc pc b p)
resolve true false last_pc pc b p = do p' ← stall (pos branch_misprediction_penalty) p; some (b, p')
resolve false true last_pc pc b p = mispredicted_target last_pc pc b p
resolve false false last_pc pc b p = some (b, p)

pub update_branch_prediction :
    ℕ → ℕ → Bool → BranchPredictor → Pipeline → Option (BranchPredictor × Pipeline)
update_branch_prediction last_pc pc branch_taken b p = do
  bht_entry ← get_entry last_pc b.bht
  predicted ← predict_branch_taken bht_entry
  r ← resolve predicted branch_taken last_pc pc b.btb p
  bht_entry' ← update_history branch_taken bht_entry
  some (
    record b { btb = r.0; bht = record { table = set b.bht.table (bht_tag last_pc) bht_entry' } },
    r.1,
  )

pub do_jump : ℕ → ℕ → ℕ → BranchPredictor → Pipeline → Option (BranchPredictor × Pipeline)
unfolding mispredicted_target
do_jump last_pc pc link b p = do
  target ← find last_pc b.btb
  (if target == pc
      then some (b, p)
      else mispredicted_target last_pc pc b.btb p >>= λ r. some (record b { btb = r.0 }, r.1))

pub do_call : ℕ → ℕ → ℕ → BranchPredictor → Pipeline → Option (BranchPredictor × Pipeline)
do_call last_pc pc link b p = do
  r ← do_jump last_pc pc link b p
  some (record (r.0) { ras = push link r.0.ras }, r.1)

pub do_ret : ℕ → ℕ → ℕ → BranchPredictor → Pipeline → Option (BranchPredictor × Pipeline)
do_ret last_pc pc link b p = if empty b.ras then do_jump last_pc pc link b p else (do
  e ← pop b.ras
  let b' : BranchPredictor = record b { ras = e.1 }
  if pc == e.0 then some (b', p) else do_jump last_pc pc link b' p)
