-- ===== src/Timing/Predictor/Outcome.antt =====
-- `update_branch_prediction` of RISCV-VP/timing.h, and the target buffer.
use vcil.Prelude.{
  length-replicate, replicate, ℕ, zero, suc, ◌+◌, ◌%◌, ◌/◌, ◌<◌, ◌≡◌, refl, ap, ◌∙◌, Bool, true,
  false, Option, none, some, List, [], ◌∷◌, length, get_elem?, set, length-set, get_elem?-set_self,
  get_elem?-set_ne, ◌==◌, ==_iff, if◌then◌else◌, arith, Bool-cases, inl, inr, u64,
}
use vcil.Prelude.Int.{pos}
use vcil.Timing.Assert.{◌>>=◌}
use vcil.Timing.Pipeline.{Pipeline, stall}
use vcil.Timing.Pipeline.Elapse.{IsValid, elapse}
use vcil.Timing.Pipeline.Laws.{elapse-IsValid, elapse_cycles, stall-elapse}
use vcil.Timing.Predictor.{
  branch_predictor, btb_entries, bht_entries, Btb, Entry, BranchPredictor, tag, find, update,
  bht_tag, get_entry, predict_branch_taken, resolve, update_branch_prediction,
}
use vcil.Timing.Predictor.ReturnStack.{IsBounded}
use vcil.Timing.Predictor.Learning.{AllBelow, IsEntry, update_history-IsEntry, predict-IsEntry}

abbrev AllEntries : List Entry → Type 0
AllEntries [] = Unit {0}
AllEntries (e ∷ es) = IsEntry e × AllEntries es

-- The tables have their sizes, and the return address stack its bound.
pub record IsPredictor (b : BranchPredictor) : Type 0 where
  pub targets : length b.btb.table ≡ 40
  pub entries : length b.bht.table ≡ 128
  pub well_formed : AllEntries b.bht.table
  pub links : IsBounded b.ras

AllEntries-replicate : (n : ℕ) (e : Entry) → IsEntry e → AllEntries (replicate n e)
AllEntries-replicate zero e h = tt
AllEntries-replicate (suc n) e h = (h, AllEntries-replicate n e h)

-- A new predictor is well-formed.
pub branch_predictor-IsPredictor : IsPredictor branch_predictor
unfolding branch_predictor
branch_predictor-IsPredictor = record {
  targets = length-replicate {A = ℕ} btb_entries 0;
  entries =
      let e : Entry = record { history = 0; counters = replicate 8 0 } in
      length-replicate bht_entries e;
  well_formed =
      AllEntries-replicate bht_entries (record { history = 0; counters = replicate 8 0 })
        (record { history = omega arith; counters = refl; saturated = small });
  links = omega arith;
}
  where
    small : AllBelow 3 (replicate 8 0)
    small = (
      omega arith,
      (
        omega arith,
        (
          omega arith,
          (omega arith, (omega arith, (omega arith, (omega arith, (omega arith, tt))))),
        ),
      ),
    )

get_elem?-lt {ℓ} :
    {A : Type ℓ} (i : ℕ) (xs : List A) → i < length xs → (a : A) × (get_elem? xs i ≡ some a)
get_elem?-lt i [] h = absurd (omega arith)
get_elem?-lt zero (x ∷ xs) h = (x, refl)
get_elem?-lt (suc i) (x ∷ xs) h = get_elem?-lt i xs (omega arith)

get_elem?-AllEntries :
    (i : ℕ) (es : List Entry)
    → AllEntries es
    → i < length es
    → (e : Entry) × (get_elem? es i ≡ some e) × IsEntry e
get_elem?-AllEntries i [] v h = absurd (omega arith)
get_elem?-AllEntries zero (x ∷ es) v h = (x, refl, v.0)
get_elem?-AllEntries (suc i) (x ∷ es) v h = get_elem?-AllEntries i es v.1 (omega arith)

set-AllEntries :
    (i : ℕ) (e : Entry) (es : List Entry) → AllEntries es → IsEntry e → AllEntries (set es i e)
set-AllEntries i e [] v h = tt
set-AllEntries zero e (x ∷ es) v h = (h, v.1)
set-AllEntries (suc i) e (x ∷ es) v h = (v.0, set-AllEntries i e es v.1 h)

tag-lt : (pc : ℕ) → tag pc < 40
unfolding tag
tag-lt pc = omega arith

-- The target buffer, with its 40 entries, is a table indexed by the tag of an address.
pub find-update :
    (pc pc' target : ℕ) (b : Btb)
    → length b.table ≡ 40
    → find pc' (update pc target b) ≡ (if tag pc == tag pc' then some target else find pc' b)
unfolding find update
find-update pc pc' target b h = elim (Bool-cases (tag pc == tag pc')) [
  | inl same ↦ rw same (
      rw (← (==_iff (tag pc) (tag pc')).0 same)
        (get_elem?-set_self b.table (tag pc) target (omega (arith, tag-lt pc))))
  | inr other ↦ rw other (get_elem?-set_ne b.table target (λ e. ground arith))
]

-- What the predictor expects a branch to do: the address that it jumps to, or `none` if it falls
-- through.
pub guess : ℕ → BranchPredictor → Option ℕ
guess last_pc b = get_entry last_pc b.bht >>= λ e.
    (predict_branch_taken e >>= λ t. (if t then find last_pc b.btb else none))

abbrev pub is_right : Option ℕ → Bool → ℕ → Bool
is_right none taken pc = if taken then false else true
is_right (some target) taken pc = if taken then target == pc else false

abbrev pub penalty : Bool → Pipeline → Pipeline
penalty right p = if right then p else elapse 3 p

pub stall_penalty : (p : Pipeline) → IsValid p → stall (pos 3) p ≡ some (elapse 3 p)
stall_penalty p v = stall-elapse 3 p (omega arith) v

-- The buffer after a branch.
retarget : Bool → Bool → ℕ → ℕ → Btb → Btb
retarget right taken last_pc pc b = if taken then (if right then b else update last_pc pc b) else b

resolve_lem :
    (t taken : Bool) (last_pc pc target : ℕ) (b : Btb) (p : Pipeline)
    → IsValid p
    → find last_pc b ≡ some target
    → let right = is_right (if t then find last_pc b else none) taken pc in
      resolve t taken last_pc pc b p ≡ some (retarget right taken last_pc pc b, penalty right p)
unfolding resolve retarget
resolve_lem true true last_pc pc target b p v f = ground (arith, stall_penalty p v)
resolve_lem true false last_pc pc target b p v f = ground (arith, stall_penalty p v)
resolve_lem false true last_pc pc target b p v f = ground (arith, stall_penalty p v)
resolve_lem false false last_pc pc target b p v f = refl

pub penalty-IsValid :
    (right : Bool) (p : Pipeline)
    → IsValid p
    → IsValid (penalty right p)
      × ((penalty right p).num_total_cycles ≡ u64 (p.num_total_cycles + (if right then 0 else 3)))
penalty-IsValid true p v = (v, omega (arith, v.counter))
penalty-IsValid false p v = (elapse-IsValid 3 p v, elapse_cycles 3 p)

length-retarget :
    (right taken : Bool) (last_pc pc : ℕ) (b : Btb)
    → length (retarget right taken last_pc pc b).table ≡ length b.table
unfolding retarget update
length-retarget true true last_pc pc b = refl
length-retarget true false last_pc pc b = refl
length-retarget false true last_pc pc b = length-set b.table (tag last_pc) pc
length-retarget false false last_pc pc b = refl

pub find_target :
    (last_pc : ℕ) (b : Btb) → length b.table ≡ 40 → (t : ℕ) × (find last_pc b ≡ some t)
unfolding find
find_target last_pc b h = get_elem?-lt (tag last_pc) b.table (omega (arith, tag-lt last_pc))

-- After a taken branch the buffer holds its target.
find-retarget :
    (t : Bool) (last_pc pc : ℕ) (b : Btb)
    → length b.table ≡ 40
    → let right = is_right (if t then find last_pc b else none) true pc in
      find last_pc (retarget right true last_pc pc b) ≡ some pc
unfolding retarget
find-retarget false last_pc pc b h = rw (find-update last_pc last_pc pc b h) (ground arith)
find-retarget true last_pc pc b h =
    let (target, f) = find_target last_pc b h in
    elim (Bool-cases (target == pc)) [
      | inl same ↦ rw (f, same) (rw f (ap some ((==_iff target pc).0 same)))
      | inr other ↦ rw (f, other) (rw (find-update last_pc last_pc pc b h) (ground arith))
    ]

find-retarget_any :
    (t taken : Bool) (last_pc pc : ℕ) (b : Btb)
    → length b.table ≡ 40
    → let right = is_right (if t then find last_pc b else none) taken pc in
      find last_pc (retarget right taken last_pc pc b) ≡ (if taken then some pc else find last_pc b)
unfolding retarget
find-retarget_any t true last_pc pc b h = find-retarget t last_pc pc b h
find-retarget_any t false last_pc pc b h = refl

-- A branch on a well-formed predictor and pipeline fails no assertion and keeps both well-formed.
-- The pipeline stalls three cycles if the guess is wrong and none if it is right, where the guess is
-- the buffered target if the history predicts a taken branch and falling through if not. After a
-- taken branch its target is in the buffer, and after any other the buffered target is unchanged.
pub update_branch_prediction-IsPredictor :
    (last_pc pc : ℕ) (taken : Bool) (b : BranchPredictor) (p : Pipeline)
    → IsPredictor b
    → IsValid p
    → (b' : BranchPredictor) × (p' : Pipeline) × (update_branch_prediction last_pc pc taken b p
        ≡ some (b', p'))
      × IsPredictor b'
      × IsValid p'
      × (p'.num_total_cycles
          ≡ u64 (p.num_total_cycles + (if is_right (guess last_pc b) taken pc then 0 else 3)))
      × (find last_pc b'.btb ≡ (if taken then some pc else find last_pc b.btb))
unfolding update_branch_prediction guess get_entry bht_tag
update_branch_prediction-IsPredictor last_pc pc taken b p w v =
    let i = last_pc / 1 % 128 in
    let (e, found, entry) =
      get_elem?-AllEntries i b.bht.table w.well_formed (omega (arith, w.entries)) in
    let (t, predicts) = predict-IsEntry e entry in
    let (e', updates, entry') = update_history-IsEntry taken e entry in
    let (target, f) = find_target last_pc b.btb w.targets in
    let right = is_right (if t then find last_pc b.btb else none) taken pc in
    let (valid, cycles) = penalty-IsValid right p v in
    let guess_is : guess last_pc b ≡ (if t then find last_pc b.btb else none) =
      ground (arith, found, predicts) in
    (
      record b {
        btb = retarget right taken last_pc pc b.btb;
        bht = record { table = set b.bht.table i e' };
      },
      penalty right p,
      ground (arith, found, predicts, updates, resolve_lem t taken last_pc pc target b.btb p v f),
      record {
        targets = length-retarget right taken last_pc pc b.btb ∙ w.targets;
        entries = length-set b.bht.table i e' ∙ w.entries;
        well_formed = set-AllEntries i e' b.bht.table w.well_formed entry';
        links = w.links;
      },
      valid,
      rw guess_is cycles,
      find-retarget_any t taken last_pc pc b.btb w.targets,
    )
