-- ===== src/Timing/Predictor/Examples.antt =====
-- Runs of the branch predictor from its initial state.
use vcil.Prelude.{◌+◌, ◌≡◌, refl, true, some, [], ◌∷◌, if◌then◌else◌, u64, arith}
use vcil.Timing.Pipeline.{Pipeline}
use vcil.Timing.Pipeline.Elapse.{IsValid}
use vcil.Timing.Pipeline.Examples.{busy, busy-IsValid}
use vcil.Timing.Predictor.{
  Ras, Entry, BranchPredictor, branch_predictor, find, update_branch_prediction,
}
use vcil.Timing.Predictor.Learning.{IsEntry}
use vcil.Timing.Predictor.Outcome.{
  IsPredictor, branch_predictor-IsPredictor, guess, is_right, update_branch_prediction-IsPredictor,
}

abbrev full : Ras
full = record { q = 0x100 ∷ 0x200 ∷ [] }

abbrev used_entry : Entry
used_entry = record { history = 5; counters = 0 ∷ 3 ∷ 1 ∷ 0 ∷ 2 ∷ 0 ∷ 3 ∷ 1 ∷ [] }

used_entry-IsEntry : IsEntry used_entry
used_entry-IsEntry = record {
  history = omega arith;
  counters = refl;
  saturated = (
    omega arith,
    (
      omega arith,
      (omega arith, (omega arith, (omega arith, (omega arith, (omega arith, (omega arith, tt)))))),
    ),
  );
}

update_branch_prediction-IsPredictor_example :
    (b' : BranchPredictor) × (p' : Pipeline) × (update_branch_prediction 0x80 0x40 true
        branch_predictor busy
      ≡ some (b', p'))
    × IsPredictor b'
    × IsValid p'
    × (p'.num_total_cycles
        ≡ u64 (
            busy.num_total_cycles
            + (if is_right (guess 0x80 branch_predictor) true 0x40 then 0 else 3)))
    × (find 0x80 b'.btb ≡ (if true then some 0x40 else find 0x80 branch_predictor.btb))
update_branch_prediction-IsPredictor_example =
    update_branch_prediction-IsPredictor 0x80 0x40 true branch_predictor busy
      branch_predictor-IsPredictor busy-IsValid
