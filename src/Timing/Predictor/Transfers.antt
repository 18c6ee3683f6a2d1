-- ===== src/Timing/Predictor/Transfers.antt =====
-- `do_jump`, `do_call` and `do_ret` of RISCV-VP/timing.h on any well-formed state.
use vcil.Prelude.{ℕ, ◌≡◌, refl, Option, some, ◌==◌, Bool-cases, inl, inr}
use vcil.Timing.Pipeline.{Pipeline}
use vcil.Timing.Pipeline.Elapse.{IsValid}
use vcil.Timing.Predictor.{BranchPredictor, do_jump, do_call, do_ret, push, empty}
use vcil.Timing.Predictor.ReturnStack.{pop-push, pop_not_empty}
use vcil.Timing.Predictor.Outcome.{IsPredictor, penalty, penalty-IsValid}
use vcil.Timing.Predictor.Calls.{do_jump_lem, with_targets-IsPredictor}

-- A call that fails no assertion and keeps predictor and pipeline well-formed.
abbrev pub Succeeds : Option (BranchPredictor × Pipeline) → Type 0
Succeeds o =
    (b' : BranchPredictor) × (p' : Pipeline) × (o ≡ some (b', p')) × IsPredictor b' × IsValid p'

module _ (last_pc pc link : ℕ) (b : BranchPredictor) (p : Pipeline) where
  pub do_jump-Succeeds : IsPredictor b → IsValid p → Succeeds (do_jump last_pc pc link b p)
  do_jump-Succeeds w v =
      let (t, right, jumps, size, _) = do_jump_lem last_pc pc link b p w v in
      (
        record b { btb = t },
        penalty right p,
        jumps,
        with_targets-IsPredictor b t b.ras w size w.links,
        (penalty-IsValid right p v).0,
      )

  pub do_call-Succeeds : IsPredictor b → IsValid p → Succeeds (do_call last_pc pc link b p)
  unfolding do_call
  do_call-Succeeds w v =
      let (t, right, jumps, size, _) = do_jump_lem last_pc pc link b p w v in
      (
        record b { btb = t; ras = push link b.ras },
        penalty right p,
        rw jumps refl,
        with_targets-IsPredictor b t (push link b.ras) w size (pop-push link b.ras w.links).0,
        (penalty-IsValid right p v).0,
      )

pub do_ret-Succeeds :
    (last_pc pc link : ℕ) (b : BranchPredictor) (p : Pipeline)
    → IsPredictor b
    → IsValid p
    → Succeeds (do_ret last_pc pc link b p)
unfolding do_ret
do_ret-Succeeds last_pc pc link b p w v = elim (Bool-cases (empty b.ras)) [
  | inl none_left ↦ rw none_left (do_jump-Succeeds last_pc pc link b p w v)
  | inr some_left ↦
      let (a, s, pops, bounded) = pop_not_empty b.ras w.links some_left in
      let b' : BranchPredictor = record b { ras = s } in
      let w' : IsPredictor b' = with_targets-IsPredictor b b.btb s w w.targets bounded in
      elim (Bool-cases (pc == a)) [
        | inl right ↦ (b', p, rw (some_left, pops) (rw right refl), w', v)
        | inr wrong ↦ rw (some_left, pops) (rw wrong (do_jump-Succeeds last_pc pc link b' p w' v))
      ]
]
