-- ===== src/Timing/Predictor/Calls.antt =====
-- `do_jump`, `do_call` and `do_ret` of RISCV-VP/timing.h.
use vcil.Prelude.{
  ℕ, ◌≡◌, refl, ◌∙◌, Bool, true, false, some, length, length-set, ◌==◌, arith, Bool-cases, inl, inr,
}
use vcil.Timing.Pipeline.{Pipeline}
use vcil.Timing.Pipeline.Elapse.{IsValid}
use vcil.Timing.Predictor.{
  Ras, Btb, BranchPredictor, tag, find, update, do_jump, do_call, do_ret, push,
}
use vcil.Timing.Predictor.ReturnStack.{IsBounded, pop-push, not-empty-push}
use vcil.Timing.Predictor.Outcome.{IsPredictor, penalty, stall_penalty, find_target}

-- A jump, a call or a return whose target is not on the stack costs three cycles unless the buffer
-- holds its target, and leaves it there.
pub do_jump_lem :
    (last_pc pc link : ℕ) (b : BranchPredictor) (p : Pipeline)
    → IsPredictor b
    → IsValid p
    → (t : Btb) × (right : Bool) × (do_jump last_pc pc link b p
        ≡ some (record b { btb = t }, penalty right p))
      × (length t.table ≡ 40)
      × (find last_pc b.btb ≡ some pc → right ≡ true)
unfolding do_jump update
do_jump_lem last_pc pc link b p w v =
    let (target, f) = find_target last_pc b.btb w.targets in
    elim (Bool-cases (target == pc)) [
      | inl same ↦ (b.btb, true, rw f (rw same refl), w.targets, λ h. refl)
      | inr other ↦ (
        update last_pc pc b.btb,
        false,
        rw f (rw other (rw (stall_penalty p v) refl)),
        length-set b.btb.table (tag last_pc) pc ∙ w.targets,
        λ h. ground (arith, f, h),
      )
    ]

pub with_targets-IsPredictor :
    (b : BranchPredictor) (t : Btb) (r : Ras)
    → IsPredictor b
    → length t.table ≡ 40
    → IsBounded r
    → IsPredictor (record b { btb = t; ras = r })
with_targets-IsPredictor b t r w h k = record {
  targets = h;
  entries = w.entries;
  well_formed = w.well_formed;
  links = k;
}

-- A return to the link of the call just before it costs nothing: on a well-formed predictor and
-- pipeline the call and the return both succeed, the return leaves the pipeline as it is, and the
-- predictor is well-formed after both.
pub do_ret-do_call :
    (last_pc pc link ret_pc ret_link : ℕ) (b : BranchPredictor) (p : Pipeline)
    → IsPredictor b
    → IsValid p
    → (b' b'' : BranchPredictor) × (p' : Pipeline) × (do_call last_pc pc link b p ≡ some (b', p'))
      × (do_ret ret_pc link ret_link b' p' ≡ some (b'', p'))
      × IsPredictor b'
      × IsPredictor b''
unfolding do_call do_ret
do_ret-do_call last_pc pc link ret_pc ret_link b p w v =
    let (t, right, jumps, size, _) = do_jump_lem last_pc pc link b p w v in
    let (bounded, (s, pops, fewer)) = pop-push link b.ras w.links in
    (
      record b { btb = t; ras = push link b.ras },
      record b { btb = t; ras = s },
      penalty right p,
      rw jumps refl,
      ground (arith, pops, not-empty-push link b.ras),
      with_targets-IsPredictor b t (push link b.ras) w size bounded,
      with_targets-IsPredictor b t s w size (omega arith),
    )
