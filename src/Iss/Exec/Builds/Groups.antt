-- ===== src/Iss/Exec/Builds/Groups.antt =====
-- The instructions of `exec_step` in RISCV-VP/iss.cpp in a timed build, beside the plain one.
use vcil.Prelude.{
  ℕ, ◌+◌, ◌-◌, ◌%◌, ◌≡◌, refl, Bool, true, false, Option, some, if◌then◌else◌, ◌==◌, u32, arith,
}
use vcil.Prelude.Int.{pos}
use vcil.Timing.Pipeline.{Pipeline, find, do_load, do_mult, do_div, reserve_store}
use vcil.Timing.Pipeline.Elapse.{IsValid}
use vcil.Timing.Pipeline.Access.{reserve_store-IsValid}
use vcil.Timing.Pipeline.Issue.{PendingOp, mult, div, load, run_op, IsReady, run_op-Awaits}
use vcil.Timing.Predictor.{BranchPredictor, do_jump, do_call, do_ret, update_branch_prediction}
use vcil.Timing.Predictor.Outcome.{update_branch_prediction-IsPredictor}
use vcil.Timing.Predictor.Transfers.{do_jump-Succeeds, do_call-Succeeds, do_ret-Succeeds}
use vcil.Iss.Privilege.{RetOp, RetResult, exec_ret, returned, illegal}
use vcil.Iss.Exec.{
  Build, plain_build, Units, Instruction, Action, pure, ◌>>=◌, ◌>>◌, m_isa_ext, a_isa_ext, LoadOp,
  StoreOp, Hardware, read, write, timed, set_lr_sc_counter,
}
use vcil.Iss.Exec.Alu.{ImmOp, ShiftOp, RegOp, UpperOp}
use vcil.Iss.Exec.Branch.{BranchOp, holds}
use vcil.Iss.Exec.Instr.{
  MulOp, mul, mulh, mulhu, mulhsu, divu, rem, remu, mul_value, do_mul_op, load_width, store_width,
  range, ra, exec_imm, exec_shift, exec_reg, exec_upper, exec_mul, jump_to, exec_jal, exec_jalr,
  taken, not_taken, exec_branch, check_alignment, exec_store, exec_load, exec_sc_w, after_ret,
  exec_xret,
}
use vcil.Iss.Exec.Builds.{Blank, AlwaysFollows}
use vcil.Iss.Exec.Builds.Accesses.{
  PredictorPasses, AccessLaws, bind-Follows, pure-Follows, gets-Follows, modify-Follows,
  check-Follows, call_memory-Follows, timed-Follows, predicted-Follows, read-Follows,
  write_pending-Follows, write-Follows, require_isa-Follows,
}

-- A call that leaves the result of a register pending, after the write of the register.
pub run_op-passes :
    (op : PendingOp) (rd : ℕ) (p : Pipeline)
    → vcil.Timing.Pipeline.Issue.OpIsValid op
    → IsValid p
    → find p.pending_register_latencies rd ≡ false
    → (q : Pipeline) × (run_op op rd p ≡ some q) × IsValid q
run_op-passes op rd p o v free =
    let (q, e, valid, _) = run_op-Awaits op rd p o (record { valid = v; free = free }) in
    (q, e, valid)

do_mul_op-passes :
    (op : MulOp) (rd a b : ℕ) (p : Pipeline)
    → IsValid p
    → find p.pending_register_latencies rd ≡ false
    → (q : Pipeline) × (do_mul_op op rd a b p ≡ some q) × IsValid q
unfolding do_mul_op run_op
do_mul_op-passes mul rd a b p v free = run_op-passes (mult a b) rd p tt v free
do_mul_op-passes mulh rd a b p v free = run_op-passes (mult a b) rd p tt v free
do_mul_op-passes mulhu rd a b p v free = run_op-passes (mult a b) rd p tt v free
do_mul_op-passes mulhsu rd a b p v free = run_op-passes (mult a b) rd p tt v free
do_mul_op-passes MulOp.div rd a b p v free = run_op-passes (div a b) rd p tt v free
do_mul_op-passes divu rd a b p v free = run_op-passes (div a b) rd p tt v free
do_mul_op-passes rem rd a b p v free = run_op-passes (div a b) rd p tt v free
do_mul_op-passes remu rd a b p v free = run_op-passes (div a b) rd p tt v free

either_passes :
    (b : Bool) (f g : BranchPredictor → Pipeline → Option (BranchPredictor × Pipeline))
    → PredictorPasses f
    → PredictorPasses g
    → PredictorPasses (if b then f else g)
either_passes true f g h h' = h
either_passes false f g h h' = h'

module _ {M : Type 0} (k : Blank) (hw : Hardware M) (build : Build) (laws : AccessLaws hw)
    (i : Instruction) where
  -- What the instruction does in the plain build.
  abbrev FollowsPlain : ((b : Build) → Action (Unit {0}) (Units M)) → Type 0
  FollowsPlain exec = AlwaysFollows {M = M} k (exec build) (exec plain_build)

  reading :
      {A : Type 0} (r : ℕ) (f g : ℕ → Action A (Units M))
      → ((a : ℕ) → AlwaysFollows k (f a) (g a))
      → AlwaysFollows k (read hw build r >>= f) (read hw plain_build r >>= g)
  reading r f g h = bind-Follows k (read-Follows k hw build laws r) h

  pub exec_imm-Follows : (op : ImmOp) → FollowsPlain (λ b. exec_imm hw b i op)
  unfolding exec_imm
  exec_imm-Follows op = reading i.rs1 _ _ λ a. write-Follows k hw build laws i.rd _

  pub exec_shift-Follows : (op : ShiftOp) → FollowsPlain (λ b. exec_shift hw b i op)
  unfolding exec_shift
  exec_shift-Follows op = reading i.rs1 _ _ λ a. write-Follows k hw build laws i.rd _

  pub exec_reg-Follows : (op : RegOp) → FollowsPlain (λ b. exec_reg hw b i op)
  unfolding exec_reg
  exec_reg-Follows op =
      reading i.rs1 _ _ λ a. reading i.rs2 _ _ λ b. write-Follows k hw build laws i.rd _

  pub exec_upper-Follows : (op : UpperOp) → FollowsPlain (λ b. exec_upper hw b i op)
  unfolding exec_upper
  exec_upper-Follows op =
      bind-Follows k (gets-Follows k (λ c. c.hart.last_pc) (λ c. refl))
        λ a. write-Follows k hw build laws i.rd _

  pub exec_mul-Follows : (op : MulOp) → FollowsPlain (λ b. exec_mul hw b i op)
  unfolding exec_mul
  exec_mul-Follows op = bind-Follows k (require_isa-Follows k hw build laws m_isa_ext i) λ _.
      reading i.rs1 _ _ λ a. reading i.rs2 _ _ λ b.
        write_pending-Follows k hw build laws i.rd (mul_value op a b) (do_mul_op op i.rd a b)
          (do_mul_op-passes op i.rd a b)

  jump_to-Follows : (pc : ℕ) → FollowsPlain (λ b. jump_to hw b i pc)
  unfolding jump_to
  jump_to-Follows pc =
      bind-Follows k
        (modify-Follows k (λ c. record c { hart = record (c.hart) { pc = pc } })
          (λ c w. record { pipeline = w.pipeline; predictor = w.predictor }) (λ c. refl))
        λ _. check-Follows k (hw.trap_check_pc_alignment pc)

  either_Follows :
      (b : Bool) {m m' n n' : Action (Unit {0}) (Units M)}
      → AlwaysFollows k m n
      → AlwaysFollows k m' n'
      → AlwaysFollows k (if b then m else m') (if b then n else n')
  either_Follows true h h' = h
  either_Follows false h h' = h'

  pub exec_jal-Follows : FollowsPlain (λ b. exec_jal hw b i)
  unfolding exec_jal
  exec_jal-Follows = bind-Follows k (gets-Follows k (λ c. c.hart.pc) (λ c. refl)) λ link.
      bind-Follows k (gets-Follows k (λ c. c.hart.last_pc) (λ c. refl)) λ last_pc.
        let pc : ℕ = u32 (last_pc + i.j_imm) in
        bind-Follows k (jump_to-Follows pc) λ _.
          bind-Follows k (write-Follows k hw build laws i.rd link) λ _.
            predicted-Follows k build.branch_timing _ (
              either_passes (i.rd == ra) (do_call last_pc pc link) (do_jump last_pc pc link)
                (do_call-Succeeds last_pc pc link) (do_jump-Succeeds last_pc pc link))

  pub exec_jalr-Follows : FollowsPlain (λ b. exec_jalr hw b i)
  unfolding exec_jalr
  exec_jalr-Follows = bind-Follows k (gets-Follows k (λ c. c.hart.pc) (λ c. refl)) λ link.
      bind-Follows k (gets-Follows k (λ c. c.hart.last_pc) (λ c. refl)) λ last_pc.
        bind-Follows k (gets-Follows k (λ c. c.regs i.rs1) (λ c. refl)) λ base.
          let sum : ℕ = u32 (base + i.i_imm) in
          let pc : ℕ = sum - sum % 2 in
          bind-Follows k (jump_to-Follows pc) λ _.
            bind-Follows k (write-Follows k hw build laws i.rd link)
              λ _. predicted-Follows k build.branch_timing _ (transfer last_pc pc link)
    where
      transfer :
          (last_pc pc link : ℕ)
          → PredictorPasses (
              if i.rd == ra
              then do_call last_pc pc link
              else if i.rs1 == ra
              then do_ret last_pc pc link
              else do_jump last_pc pc link)
      transfer last_pc pc link = either_passes (i.rd == ra) _ _ (do_call-Succeeds last_pc pc link) (
          either_passes (i.rs1 == ra) _ _ (do_ret-Succeeds last_pc pc link)
            (do_jump-Succeeds last_pc pc link))

  update_passes :
      (last_pc pc : ℕ) (b : Bool) → PredictorPasses (update_branch_prediction last_pc pc b)
  update_passes last_pc pc b p q w v =
      let (p', q', e, w', v', _, _) = update_branch_prediction-IsPredictor last_pc pc b p q w v in
      (p', q', e, w', v')

  pub exec_branch-Follows : (op : BranchOp) → FollowsPlain (λ b. exec_branch hw b i op)
  unfolding exec_branch taken not_taken
  exec_branch-Follows op =
      reading i.rs1 _ _ λ a. reading i.rs2 _ _ λ b. either_Follows (holds op a b) jumps falls
    where
      jumps : FollowsPlain (λ b. taken hw b i)
      jumps = bind-Follows k (gets-Follows k (λ c. c.hart.last_pc) (λ c. refl)) λ last_pc.
          let pc : ℕ = u32 (last_pc + i.b_imm) in
          bind-Follows k (jump_to-Follows pc)
            λ _. predicted-Follows k build.branch_timing _ (update_passes last_pc pc true)

      falls : FollowsPlain (λ b. not_taken hw b i)
      falls = bind-Follows k (gets-Follows k (λ c. c.hart.last_pc) (λ c. refl)) λ last_pc.
          bind-Follows k (gets-Follows k (λ c. c.hart.pc) (λ c. refl))
            λ pc. predicted-Follows k build.branch_timing _ (update_passes last_pc pc false)

  check_alignment-Follows :
      (width : ℕ) (l : Bool) (addr : ℕ) → FollowsPlain (λ b. check_alignment hw b i width l addr)
  unfolding check_alignment
  check_alignment-Follows width l addr =
      either_Follows (width == 1) (pure-Follows k tt) (check-Follows k _)

  pub exec_store-Follows : (op : StoreOp) → FollowsPlain (λ b. exec_store hw b i op)
  unfolding exec_store
  exec_store-Follows op = reading i.rs1 _ _ λ a.
      let addr : ℕ = u32 (a + i.s_imm) in
      let width : ℕ = store_width op in
      bind-Follows k (check_alignment-Follows width false addr) λ _. reading i.rs2 _ _ λ v.
        bind-Follows k (call_memory-Follows k (hw.store op addr v)) λ _.
          timed-Follows k build.pipeline_timing
            (λ p. some (reserve_store (range addr width) (pos 1) p))
            (λ p w. (
              reserve_store (range addr width) (pos 1) p,
              refl,
              reserve_store-IsValid (range addr width) 1 p w,
            ))

  -- A load and the wait for it.
  loaded-Follows :
      (addr width v : ℕ)
      → AlwaysFollows k
          (write hw build i.rd v
            >> timed build.pipeline_timing (do_load (range addr width) i.rd (pos 2)))
          (write hw plain_build i.rd v >> pure tt)
  unfolding run_op
  loaded-Follows addr width v =
      write_pending-Follows k hw build laws i.rd v (do_load (range addr width) i.rd (pos 2))
        (λ p w free. run_op-passes (load (range addr width) 2) i.rd p (omega arith) w free)

  pub exec_load-Follows : (op : LoadOp) → FollowsPlain (λ b. exec_load hw b i op)
  unfolding exec_load
  exec_load-Follows op = reading i.rs1 _ _ λ a.
      let addr : ℕ = u32 (a + i.i_imm) in
      bind-Follows k (check_alignment-Follows (load_width op) true addr) λ _.
        bind-Follows k (call_memory-Follows k (hw.load op addr))
          λ v. loaded-Follows addr (load_width op) v

  set_counter-Follows :
      (n : ℕ) → AlwaysFollows {M = M} k (set_lr_sc_counter n) (set_lr_sc_counter n)
  set_counter-Follows n =
      modify-Follows k (λ c. record c { hart = record (c.hart) { lr_sc_counter = n } })
        (λ c w. record { pipeline = w.pipeline; predictor = w.predictor }) (λ c. refl)

  pub exec_sc_w-Follows : FollowsPlain (λ b. exec_sc_w hw b i)
  unfolding exec_sc_w
  exec_sc_w-Follows = bind-Follows k (require_isa-Follows k hw build laws a_isa_ext i) λ _.
      reading i.rs1 _ _ λ addr.
        bind-Follows k (check-Follows k (hw.trap_check_addr_alignment 4 false addr)) λ _.
          reading i.rs2 _ _ λ v. bind-Follows k (write-Follows k hw build laws i.rd 1) λ _.
            bind-Follows k (call_memory-Follows k (hw.atomic_store_conditional_word addr v))
              λ stored.
                bind-Follows k (write-Follows k hw build laws i.rd _) λ _. set_counter-Follows 0

  after_ret-Follows : (r : RetResult) → FollowsPlain (λ b. after_ret hw b i r)
  unfolding after_ret
  after_ret-Follows (returned h) c w = record {
    well_formed = record { pipeline = w.pipeline; predictor = w.predictor };
    same = refl;
  }
  after_ret-Follows illegal c w = record { well_formed = w; same = refl }

  pub exec_xret-Follows : (op : RetOp) → FollowsPlain (λ b. exec_xret hw b i op)
  unfolding exec_xret
  exec_xret-Follows op =
      bind-Follows k (gets-Follows k (λ c. exec_ret op c.hart) (λ c. refl)) after_ret-Follows
