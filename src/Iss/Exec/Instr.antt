-- ===== src/Iss/Exec/Instr.antt =====
-- The integer instructions of `exec_step` in RISCV-VP/iss.cpp, ADDI to EBREAK, MUL to REMU, LR.W and
-- SC.W, in the builds with `PIPELINE_TIMING` and `BRANCH_TIMING` and without them. Operands are read
-- from left to right.
use vcil.Prelude.{ℕ, ◌+◌, ◌-◌, ◌%◌, Bool, true, false, Option, some, if◌then◌else◌, ◌==◌, u32}
use vcil.Prelude.Int.{pos}
use vcil.Timing.Pipeline.{Pipeline, Range, do_mult, do_div, do_load, reserve_store}
use vcil.Timing.Predictor.{do_jump, do_call, do_ret, update_branch_prediction}
use vcil.Iss.Arith
use vcil.Iss.Exec
use vcil.Iss.Privilege.{RetOp, RetResult, exec_ret, returned, illegal}
use vcil.Iss.Step.{hit_breakpoint}
use vcil.Iss.Exec.{
  Build, Instruction, Units, Result, Action, pure, ◌>>=◌, ◌>>◌, gets, modify, throw, check, timed,
  set_pc, set_lr_sc_counter, call_memory, predicted, IsaExtension, m_isa_ext, a_isa_ext, LoadOp, lb,
  lh, lw, lbu, lhu, StoreOp, sb, sh, sw, Hardware, read, write, require_isa,
}
use vcil.Iss.Exec.Alu.{
  ImmOp, ShiftOp, RegOp, UpperOp, imm_value, shift_value, reg_value, upper_value,
}
use vcil.Iss.Exec.Branch.{BranchOp, holds}

pub data MulOp : Type 0 where
  mul mulh mulhu mulhsu div divu rem remu : MulOp

unfoldable pub mul_value : MulOp → ℕ → ℕ → ℕ
mul_value mul a b = Arith.mul a b
mul_value mulh a b = Arith.mulh a b
mul_value mulhu a b = Arith.mulhu a b
mul_value mulhsu a b = Arith.mulhsu a b
mul_value div a b = Arith.div a b
mul_value divu a b = Arith.divu a b
mul_value rem a b = Arith.rem a b
mul_value remu a b = Arith.remu a b

-- The unit of the pipeline that an operation takes.
unfoldable pub do_mul_op : MulOp → ℕ → ℕ → ℕ → Pipeline → Option Pipeline
do_mul_op mul rd a b p = do_mult rd a b p
do_mul_op mulh rd a b p = do_mult rd a b p
do_mul_op mulhu rd a b p = do_mult rd a b p
do_mul_op mulhsu rd a b p = do_mult rd a b p
do_mul_op _ rd a b p = do_div rd a b p

unfoldable pub load_width : LoadOp → ℕ
load_width lb = 1
load_width lbu = 1
load_width lh = 2
load_width lhu = 2
load_width lw = 4

unfoldable pub store_width : StoreOp → ℕ
store_width sb = 1
store_width sh = 2
store_width sw = 4

abbrev pub ra : ℕ
ra = 1

-- `{addr, addr+width}`.
abbrev pub range : ℕ → ℕ → Range
range addr width = record { start = addr; end = u32 (addr + width) }

abbrev pub lr_sc_instructions : ℕ
lr_sc_instructions = 17

module _ {M : Type 0} (hw : Hardware M) (build : Build) (i : Instruction) where
  abbrev pub Run : Type 0
  Run = Action (Unit {0}) (Units M)

  unfoldable pub exec_imm : ImmOp → Run
  exec_imm op = do a ← read hw build i.rs1; write hw build i.rd (imm_value op a i.i_imm)

  unfoldable pub exec_shift : ShiftOp → Run
  exec_shift op = do a ← read hw build i.rs1; write hw build i.rd (shift_value op a i.shamt)

  unfoldable pub exec_reg : RegOp → Run
  exec_reg op = do
    a ← read hw build i.rs1
    b ← read hw build i.rs2
    write hw build i.rd (reg_value op a b)

  unfoldable pub exec_upper : UpperOp → Run
  exec_upper op = do
    last_pc ← gets λ c. c.hart.last_pc
    write hw build i.rd (upper_value op last_pc i.u_imm)

  unfoldable pub exec_mul : MulOp → Run
  exec_mul op = do
    require_isa hw m_isa_ext i
    a ← read hw build i.rs1
    b ← read hw build i.rs2
    write hw build i.rd (mul_value op a b)
    timed build.pipeline_timing (do_mul_op op i.rd a b)

  -- The jump to a target, with the check of its alignment.
  unfoldable pub jump_to : ℕ → Run
  jump_to target = do set_pc target; check (hw.trap_check_pc_alignment target)

  unfoldable pub exec_jal : Run
  unfolding jump_to
  exec_jal = do
    link ← gets λ c. c.hart.pc
    last_pc ← gets λ c. c.hart.last_pc
    let pc = u32 (last_pc + i.j_imm)
    jump_to pc
    write hw build i.rd link
    predicted build.branch_timing
        (if i.rd == ra then do_call last_pc pc link else do_jump last_pc pc link)

  -- The base is read as `regs[rs1]` in every build.
  unfoldable pub exec_jalr : Run
  unfolding jump_to
  exec_jalr = do
    link ← gets λ c. c.hart.pc
    last_pc ← gets λ c. c.hart.last_pc
    base ← gets λ c. c.regs i.rs1
    let sum = u32 (base + i.i_imm)
    let pc = sum - sum % 2
    jump_to pc
    write hw build i.rd link
    predicted build.branch_timing (
        if i.rd == ra
        then do_call last_pc pc link
        else if i.rs1 == ra
        then do_ret last_pc pc link
        else do_jump last_pc pc link)

  -- The two branches of a conditional.
  unfoldable pub taken : Run
  unfolding jump_to
  taken = do
    last_pc ← gets λ c. c.hart.last_pc
    let pc = u32 (last_pc + i.b_imm)
    jump_to pc
    predicted build.branch_timing (update_branch_prediction last_pc pc true)

  unfoldable pub not_taken : Run
  not_taken = do
    last_pc ← gets λ c. c.hart.last_pc
    pc ← gets λ c. c.hart.pc
    predicted build.branch_timing (update_branch_prediction last_pc pc false)

  unfoldable pub exec_branch : BranchOp → Run
  unfolding taken not_taken
  exec_branch op = do
    a ← read hw build i.rs1
    b ← read hw build i.rs2
    (if holds op a b then taken else not_taken)

  -- A byte has no alignment.
  unfoldable pub check_alignment : ℕ → Bool → ℕ → Run
  check_alignment width is_load addr =
      if width == 1 then pure tt else check (hw.trap_check_addr_alignment width is_load addr)

  unfoldable pub exec_store : StoreOp → Run
  unfolding check_alignment
  exec_store op = do
    a ← read hw build i.rs1
    let addr = u32 (a + i.s_imm)
    let width = store_width op
    check_alignment width false addr
    v ← read hw build i.rs2
    call_memory (hw.store op addr v)
    timed build.pipeline_timing λ p. some (reserve_store (range addr width) (pos 1) p)

  unfoldable pub exec_load : LoadOp → Run
  unfolding check_alignment
  exec_load op = do
    a ← read hw build i.rs1
    let addr = u32 (a + i.i_imm)
    let width = load_width op
    check_alignment width true addr
    v ← call_memory (hw.load op addr)
    write hw build i.rd v
    timed build.pipeline_timing (do_load (range addr width) i.rd (pos 2))

  -- Without `PIPELINE_TIMING` a reservation that is counting down keeps its counter.
  unfoldable pub renewed : ℕ → ℕ
  renewed counter =
      if build.pipeline_timing
      then lr_sc_instructions
      else if counter == 0
      then lr_sc_instructions
      else counter

  unfoldable pub exec_lr_w : Run
  unfolding renewed
  exec_lr_w = do
    require_isa hw a_isa_ext i
    addr ← read hw build i.rs1
    check (hw.trap_check_addr_alignment 4 true addr)
    v ← call_memory (hw.atomic_load_reserved_word addr)
    write hw build i.rd v
    counter ← gets λ c. c.hart.lr_sc_counter
    set_lr_sc_counter (renewed counter)
    timed build.pipeline_timing (do_load (range addr 4) i.rd (pos 2))

  -- The result register holds a failure while the store may trap.
  unfoldable pub exec_sc_w : Run
  exec_sc_w = do
    require_isa hw a_isa_ext i
    addr ← read hw build i.rs1
    check (hw.trap_check_addr_alignment 4 false addr)
    v ← read hw build i.rs2
    write hw build i.rd 1
    stored ← call_memory (hw.atomic_store_conditional_word addr v)
    write hw build i.rd (if stored then 0 else 1)
    set_lr_sc_counter 0

  -- Without the emulation of system calls (`sys`).
  unfoldable pub exec_ecall : Run
  exec_ecall = do
    prv ← gets λ c. c.hart.prv
    last_pc ← gets λ c. c.hart.last_pc
    throw (record { reason = hw.exc_ecall prv; mtval = last_pc })

  unfoldable pub exec_ebreak : Run
  exec_ebreak = modify λ c. record c { status = hit_breakpoint }

  unfoldable pub after_ret : RetResult → Run
  after_ret (returned h) = modify λ c. record c { hart = h }
  after_ret illegal = throw (Exec.illegal hw i)

  unfoldable pub exec_xret : RetOp → Run
  unfolding after_ret
  exec_xret op = do r ← gets λ c. exec_ret op c.hart; after_ret r
