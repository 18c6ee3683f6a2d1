-- ===== src/Iss/Exec/Step.antt =====
-- `exec_step` of RISCV-VP/iss.cpp: the fetch, the dispatch on the decoded operation and the
-- execution. The decoder and the instruction memory come from outside. The instructions on control
-- registers are `Csr` and those on floating-point numbers `Float`; AMO, WFI and SFENCE.VMA are not
-- among the operations.
use vcil.Prelude.{ℕ, ◌+◌, Bool, true, false, not, ◌&&◌, if◌then◌else◌, u32}
use vcil.Iss.Privilege.{RetOp}
use vcil.Iss.Step.{Core, Outcome, done, raised, aborted}
use vcil.Iss.Exec.{
  Build, Instruction, Units, returned, thrown, stopped, Action, MemoryResult, value, fault, pure,
  ◌>>=◌, ◌>>◌, gets, modify, throw, set_pc, with_memory, c_isa_ext, LoadOp, StoreOp, Hardware,
  illegal, require_isa,
}
use vcil.Iss.Exec.Alu.{ImmOp, ShiftOp, RegOp, UpperOp}
use vcil.Iss.Exec.Branch.{BranchOp}
use vcil.Iss.Exec.Instr.{
  MulOp, exec_imm, exec_shift, exec_reg, exec_upper, exec_mul, exec_jal, exec_jalr, exec_branch,
  exec_store, exec_load, exec_lr_w, exec_sc_w, exec_ecall, exec_ebreak, exec_xret,
}
use vcil.Iss.Exec.Custom.{Coprocessor, exec_custom3}

-- `unsupported` are the operations of RV64 that the decoder accepts.
pub data Operation : Type 0 where
  undef custom3 jal jalr fence fence_i ecall ebreak lr_w sc_w unsupported : Operation
  imm : ImmOp → Operation
  shift : ShiftOp → Operation
  reg : RegOp → Operation
  upper : UpperOp → Operation
  branch : BranchOp → Operation
  load : LoadOp → Operation
  store : StoreOp → Operation
  mul : MulOp → Operation
  xret : RetOp → Operation

abbrev pub is_undef : Operation → Bool
is_undef undef = true
is_undef _ = false

-- What the decoder makes of a word.
pub record Decoded : Type 0 where
  pub operation : Operation
  pub is_custom : Bool
  pub is_compressed : Bool
  pub instruction : Instruction

-- The instruction memory, the decoder, and the number of an operation.
pub record Frontend (M : Type 0) : Type 0 where
  pub pc_is_aligned : ℕ → Bool
  pub load_instr : ℕ → M → MemoryResult ℕ M
  pub decode : ℕ → Decoded
  pub opcode : Operation → ℕ

module _ {M : Type 0} (hw : Hardware M) (nice : Coprocessor) (build : Build) where
  -- The `switch` on `op`.
  unfoldable pub execute : Operation → Instruction → Action (Unit {0}) (Units M)
  execute undef i = throw (illegal hw i)
  execute custom3 i = exec_custom3 hw nice build i
  execute jal i = exec_jal hw build i
  execute jalr i = exec_jalr hw build i
  execute fence i = pure tt
  execute fence_i i = pure tt
  execute ecall i = exec_ecall hw build i
  execute ebreak i = exec_ebreak hw build i
  execute lr_w i = exec_lr_w hw build i
  execute sc_w i = exec_sc_w hw build i
  execute unsupported i = throw (illegal hw i)
  execute (imm op) i = exec_imm hw build i op
  execute (shift op) i = exec_shift hw build i op
  execute (reg op) i = exec_reg hw build i op
  execute (upper op) i = exec_upper hw build i op
  execute (branch op) i = exec_branch hw build i op
  execute (load op) i = exec_load hw build i op
  execute (store op) i = exec_store hw build i op
  execute (mul op) i = exec_mul hw build i op
  execute (xret op) i = exec_xret hw build i op

  module _ (front : Frontend M) where
    abbrev pub set_op : Operation → Action (Unit {0}) (Units M)
    set_op op = modify λ c. record c { op = front.opcode op }

    -- The instruction at `pc`; where the memory traps, `op` is undefined.
    unfoldable pub fetch : Action ℕ (Units M)
    fetch c = elim (front.load_instr c.hart.pc c.units.memory) [
      | value w m ↦ returned w (with_memory c m)
      | fault e m ↦ thrown e (record (with_memory c m) { op = front.opcode undef })
    ]

    abbrev compressed : Decoded → Bool
    compressed d = not d.is_custom && d.is_compressed

    -- The length of the instruction, and the check for the extension C.
    unfoldable pub advance_pc : Decoded → Action (Unit {0}) (Units M)
    advance_pc d = do
      pc ← gets λ c. c.hart.pc
      set_op d.operation
      set_pc (u32 (pc + (if compressed d then 2 else 4)))
      (if compressed d && not (is_undef d.operation)
          then require_isa hw c_isa_ext d.instruction
          else pure tt)

    unfoldable pub run_instruction : Action (Unit {0}) (Units M)
    unfolding fetch advance_pc execute
    run_instruction = do
      w ← fetch
      let d = front.decode w
      advance_pc d
      execute d.operation d.instruction

    unfoldable pub exec_step : Core (Units M) → Outcome (Units M)
    unfolding run_instruction
    exec_step c =
        if front.pc_is_aligned c.hart.pc
        then elim (run_instruction c) [
          | returned _ d ↦ done d
          | thrown e d ↦ raised e d
          | stopped ↦ aborted
        ]
        else aborted
