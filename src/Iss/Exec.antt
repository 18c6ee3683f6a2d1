-- ===== src/Iss/Exec.antt =====
-- The execution of an instruction, `exec_step` of RISCV-VP/iss.cpp: what an instruction reads and
-- writes, and the actions of which the instructions are made. An action runs on the core; it
-- returns, throws a `SimulationTrap`, which leaves the changes made before it, or stops at a failed
-- assertion. What iss.h and the headers of the memory declare is `Hardware`: the registers are read
-- and written as `regs` is, with a timing that is a parameter.
pub mod Alu
pub mod Branch
pub mod Amo
pub mod Order
pub mod Instr
pub mod Faults
pub mod Custom
pub mod Step
pub mod Builds
pub mod Progress
pub mod Machine
pub mod Examples
use vcil.Prelude.{ℕ, ◌+◌, ◌==◌, Bool, true, false, Option, none, some, if◌then◌else◌}
use vcil.Timing.Pipeline.{Pipeline}
use vcil.Timing.Predictor.{BranchPredictor}
use vcil.Firmware.Arrays.{put}
use vcil.Nice.Link.{Nice}
use vcil.Iss.{PrivilegeLevel, SimulationTrap}
use vcil.Iss.Step.{Core}

-- The macros that choose what is built.
pub record Build : Type 0 where
  pub pipeline_timing : Bool
  pub branch_timing : Bool

abbrev pub plain_build : Build
plain_build = record { pipeline_timing = false; branch_timing = false }

-- The fields of an instruction; an immediate is the word of its `int32_t`.
pub record Instruction : Type 0 where
  pub rd : ℕ
  pub rs1 : ℕ
  pub rs2 : ℕ
  pub rs3 : ℕ
  pub i_imm : ℕ
  pub s_imm : ℕ
  pub b_imm : ℕ
  pub u_imm : ℕ
  pub j_imm : ℕ
  pub shamt : ℕ
  pub funct3 : ℕ
  pub funct7 : ℕ
  pub frm : ℕ
  pub word : ℕ

-- The members of `ISS` that only the instructions use.
pub record Units (M : Type 0) : Type 0 where
  pub branch_predictor : BranchPredictor
  pub sm3_nice : Nice
  pub sm4_nice : Nice
  pub memory : M

pub data Result (A X : Type 0) : Type 0 where
  returned : A → Core X → Result A X
  thrown : SimulationTrap → Core X → Result A X
  stopped : Result A X

abbrev pub Action : Type 0 → Type 0 → Type 0
Action A X = Core X → Result A X

-- What a call of the memory does.
pub data MemoryResult (A M : Type 0) : Type 0 where
  value : A → M → MemoryResult A M
  fault : SimulationTrap → M → MemoryResult A M

module _ {X : Type 0} where
  abbrev pub pure : {A : Type 0} → A → Action A X
  pure a c = returned a c

  infixl 5 ◌>>=◌ ◌>>◌
  abbrev pub ◌>>=◌ : {A B : Type 0} → Action A X → (A → Action B X) → Action B X
  ◌>>=◌ m f c = elim (m c) [ returned a d ↦ f a d | thrown e d ↦ thrown e d | stopped ↦ stopped ]

  abbrev pub ◌>>◌ : {B : Type 0} → Action (Unit {0}) X → Action B X → Action B X
  m >> k = m >>= λ _. k

  abbrev pub gets : {A : Type 0} → (Core X → A) → Action A X
  gets f c = returned (f c) c

  abbrev pub modify : (Core X → Core X) → Action (Unit {0}) X
  modify f c = returned tt (f c)

  abbrev pub throw : {A : Type 0} → SimulationTrap → Action A X
  throw e c = thrown e c

  -- The check functions of iss.h, which raise a trap or return.
  abbrev pub check : Option SimulationTrap → Action (Unit {0}) X
  check none = pure tt
  check (some e) = throw e

  abbrev pub or_stop : {A : Type 0} → Option A → Action A X
  or_stop o c = elim o [ none ↦ stopped | some a ↦ returned a c ]

  abbrev pub on_pipeline : (Pipeline → Option Pipeline) → Action (Unit {0}) X
  on_pipeline f c = elim (f c.pipeline) [
    | none ↦ stopped
    | some p ↦ returned tt (record c { pipeline = p })
  ]

  -- A call on the pipeline, in a build that has it.
  abbrev pub timed : Bool → (Pipeline → Option Pipeline) → Action (Unit {0}) X
  timed false f = pure tt
  timed true f = on_pipeline f

  abbrev pub set_reg : ℕ → ℕ → Action (Unit {0}) X
  set_reg rd v = modify λ c. record c { regs = put c.regs rd v }

  abbrev pub set_pc : ℕ → Action (Unit {0}) X
  set_pc pc = modify λ c. record c { hart = record (c.hart) { pc = pc } }

  abbrev pub set_lr_sc_counter : ℕ → Action (Unit {0}) X
  set_lr_sc_counter n = modify λ c. record c { hart = record (c.hart) { lr_sc_counter = n } }

module _ {M : Type 0} where
  abbrev pub with_memory : Core (Units M) → M → Core (Units M)
  with_memory c m = record c { units = record (c.units) { memory = m } }

  abbrev pub call_memory : {A : Type 0} → (M → MemoryResult A M) → Action A (Units M)
  call_memory f c = elim (f c.units.memory) [
    | value a m ↦ returned a (with_memory c m)
    | fault e m ↦ thrown e (with_memory c m)
  ]

  -- A call on the branch predictor, which stalls the pipeline of the core.
  abbrev pub on_predictor :
      (BranchPredictor → Pipeline → Option (BranchPredictor × Pipeline))
      → Action (Unit {0}) (Units M)
  on_predictor f c = elim (f c.units.branch_predictor c.pipeline) [
    | none ↦ stopped
    | some (b, p) ↦
        returned tt (record c { pipeline = p; units = record (c.units) { branch_predictor = b } })
  ]

  -- A call on the branch predictor, in a build that has it.
  abbrev pub predicted :
      Bool
      → (BranchPredictor → Pipeline → Option (BranchPredictor × Pipeline))
      → Action (Unit {0}) (Units M)
  predicted false f = pure tt
  predicted true f = on_predictor f

-- The extensions that `REQUIRE_ISA` asks for.
pub data IsaExtension : Type 0 where
  m_isa_ext a_isa_ext c_isa_ext f_isa_ext d_isa_ext : IsaExtension

-- The accesses to memory, by their instruction.
pub data LoadOp : Type 0 where
  lb lh lw lbu lhu : LoadOp

pub data StoreOp : Type 0 where
  sb sh sw : StoreOp

-- What the instructions use of headers outside the repository.
pub record Hardware (M : Type 0) : Type 0 where
  -- The timing of `read`, `u_read` and `shamt`, and of `write`.
  pub read_access : ℕ → Pipeline → Option Pipeline
  pub write_access : ℕ → Pipeline → Option Pipeline
  pub trap_check_pc_alignment : ℕ → Option SimulationTrap
  -- The width, whether it is a load, and the address.
  pub trap_check_addr_alignment : ℕ → Bool → ℕ → Option SimulationTrap
  pub load : LoadOp → ℕ → M → MemoryResult ℕ M
  pub store : StoreOp → ℕ → ℕ → M → MemoryResult (Unit {0}) M
  pub atomic_load_reserved_word : ℕ → M → MemoryResult ℕ M
  pub atomic_store_conditional_word : ℕ → ℕ → M → MemoryResult Bool M
  pub supports : IsaExtension → Bool
  pub exc_illegal_instr : ℕ
  pub exc_ecall : PrivilegeLevel → ℕ

abbrev pub illegal : {M : Type 0} → Hardware M → Instruction → SimulationTrap
illegal hw i = record { reason = hw.exc_illegal_instr; mtval = i.word }

module _ {M : Type 0} (hw : Hardware M) (build : Build) where
  -- `read` and `u_read`; without `PIPELINE_TIMING`, `regs[index]`.
  pub read : ℕ → Action ℕ (Units M)
  read index = timed build.pipeline_timing (hw.read_access index) >> gets λ c. c.regs index

  -- `write`; without `PIPELINE_TIMING`, the assignment to `regs[index]`.
  pub write : ℕ → ℕ → Action (Unit {0}) (Units M)
  write index v = timed build.pipeline_timing (hw.write_access index) >> set_reg index v

module _ {M : Type 0} (hw : Hardware M) where
  -- `REQUIRE_ISA`.
  pub require_isa : IsaExtension → Instruction → Action (Unit {0}) (Units M)
  require_isa x i = check (if hw.supports x then none else some (illegal hw i))
