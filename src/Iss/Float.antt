-- ===== src/Iss/Float.antt =====
-- The floating-point instructions of `exec_step` in RISCV-VP/iss.cpp, RV32F and RV32D, and the
-- functions `fp_*` that they share. The arithmetic is SoftFloat's, and the registers' format that of
-- a header: both are parameters. `Instr` holds the instructions. A call of SoftFloat gives a value and the exceptions that it raises,
-- which it adds to `softfloat_exceptionFlags`.
pub mod Instr
pub mod Sign
pub mod Invariant
pub mod Guards
pub mod Examples
use vcil.Prelude.{
  ℕ, ◌+◌, ◌-◌, ◌^◌, Bool, true, false, not, ◌&&◌, ◌||◌, Option, none, some, leb, ◌==◌,
  if◌then◌else◌, bit_and, bit_or, bit_xor, u32,
}
use vcil.Firmware.Arrays.{Array, put}
use vcil.Iss.{SimulationTrap}
use vcil.Iss.Step.{Core}
use vcil.Iss.Exec.{
  Instruction, Action, MemoryResult, value, fault, returned, thrown, pure, ◌>>=◌, ◌>>◌, gets,
  modify, throw, check, or_stop, set_reg,
}
use vcil.Timing.Assert.{assert}

-- The members of `ISS` for floating point, the fields `fs` and `sd` of `mstatus`, the register
-- `fcsr`, the two variables of SoftFloat, and the memory.
pub record FloatUnits (M : Type 0) : Type 0 where
  pub fp_regs : Array
  pub fs : ℕ
  pub sd : Bool
  pub fflags : ℕ
  pub frm : ℕ
  pub exception_flags : ℕ
  pub rounding_mode : ℕ
  pub memory : M

pub data Width : Type 0 where
  single double : Width

pub data ArithOp : Type 0 where
  fadd fsub fmul fdiv : ArithOp

pub data FusedOp : Type 0 where
  fmadd fmsub fnmadd fnmsub : FusedOp

pub data SignOp : Type 0 where
  fsgnj fsgnjn fsgnjx : SignOp

pub data CompareOp : Type 0 where
  feq flt fle : CompareOp

-- `fmin` and `fmax` are `pick` with false and true; `to_int` and `from_int` have a flag for a signed
-- integer; `narrow` is FCVT.S.D and `widen` FCVT.D.S.
pub data FloatOp : Type 0 where
  binary : Width → ArithOp → FloatOp
  sqrt : Width → FloatOp
  pick : Width → Bool → FloatOp
  fused : Width → FusedOp → FloatOp
  to_int from_int : Width → Bool → FloatOp
  sign : Width → SignOp → FloatOp
  move_to_float move_to_int narrow widen : FloatOp
  compare : Width → CompareOp → FloatOp
  classify : Width → FloatOp
  load store : Width → FloatOp

-- SoftFloat: rounding mode first, where it depends on one. A result comes with its exceptions.
pub record Softfloat : Type 0 where
  pub binary : Width → ArithOp → ℕ → ℕ → ℕ → ℕ × ℕ
  pub sqrt : Width → ℕ → ℕ → ℕ × ℕ
  pub mul_add : Width → ℕ → ℕ → ℕ → ℕ → ℕ × ℕ
  pub compare : Width → CompareOp → ℕ → ℕ → Bool × ℕ
  pub lt_quiet : Width → ℕ → ℕ → Bool × ℕ
  pub is_nan : Width → ℕ → Bool
  pub is_negative : Width → ℕ → Bool
  pub default_nan : Width → ℕ
  pub neg : Width → ℕ → ℕ
  pub classify : Width → ℕ → ℕ
  pub to_int : Width → Bool → ℕ → ℕ → ℕ × ℕ
  pub from_int : Width → Bool → ℕ → ℕ → ℕ × ℕ
  pub narrow : ℕ → ℕ → ℕ × ℕ
  pub widen : ℕ → ℕ × ℕ

-- What the headers give: the extensions, the format of the registers, constants and the memory.
pub record FloatHeaders (M : Type 0) : Type 0 where
  pub supports : Width → Bool
  pub box : Width → ℕ → ℕ
  pub unbox : Width → ℕ → ℕ
  pub u32_of : ℕ → ℕ
  pub fs_off : ℕ
  pub fs_dirty : ℕ
  pub frm_dyn : ℕ
  pub frm_rmm : ℕ
  pub exc_illegal_instr : ℕ
  pub check_alignment : Width → Bool → ℕ → Option SimulationTrap
  pub load : Width → ℕ → M → MemoryResult ℕ M
  pub store : Width → ℕ → ℕ → M → MemoryResult (Unit {0}) M

-- `F32_SIGN_BIT` and `F64_SIGN_BIT`, and the places below.
abbrev pub sign_place : Width → ℕ
sign_place single = 31
sign_place double = 63

-- The values of FSGNJ, FSGNJN and FSGNJX.
unfoldable pub sign_value : Width → SignOp → ℕ → ℕ → ℕ
sign_value w op a b =
    let bit = 2 ^ sign_place w in
    let all = 2 ^ (sign_place w + 1) - 1 in
    elim op [
      | fsgnj ↦ bit_or (bit_and a (all - bit)) (bit_and b bit)
      | fsgnjn ↦ bit_or (bit_and a (all - bit)) (bit_and (all - b) bit)
      | fsgnjx ↦ bit_xor a (bit_and b bit)
    ]

abbrev pub Run : Type 0 → Type 0
Run M = Action (Unit {0}) (FloatUnits M)

module _ {M : Type 0} (hd : FloatHeaders M) (i : Instruction) where
  abbrev pub update : (FloatUnits M → FloatUnits M) → Run M
  update f = modify λ c. record c { units = f c.units }

  abbrev pub raise_illegal : Run M
  raise_illegal = throw (record { reason = hd.exc_illegal_instr; mtval = i.word })

  abbrev pub require_isa : Width → Run M
  require_isa w = if hd.supports w then pure tt else raise_illegal

  unfoldable pub fp_set_dirty : Run M
  fp_set_dirty = update λ u. record u { sd = true; fs = hd.fs_dirty }

  unfoldable pub fp_update_exception_flags : Run M
  unfolding fp_set_dirty
  fp_update_exception_flags = do
    flags ← gets λ c. c.units.exception_flags
    (if flags == 0
        then pure tt
        else fp_set_dirty
          >> update λ u. record u { fflags = bit_or u.fflags flags; exception_flags = 0 })

  unfoldable pub fp_finish_instr : Run M
  unfolding fp_set_dirty fp_update_exception_flags
  fp_finish_instr = do fp_set_dirty; fp_update_exception_flags

  unfoldable pub fp_require_not_off : Run M
  fp_require_not_off = do
    fs ← gets λ c. c.units.fs
    (if fs == hd.fs_off then raise_illegal else pure tt)

  unfoldable pub fp_prepare_instr : Run M
  unfolding fp_require_not_off
  fp_prepare_instr = do
    flags ← gets λ c. c.units.exception_flags
    or_stop (assert (flags == 0))
    fp_require_not_off

  unfoldable pub fp_setup_rm : Run M
  fp_setup_rm = do
    dynamic ← gets λ c. c.units.frm
    let rm = if i.frm == hd.frm_dyn then dynamic else i.frm
    (if leb hd.frm_rmm rm then raise_illegal else update λ u. record u { rounding_mode = rm })

  -- A call of SoftFloat.
  unfoldable pub softfloat : {A : Type 0} → A × ℕ → Action A (FloatUnits M)
  softfloat (v, flags) = do
    update λ u. record u { exception_flags = bit_or u.exception_flags flags }
    pure v

  abbrev pub fp_read : Width → ℕ → Action ℕ (FloatUnits M)
  fp_read w r = gets λ c. hd.unbox w (c.units.fp_regs r)

  abbrev pub fp_write : Width → ℕ → Run M
  fp_write w v = update λ u. record u { fp_regs = put u.fp_regs i.rd (hd.box w v) }

  abbrev pub rounding : Action ℕ (FloatUnits M)
  rounding = gets λ c. c.units.rounding_mode

  -- The frame of the instructions that round.
  unfoldable pub rounded : Width → Action ℕ (FloatUnits M) → (ℕ → Run M) → Run M
  unfolding fp_prepare_instr fp_setup_rm fp_finish_instr
  rounded w compute put_result = do
    require_isa w
    fp_prepare_instr
    fp_setup_rm
    v ← compute
    put_result v
    fp_finish_instr
