-- ===== src/Iss/Float/Examples.antt =====
-- Floating-point instructions over an arithmetic that gives its first operand and raises the flag
-- for an inexact result.
use vcil.Prelude.{ℕ, ◌+◌, ◌*◌, ◌^◌, ◌≡◌, refl, true, false, none, [], ◌∷◌, ◌==◌, arith}
use vcil.Timing.Pipeline.Examples.{busy}
use vcil.Firmware.Arrays.{Array, array, zeros, put}
use vcil.Iss.Examples.{user_hart}
use vcil.Iss.Step.{Core, runnable}
use vcil.Iss.Exec.{Instruction, value}
use vcil.Iss.Float.{
  FloatUnits, single, fsgnjn, fadd, binary, pick, load, Softfloat, FloatHeaders, sign_place,
  sign_value,
}
use vcil.Iss.Float.Instr.{execute, exec_load}
use vcil.Iss.Float.Invariant.{ResultIsClear, execute-IsClear}
use vcil.Iss.Float.Sign.{magnitude, sign_bit, given_sign, sign_value_lem}
use vcil.Iss.Float.Guards.{illegal_instruction, execute-off, execute-dirty}

abbrev inexact : ℕ
inexact = 1

abbrev soft : Softfloat
soft = record {
  binary = λ w op rm a b. (a, inexact);
  sqrt = λ w rm a. (a, inexact);
  mul_add = λ w rm a b c. (a, inexact);
  compare = λ w op a b. (a == b, 0);
  lt_quiet = λ w a b. (false, 0);
  is_nan = λ w a. false;
  is_negative = λ w a. false;
  default_nan = λ w. 0x7fc00000;
  neg = λ w a. a;
  classify = λ w a. 1;
  to_int = λ w signed rm a. (a, 0);
  from_int = λ w signed rm a. (a, 0);
  narrow = λ rm a. (a, inexact);
  widen = λ a. (a, 0);
}

abbrev headers : FloatHeaders Array
headers = record {
  supports = λ w. true;
  box = λ w v. v;
  unbox = λ w v. v;
  u32_of = λ v. v;
  fs_off = 0;
  fs_dirty = 3;
  frm_dyn = 7;
  frm_rmm = 4;
  exc_illegal_instr = 2;
  check_alignment = λ w is_load addr. none;
  load = λ w addr m. value (m addr) m;
  store = λ w addr v m. value tt (put m addr v);
}

-- `fd = f(rs1) + f(rs2)`, with the rounding mode of `fcsr`.
abbrev instruction : Instruction
instruction = record {
  rd = 5;
  rs1 = 3;
  rs2 = 2;
  rs3 = 1;
  i_imm = 8;
  s_imm = 8;
  b_imm = 0;
  u_imm = 0;
  j_imm = 0;
  shamt = 0;
  funct3 = 7;
  funct7 = 0;
  frm = 7;
  word = 0x53;
}

-- By the fields `fs` and `frm`.
abbrev core : ℕ → ℕ → Core (FloatUnits Array)
core fs frm = record {
  hart = user_hart;
  regs = array (0 ∷ 0 ∷ 4 ∷ 16 ∷ []);
  op = 0;
  status = runnable;
  shall_exit = false;
  debug_mode = false;
  breakpoints = λ a. false;
  total_num_instr = 0;
  instret = 0;
  inhibit_ir = false;
  inhibit_cy = false;
  cycle_counter = 0;
  pipeline = busy;
  last_cycles = 100;
  local_time = 0;
  units = record {
    fp_regs = array (0 ∷ 0x3f800000 ∷ 0x40000000 ∷ 0xc0400000 ∷ []);
    fs = fs;
    sd = false;
    fflags = 0;
    frm = frm;
    exception_flags = 0;
    rounding_mode = 0;
    memory = zeros;
  };
}

execute-IsClear_example :
    ResultIsClear (execute soft headers instruction (binary single fadd) (core 1 0))
execute-IsClear_example =
    execute-IsClear soft headers instruction (binary single fadd) (core 1 0) refl

execute-off_example :
    execute soft headers instruction (pick single true) (core 0 0)
    ≡ illegal_instruction soft headers instruction (core 0 0)
execute-off_example =
    execute-off soft headers instruction (core 0 0) (pick single true) refl refl refl

-- A load with the unit switched off.
abbrev loaded : Core (FloatUnits Array)
loaded = record (core 0 0) {
  units = record ((core 0 0).units) { fp_regs = put (core 0 0).units.fp_regs 5 0 };
}

execute-dirty_example : loaded.units.fs ≡ (core 0 0).units.fs
unfolding execute exec_load
execute-dirty_example =
    execute-dirty soft headers instruction (core 0 0) (load single) loaded refl refl

sign_value_lem_example :
    sign_value single fsgnjn 0x3f800000 0x40000000
    ≡ given_sign fsgnjn (sign_bit single 0x3f800000) (sign_bit single 0x40000000)
        * 2 ^ sign_place single
      + magnitude single 0x3f800000
sign_value_lem_example =
    sign_value_lem single fsgnjn 0x3f800000 0x40000000 (omega arith) (omega arith)
