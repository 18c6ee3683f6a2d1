-- ===== src/Iss/Float/Invariant.antt =====
-- The exceptions of SoftFloat between the floating-point instructions of RISCV-VP/iss.cpp.
use vcil.Prelude.{◌≡◌, arith}
use vcil.Iss.Step.{Core}
use vcil.Iss.Exec.{Instruction, Result, returned, thrown, stopped}
use vcil.Iss.Float.{
  FloatUnits, FloatOp, binary, sqrt, pick, fused, to_int, from_int, sign, move_to_float,
  move_to_int, narrow, widen, compare, classify, load, store, Softfloat, FloatHeaders, rounded,
}
use vcil.Iss.Float.Instr.{
  execute, exec_arith, exec_sqrt, exec_pick, exec_fused, exec_to_int, exec_from_int, exec_sign,
  exec_move_to_float, exec_move_to_int, exec_narrow, exec_widen, exec_compare, exec_classify,
  exec_load, exec_store,
}

-- No exception is left over.
abbrev pub IsClear : {M : Type 0} → Core (FloatUnits M) → Type 0
IsClear c = c.units.exception_flags ≡ 0

-- A result without a failed assertion and with no exception left over.
abbrev pub ResultIsClear : {M A : Type 0} → Result A (FloatUnits M) → Type 0
ResultIsClear (returned a c) = IsClear c
ResultIsClear (thrown e c) = IsClear c
ResultIsClear stopped = ⊥

module _ {M : Type 0} (soft : Softfloat) (hd : FloatHeaders M) (i : Instruction) where
  -- A floating-point instruction that starts with no exception left over, as `fp_prepare_instr`
  -- asserts, fails no assertion and ends with none left over, whether it returns or traps, whatever
  -- SoftFloat computes and raises: no instruction makes the assertion of the next one fail.
  pub execute-IsClear :
      (op : FloatOp) (c : Core (FloatUnits M)) → IsClear c → ResultIsClear (execute soft hd i op c)
  unfolding execute rounded exec_arith exec_sqrt exec_pick exec_fused exec_to_int exec_from_int
      exec_sign exec_move_to_float exec_move_to_int exec_narrow exec_widen exec_compare
      exec_classify exec_load exec_store
  execute-IsClear (binary w op) c h = ground arith
  execute-IsClear (sqrt w) c h = ground arith
  execute-IsClear (pick w max) c h = ground arith
  execute-IsClear (fused w op) c h = ground arith
  execute-IsClear (to_int w signed) c h = ground arith
  execute-IsClear (from_int w signed) c h = ground arith
  execute-IsClear (sign w op) c h = ground arith
  execute-IsClear move_to_float c h = ground arith
  execute-IsClear move_to_int c h = ground arith
  execute-IsClear narrow c h = ground arith
  execute-IsClear widen c h = ground arith
  execute-IsClear (compare w op) c h = ground arith
  execute-IsClear (classify w) c h = ground arith
  execute-IsClear (load w) c h = ground arith
  execute-IsClear (store w) c h = ground arith
