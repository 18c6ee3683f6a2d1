-- ===== src/Iss/Float/Guards.antt =====
-- When the floating-point instructions of RISCV-VP/iss.cpp trap, and what they do to `mstatus.fs`.
use vcil.Prelude.{ℕ, ◌≡◌, Bool, true, false, leb, ◌==◌, if◌then◌else◌, arith}
use vcil.Iss.Step.{Core}
use vcil.Iss.Exec.{Instruction, Result, returned, thrown}
use vcil.Iss.Float.{
  FloatUnits, FloatOp, binary, sqrt, pick, fused, to_int, from_int, sign, move_to_float,
  move_to_int, narrow, widen, compare, classify, load, store, Softfloat, FloatHeaders, rounded,
}
use vcil.Iss.Float.Instr.{
  execute, exec_arith, exec_sqrt, exec_pick, exec_fused, exec_to_int, exec_from_int, exec_sign,
  exec_move_to_float, exec_move_to_int, exec_narrow, exec_widen, exec_compare, exec_classify,
  exec_load,
}
use vcil.Iss.Float.Invariant.{IsClear}

-- The instructions that access memory.
abbrev pub is_memory : FloatOp → Bool
is_memory (load w) = true
is_memory (store w) = true
is_memory _ = false

-- The instructions that round.
abbrev pub rounds : FloatOp → Bool
rounds (binary w op) = true
rounds (sqrt w) = true
rounds (fused w op) = true
rounds (to_int w signed) = true
rounds (from_int w signed) = true
rounds narrow = true
rounds widen = true
rounds _ = false

-- The instructions that write a floating-point register.
abbrev pub writes_float : FloatOp → Bool
writes_float (to_int w signed) = false
writes_float move_to_int = false
writes_float (compare w op) = false
writes_float (classify w) = false
writes_float (store w) = false
writes_float _ = true

module _ {M : Type 0} (soft : Softfloat) (hd : FloatHeaders M) (i : Instruction)
    (c : Core (FloatUnits M)) where
  abbrev pub illegal_instruction : Result (Unit {0}) (FloatUnits M)
  illegal_instruction = thrown (record { reason = hd.exc_illegal_instr; mtval = i.word }) c

  -- The rounding mode that the instruction asks for.
  abbrev pub asked_mode : ℕ
  asked_mode = if i.frm == hd.frm_dyn then c.units.frm else i.frm

  -- With the unit switched off every instruction but a load or a store traps as illegal and changes
  -- nothing.
  pub execute-off :
      (op : FloatOp)
      → is_memory op ≡ false
      → IsClear c
      → c.units.fs ≡ hd.fs_off
      → execute soft hd i op c ≡ illegal_instruction
  unfolding execute rounded exec_arith exec_sqrt exec_pick exec_fused exec_to_int exec_from_int
      exec_sign exec_move_to_float exec_move_to_int exec_narrow exec_widen exec_compare
      exec_classify
  execute-off (binary w op) g h off = ground arith
  execute-off (sqrt w) g h off = ground arith
  execute-off (pick w max) g h off = ground arith
  execute-off (fused w op) g h off = ground arith
  execute-off (to_int w signed) g h off = ground arith
  execute-off (from_int w signed) g h off = ground arith
  execute-off (sign w op) g h off = ground arith
  execute-off move_to_float g h off = ground arith
  execute-off move_to_int g h off = ground arith
  execute-off narrow g h off = ground arith
  execute-off widen g h off = ground arith
  execute-off (compare w op) g h off = ground arith
  execute-off (classify w) g h off = ground arith
  execute-off (load w) g h off = cc
  execute-off (store w) g h off = cc

  -- An instruction that rounds traps as illegal and changes nothing if the mode that it asks for, its
  -- own or the one of `fcsr`, is `FRM_RMM` or above.
  pub execute-reserved_mode :
      (op : FloatOp)
      → rounds op ≡ true
      → IsClear c
      → leb hd.frm_rmm asked_mode ≡ true
      → execute soft hd i op c ≡ illegal_instruction
  unfolding execute rounded exec_arith exec_sqrt exec_fused exec_to_int exec_from_int exec_narrow
      exec_widen
  execute-reserved_mode (binary w op) g h m = ground arith
  execute-reserved_mode (sqrt w) g h m = ground arith
  execute-reserved_mode (fused w op) g h m = ground arith
  execute-reserved_mode (to_int w signed) g h m = ground arith
  execute-reserved_mode (from_int w signed) g h m = ground arith
  execute-reserved_mode narrow g h m = ground arith
  execute-reserved_mode widen g h m = ground arith
  execute-reserved_mode (pick w max) g h m = cc
  execute-reserved_mode (sign w op) g h m = cc
  execute-reserved_mode move_to_float g h m = cc
  execute-reserved_mode move_to_int g h m = cc
  execute-reserved_mode (compare w op) g h m = cc
  execute-reserved_mode (classify w) g h m = cc
  execute-reserved_mode (load w) g h m = cc
  execute-reserved_mode (store w) g h m = cc

  -- An instruction that returns and writes a floating-point register marks the unit as dirty, except
  -- for a load, which leaves the mark as it was, also when the unit is switched off.
  pub execute-dirty :
      (op : FloatOp) (d : Core (FloatUnits M))
      → writes_float op ≡ true
      → execute soft hd i op c ≡ returned tt d
      → d.units.fs ≡ (if is_memory op then c.units.fs else hd.fs_dirty)
  unfolding execute rounded exec_arith exec_sqrt exec_pick exec_fused exec_from_int exec_sign
      exec_move_to_float exec_narrow exec_widen exec_load
  execute-dirty (binary w op) d g e = ground arith
  execute-dirty (sqrt w) d g e = ground arith
  execute-dirty (pick w max) d g e = ground arith
  execute-dirty (fused w op) d g e = ground arith
  execute-dirty (from_int w signed) d g e = ground arith
  execute-dirty (sign w op) d g e = ground arith
  execute-dirty move_to_float d g e = ground arith
  execute-dirty narrow d g e = ground arith
  execute-dirty widen d g e = ground arith
  execute-dirty (load w) d g e = ground arith
  execute-dirty (to_int w signed) d g e = cc
  execute-dirty move_to_int d g e = cc
  execute-dirty (compare w op) d g e = cc
  execute-dirty (classify w) d g e = cc
  execute-dirty (store w) d g e = cc
