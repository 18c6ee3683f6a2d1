-- ===== src/Iss/Float/Instr.antt =====
-- The floating-point instructions of `exec_step` in RISCV-VP/iss.cpp, one by one, and the dispatch.
use vcil.Prelude.{ℕ, ◌+◌, Bool, true, false, ◌&&◌, if◌then◌else◌, u32}
use vcil.Iss.Exec.{
  Instruction, Action, MemoryResult, value, fault, returned, thrown, pure, ◌>>=◌, ◌>>◌, gets, check,
  set_reg,
}
use vcil.Iss.Float.{
  FloatUnits, Width, single, double, ArithOp, FusedOp, fmadd, fmsub, fnmadd, fnmsub, SignOp,
  CompareOp, feq, FloatOp, binary, sqrt, pick, fused, to_int, from_int, sign, move_to_float,
  move_to_int, narrow, widen, compare, classify, load, store, Softfloat, FloatHeaders, sign_value,
  Run, require_isa, fp_set_dirty, fp_update_exception_flags, fp_finish_instr, fp_prepare_instr,
  softfloat, fp_read, fp_write, rounding, rounded,
}

module _ {M : Type 0} (soft : Softfloat) (hd : FloatHeaders M) (i : Instruction) where
  unfoldable pub exec_arith : Width → ArithOp → Run M
  unfolding rounded softfloat
  exec_arith w op =
      rounded hd i w
        (do
          a ← fp_read hd i w i.rs1
          b ← fp_read hd i w i.rs2
          rm ← rounding hd i
          softfloat hd i (soft.binary w op rm a b))
        (fp_write hd i w)

  unfoldable pub exec_sqrt : Width → Run M
  unfolding rounded softfloat
  exec_sqrt w =
      rounded hd i w
        (do a ← fp_read hd i w i.rs1; rm ← rounding hd i; softfloat hd i (soft.sqrt w rm a))
        (fp_write hd i w)

  -- The operands of `mulAdd`.
  abbrev pub fused_call : Width → FusedOp → ℕ → ℕ → ℕ → ℕ → ℕ × ℕ
  fused_call w fmadd rm a b c = soft.mul_add w rm a b c
  fused_call w fmsub rm a b c = soft.mul_add w rm a b (soft.neg w c)
  fused_call w fnmadd rm a b c = soft.mul_add w rm (soft.neg w a) b (soft.neg w c)
  fused_call w fnmsub rm a b c = soft.mul_add w rm (soft.neg w a) b c

  unfoldable pub exec_fused : Width → FusedOp → Run M
  unfolding rounded softfloat
  exec_fused w op =
      rounded hd i w
        (do
          a ← fp_read hd i w i.rs1
          b ← fp_read hd i w i.rs2
          c ← fp_read hd i w i.rs3
          rm ← rounding hd i
          softfloat hd i (fused_call w op rm a b c))
        (fp_write hd i w)

  unfoldable pub exec_to_int : Width → Bool → Run M
  unfolding rounded softfloat
  exec_to_int w signed =
      rounded hd i w
        (do
          a ← fp_read hd i w i.rs1
          rm ← rounding hd i
          softfloat hd i (soft.to_int w signed rm a))
        (set_reg i.rd)

  unfoldable pub exec_from_int : Width → Bool → Run M
  unfolding rounded softfloat
  exec_from_int w signed =
      rounded hd i w
        (do
          a ← gets λ c. c.regs i.rs1
          rm ← rounding hd i
          softfloat hd i (soft.from_int w signed rm a))
        (fp_write hd i w)

  unfoldable pub exec_narrow : Run M
  unfolding rounded softfloat
  exec_narrow =
      rounded hd i double
        (do a ← fp_read hd i double i.rs1; rm ← rounding hd i; softfloat hd i (soft.narrow rm a))
        (fp_write hd i single)

  unfoldable pub exec_widen : Run M
  unfolding rounded softfloat
  exec_widen =
      rounded hd i double (do a ← fp_read hd i single i.rs1; softfloat hd i (soft.widen a))
        (fp_write hd i double)

  -- `x < y || (x == y && isNegative(x))`; the second comparison is not made where the first holds.
  unfoldable pub comes_first : Width → ℕ → ℕ → Action Bool (FloatUnits M)
  unfolding softfloat
  comes_first w x y = do
    less ← softfloat hd i (soft.lt_quiet w x y)
    (if less then pure true else (do
      equal ← softfloat hd i (soft.compare w feq x y)
      pure (equal && soft.is_negative w x)))

  -- FMIN, and FMAX where `max` is true.
  unfoldable pub exec_pick : Width → Bool → Run M
  unfolding fp_prepare_instr comes_first fp_finish_instr
  exec_pick w max = do
    require_isa hd i w
    fp_prepare_instr hd i
    a ← fp_read hd i w i.rs1
    b ← fp_read hd i w i.rs2
    first ← (if max then comes_first w b a else comes_first w a b)
    fp_write hd i w
        (if soft.is_nan w a && soft.is_nan w b then soft.default_nan w else if first then a else b)
    fp_finish_instr hd i

  unfoldable pub exec_sign : Width → SignOp → Run M
  unfolding fp_prepare_instr sign_value fp_set_dirty
  exec_sign w op = do
    require_isa hd i w
    fp_prepare_instr hd i
    a ← fp_read hd i w i.rs1
    b ← fp_read hd i w i.rs2
    fp_write hd i w (sign_value w op a b)
    fp_set_dirty hd i

  unfoldable pub exec_move_to_float : Run M
  unfolding fp_prepare_instr fp_set_dirty
  exec_move_to_float = do
    require_isa hd i single
    fp_prepare_instr hd i
    a ← gets λ c. c.regs i.rs1
    fp_write hd i single a
    fp_set_dirty hd i

  unfoldable pub exec_move_to_int : Run M
  unfolding fp_prepare_instr
  exec_move_to_int = do
    require_isa hd i single
    fp_prepare_instr hd i
    a ← gets λ c. hd.u32_of (c.units.fp_regs i.rs1)
    set_reg i.rd a

  unfoldable pub exec_compare : Width → CompareOp → Run M
  unfolding fp_prepare_instr softfloat fp_update_exception_flags
  exec_compare w op = do
    require_isa hd i w
    fp_prepare_instr hd i
    a ← fp_read hd i w i.rs1
    b ← fp_read hd i w i.rs2
    holds ← softfloat hd i (soft.compare w op a b)
    set_reg i.rd (if holds then 1 else 0)
    fp_update_exception_flags hd i

  unfoldable pub exec_classify : Width → Run M
  unfolding fp_prepare_instr
  exec_classify w = do
    require_isa hd i w
    fp_prepare_instr hd i
    a ← fp_read hd i w i.rs1
    set_reg i.rd (soft.classify w a)

  abbrev pub call_memory : {A : Type 0} → (M → MemoryResult A M) → Action A (FloatUnits M)
  call_memory f c = elim (f c.units.memory) [
    | value a m ↦ returned a (record c { units = record (c.units) { memory = m } })
    | fault e m ↦ thrown e (record c { units = record (c.units) { memory = m } })
  ]

  -- FLW and FLD.
  unfoldable pub exec_load : Width → Run M
  exec_load w = do
    require_isa hd i w
    base ← gets λ c. c.regs i.rs1
    let addr = u32 (base + i.i_imm)
    check (hd.check_alignment w true addr)
    v ← call_memory (hd.load w addr)
    fp_write hd i w v

  -- `fp_regs.u32` and `fp_regs.f64`.
  abbrev pub stored_bits : Width → ℕ → ℕ
  stored_bits single raw = hd.u32_of raw
  stored_bits double raw = hd.unbox double raw

  -- FSW and FSD.
  unfoldable pub exec_store : Width → Run M
  exec_store w = do
    require_isa hd i w
    base ← gets λ c. c.regs i.rs1
    let addr = u32 (base + i.s_imm)
    check (hd.check_alignment w false addr)
    v ← gets λ c. stored_bits w (c.units.fp_regs i.rs2)
    call_memory (hd.store w addr v)

  unfoldable pub execute : FloatOp → Run M
  execute (binary w op) = exec_arith w op
  execute (sqrt w) = exec_sqrt w
  execute (pick w max) = exec_pick w max
  execute (fused w op) = exec_fused w op
  execute (to_int w signed) = exec_to_int w signed
  execute (from_int w signed) = exec_from_int w signed
  execute (sign w op) = exec_sign w op
  execute move_to_float = exec_move_to_float
  execute move_to_int = exec_move_to_int
  execute narrow = exec_narrow
  execute widen = exec_widen
  execute (compare w op) = exec_compare w op
  execute (classify w) = exec_classify w
  execute (load w) = exec_load w
  execute (store w) = exec_store w
