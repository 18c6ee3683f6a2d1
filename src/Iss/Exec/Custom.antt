-- ===== src/Iss/Exec/Custom.antt =====
-- The instructions CUSTOM3 of `exec_step` in RISCV-VP/iss.cpp, which call the coprocessor of
-- RISCV-VP/nice.h. Which of the instructions of SM4 there are is chosen by macros. `stopped` also
-- means that the device has not answered within the fuel.
pub mod Meaning
use vcil.Prelude.{ℕ, ◌+◌, Bool, true, false, ◌&&◌, Option, none, some, if◌then◌else◌, ◌==◌, u32}
use vcil.Prelude.Int.{pos, ◌-ℤ◌}
use vcil.Timing.Pipeline.{advance}
use vcil.Nice.Link.{Device, Nice, custom3_sm3p0, custom3_sm3p1, custom3_sm4ks, custom3_sm4ed}
use vcil.Nice.Cipher.{
  custom3_sm4ks_t, custom3_sm4ed_t, custom3_sm4ks_linear, custom3_sm4ed_linear,
  custom3_sm4ks_nonlinear, custom3_sm4ed_nonlinear,
}
use vcil.Iss.Step.{Core}
use vcil.Iss.Exec.{
  Build, Instruction, Units, Result, Action, pure, ◌>>=◌, ◌>>◌, or_stop, gets, modify, timed,
  Hardware, read, write,
}

-- The macros `sm4_nice_F`, `sm4_nice_T`, `sm4_nice_L` and `sm4_nice_l`, and the devices behind the
-- serial ports.
pub record Coprocessor : Type 0 where
  pub has_full : Bool
  pub has_t : Bool
  pub has_linear : Bool
  pub has_nonlinear : Bool
  pub sm3_device : Device
  pub sm4_device : Device
  pub fuel : ℕ

module _ {M : Type 0} (hw : Hardware M) (nice : Coprocessor) (build : Build) (i : Instruction) where
  abbrev Run : Type 0
  Run = Action (Unit {0}) (Units M)

  -- The result of the device, and the wait for the cycles that it reports.
  unfoldable pub finish_call : ℕ → ℕ → Run
  finish_call v cycles = do
    write hw build i.rd v
    timed build.pipeline_timing (advance (pos cycles -ℤ pos 1))

  -- The answer of a call on the member for SM3, or on the one for SM4.
  unfoldable pub answer_sm3 : Option (ℕ × Nice) → Run
  unfolding finish_call
  answer_sm3 o = do
    r ← or_stop o
    modify λ c. record c { units = record (c.units) { sm3_nice = r.1 } }
    finish_call r.0 r.1.cycles

  unfoldable pub answer_sm4 : Option (ℕ × Nice) → Run
  unfolding finish_call
  answer_sm4 o = do
    r ← or_stop o
    modify λ c. record c { units = record (c.units) { sm4_nice = r.1 } }
    finish_call r.0 r.1.cycles

  unfoldable pub exec_add : Run
  exec_add = do a ← read hw build i.rs1; b ← read hw build i.rs2; write hw build i.rd (u32 (a + b))

  unfoldable pub exec_sm3 : (Device → ℕ → ℕ → Nice → Option (ℕ × Nice)) → Run
  unfolding answer_sm3
  exec_sm3 f = do
    a ← read hw build i.rs1
    n ← gets λ c. c.units.sm3_nice
    answer_sm3 (f nice.sm3_device nice.fuel a n)

  unfoldable pub exec_sm4 : (Device → ℕ → ℕ → ℕ → Nice → Option (ℕ × Nice)) → Run
  unfolding answer_sm4
  exec_sm4 f = do
    a ← read hw build i.rs1
    b ← read hw build i.rs2
    n ← gets λ c. c.units.sm4_nice
    answer_sm4 (f nice.sm4_device nice.fuel a b n)

  -- The instructions that the simulator computes itself.
  unfoldable pub exec_local : (ℕ → ℕ) → Run
  exec_local f = do a ← read hw build i.rs1; write hw build i.rd (f a)

  abbrev if_built : Bool → Run → Run
  if_built present r = if present then r else pure tt

  -- By `funct7`, at `funct3` 0b111.
  unfoldable pub exec_funct7 : ℕ → Run
  unfolding exec_add exec_sm3 exec_sm4 exec_local
  exec_funct7 f =
      if f == 0
      then exec_add
      else if f == 1
      then exec_sm3 custom3_sm3p0
      else if f == 2
      then exec_sm3 custom3_sm3p1
      else if f == 3
      then if_built nice.has_full (exec_sm4 custom3_sm4ks)
      else if f == 4
      then if_built nice.has_full (exec_sm4 custom3_sm4ed)
      else if f == 5
      then if_built nice.has_t (exec_local custom3_sm4ks_t)
      else if f == 6
      then if_built nice.has_t (exec_local custom3_sm4ed_t)
      else if f == 7
      then if_built nice.has_linear (exec_local custom3_sm4ks_linear)
      else if f == 8
      then if_built nice.has_linear (exec_local custom3_sm4ed_linear)
      else if f == 9
      then if_built nice.has_nonlinear (exec_local custom3_sm4ks_nonlinear)
      else if f == 10
      then if_built nice.has_nonlinear (exec_local custom3_sm4ed_nonlinear)
      else pure tt

  unfoldable pub exec_custom3 : Run
  unfolding exec_funct7
  exec_custom3 = if i.funct3 == 7 then exec_funct7 i.funct7 else pure tt
