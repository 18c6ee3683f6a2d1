-- ===== src/Iss/Exec/Branch.antt =====
-- The conditions of BEQ to BGEU of `exec_step` in RISCV-VP/iss.cpp.
use vcil.Prelude.{ℕ, Bool, not, ltb, ◌==◌}
use vcil.Iss.Exec.Alu.{less}

pub data BranchOp : Type 0 where
  beq bne blt bge bltu bgeu : BranchOp

-- `BLT` and `BGE` compare `int32_t`, `BLTU` and `BGEU` compare `uint32_t`.
unfoldable pub holds : BranchOp → ℕ → ℕ → Bool
holds beq a b = a == b
holds bne a b = not (a == b)
holds blt a b = less a b
holds bge a b = not (less a b)
holds bltu a b = ltb a b
holds bgeu a b = not (ltb a b)
