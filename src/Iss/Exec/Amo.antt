-- ===== src/Iss/Exec/Amo.antt =====
-- The operations of AMOSWAP.W to AMOMAXU.W of `exec_step` in RISCV-VP/iss.cpp, which `execute_amo`
-- of iss.h applies to the word in memory and the register.
use vcil.Prelude.{ℕ, ◌+◌, if◌then◌else◌, ltb, bit_and, bit_or, bit_xor, u32}
use vcil.Iss.Exec.Alu.{less}

pub data AmoOp : Type 0 where
  amoswap amoadd amoxor amoand amoor amomin amominu amomax amomaxu : AmoOp

-- `std::min(a, b)` is `b < a ? b : a`, and `std::max(a, b)` is `a < b ? b : a`.
unfoldable pub amo_value : AmoOp → ℕ → ℕ → ℕ
amo_value amoswap a b = b
amo_value amoadd a b = u32 (a + b)
amo_value amoxor a b = bit_xor a b
amo_value amoand a b = bit_and a b
amo_value amoor a b = bit_or a b
amo_value amomin a b = if less b a then b else a
amo_value amominu a b = if ltb b a then b else a
amo_value amomax a b = if less a b then b else a
amo_value amomaxu a b = if ltb a b then b else a
