-- ===== src/Iss/Exec/Alu.antt =====
-- The values that ADDI to AUIPC of `exec_step` in RISCV-VP/iss.cpp write to the result register. A
-- register is the 32-bit word of its `int32_t`.
pub mod Signed
pub mod Examples
use vcil.Prelude.{
  ℕ, ◌+◌, ◌-◌, ◌/◌, ◌%◌, ◌^◌, Bool, if◌then◌else◌, ltb, bit_and, bit_or, bit_xor, u32, shl32, shr,
}
use vcil.Prelude.Int.{ℤ, pos, negsuc, ltb_ℤ}
use vcil.Iss.Arith.{is_negative}

pub data ImmOp : Type 0 where
  addi slti sltiu xori ori andi : ImmOp

pub data ShiftOp : Type 0 where
  slli srli srai : ShiftOp

pub data RegOp : Type 0 where
  add sub sll slt sltu srl sra xor or and : RegOp

pub data UpperOp : Type 0 where
  lui auipc : UpperOp

-- The `int32_t` of a word.
abbrev pub int32 : ℕ → ℤ
int32 a = if is_negative a then negsuc (2 ^ 32 - 1 - a) else pos a

-- A comparison as a value.
abbrev pub flag : Bool → ℕ
flag b = if b then 1 else 0

-- `<` on `int32_t`.
abbrev pub less : ℕ → ℕ → Bool
less a b = ltb_ℤ (int32 a) (int32 b)

-- `>>` on `int32_t`, which copies the sign, by fewer than 32 places.
unfoldable pub shift_right : ℕ → ℕ → ℕ
shift_right a n = if is_negative a then shr a n + (2 ^ 32 - 2 ^ (32 - n)) else shr a n

-- `RegFile::shamt`: the bits 4 to 0.
abbrev pub shamt_of : ℕ → ℕ
shamt_of a = a % 2 ^ 5

unfoldable pub imm_value : ImmOp → ℕ → ℕ → ℕ
imm_value addi a imm = u32 (a + imm)
imm_value slti a imm = flag (less a imm)
imm_value sltiu a imm = flag (ltb a imm)
imm_value xori a imm = bit_xor a imm
imm_value ori a imm = bit_or a imm
imm_value andi a imm = bit_and a imm

unfoldable pub shift_value : ShiftOp → ℕ → ℕ → ℕ
unfolding shift_right
shift_value slli a n = shl32 a n
shift_value srli a n = shr a n
shift_value srai a n = shift_right a n

unfoldable pub reg_value : RegOp → ℕ → ℕ → ℕ
unfolding shift_right
reg_value add a b = u32 (a + b)
reg_value sub a b = u32 (a + 2 ^ 32 - b)
reg_value sll a b = shl32 a (shamt_of b)
reg_value slt a b = flag (less a b)
reg_value sltu a b = flag (ltb a b)
reg_value srl a b = shr a (shamt_of b)
reg_value sra a b = shift_right a (shamt_of b)
reg_value xor a b = bit_xor a b
reg_value or a b = bit_or a b
reg_value and a b = bit_and a b

-- The result of LUI and AUIPC, at the address `last_pc`.
unfoldable pub upper_value : UpperOp → ℕ → ℕ → ℕ
upper_value lui last_pc imm = imm
upper_value auipc last_pc imm = u32 (last_pc + imm)
