-- ===== src/Iss/Arith.antt =====
-- The values that MUL, MULH, MULHU, MULHSU, DIV, DIVU, REM and REMU of `exec_step` in
-- RISCV-VP/iss.cpp write to the result register. A register is the 32-bit word of its `int32_t`;
-- division in C goes towards zero, and the remainder has the sign of the dividend.
pub mod Division
pub mod Product
pub mod Examples
use vcil.Prelude.{
  ℕ, ◌+◌, ◌-◌, ◌*◌, ◌/◌, ◌%◌, ◌^◌, Bool, true, false, not, ◌&&◌, leb, ltb, ◌==◌, if◌then◌else◌, u32,
  u64,
}

-- The sign of a word, its distance from zero, and the word of a number with a sign.
abbrev pub is_negative : ℕ → Bool
is_negative a = leb (2 ^ 31) a

abbrev pub magnitude : ℕ → ℕ
magnitude a = if is_negative a then 2 ^ 32 - a else a

abbrev pub signed : Bool → ℕ → ℕ
signed negative n = if negative then u32 (2 ^ 32 - n) else n

-- `(int64_t)a`, as a 64-bit word.
abbrev pub sign_extend : ℕ → ℕ
sign_extend a = if is_negative a then a + (2 ^ 32 - 1) * 2 ^ 32 else a

abbrev pub reg_min : ℕ
reg_min = 2 ^ 31

abbrev pub minus_one : ℕ
minus_one = 2 ^ 32 - 1

pub mul : ℕ → ℕ → ℕ
mul a b = u64 (sign_extend a * sign_extend b) % 2 ^ 32

pub mulh : ℕ → ℕ → ℕ
mulh a b = u64 (sign_extend a * sign_extend b) / 2 ^ 32

pub mulhu : ℕ → ℕ → ℕ
mulhu a b = u64 (a * b) / 2 ^ 32

pub mulhsu : ℕ → ℕ → ℕ
mulhsu a b = u64 (sign_extend a * b) / 2 ^ 32

-- `a / b` and `a % b` on `int32_t`, where C defines them.
abbrev pub quotient : ℕ → ℕ → ℕ
quotient a b =
    let q = magnitude a / magnitude b in
    signed (if is_negative a then (if is_negative b then false else true) else is_negative b) q

abbrev pub remainder : ℕ → ℕ → ℕ
remainder a b = signed (is_negative a) (magnitude a % magnitude b)

-- C leaves a division by zero undefined, and that of the least number by -1, whose quotient does not
-- fit; the word is then an arbitrary one.
abbrev pub undefined : ℕ
undefined = 1

abbrev pub is_defined : ℕ → ℕ → Bool
is_defined a b = not (b == 0) && not (a == reg_min && b == minus_one)

abbrev pub c_div : ℕ → ℕ → ℕ
c_div a b = if is_defined a b then quotient a b else undefined

abbrev pub c_rem : ℕ → ℕ → ℕ
c_rem a b = if is_defined a b then remainder a b else undefined

pub div : ℕ → ℕ → ℕ
div a b = if b == 0 then minus_one else (if a == reg_min && b == minus_one then a else c_div a b)

pub divu : ℕ → ℕ → ℕ
divu a b = if b == 0 then minus_one else a / b

pub rem : ℕ → ℕ → ℕ
rem a b = if b == 0 then a else (if a == reg_min && b == minus_one then 0 else c_rem a b)

pub remu : ℕ → ℕ → ℕ
remu a b = if b == 0 then a else a % b
