-- ===== src/Prelude/Words.antt =====
-- Machine words as native numbers: the wrap of each width, shifts and complement.
use Prim.Native.Nat.{ℕ, ◌-◌, ◌*◌, ◌/◌, ◌%◌, ◌^◌}

abbrev pub u8 : ℕ → ℕ
u8 n = n % 2 ^ 8

abbrev pub u32 : ℕ → ℕ
u32 n = n % 2 ^ 32

abbrev pub u64 : ℕ → ℕ
u64 n = n % 2 ^ 64

-- `x << n` and `x >> n` on a 32-bit unsigned `x`.
abbrev pub shl32 : ℕ → ℕ → ℕ
shl32 x n = u32 (x * 2 ^ n)

abbrev pub shr : ℕ → ℕ → ℕ
shr x n = x / 2 ^ n

-- `~x` on 32 bits.
abbrev pub not32 : ℕ → ℕ
not32 x = 2 ^ 32 - 1 - x
