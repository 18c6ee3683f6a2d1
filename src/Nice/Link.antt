-- ===== src/Nice/Link.antt =====
-- The exchange of RISCV-VP/nice.h with the FPGA over the serial port, as built with `sm3_nice_uart`
-- and `sm4_nice_uart` (which the file defines). What POSIX `read` returns at each poll after a
-- request is an argument, `device`; the polling loop takes fuel, and `none` means that the device
-- has not answered within it.
pub mod Words
pub mod Exchange
use vcil.Prelude.{
  ℕ, zero, suc, ◌+◌, ◌-◌, ◌*◌, ◌/◌, ◌%◌, ◌^◌, Bool, true, false, Option, none, some, List, [], ◌∷◌,
  ◌++◌, length, get_or, drop, ltb, if◌then◌else◌, bit_and, u8, u32, shl32, shr,
}

-- A call of `read`: the bytes that it stored, or an error (the value -1).
pub data ReadResult : Type 0 where
  got : List ℕ → ReadResult
  failed : ReadResult

-- What the k-th poll after a request returns.
abbrev pub Device : Type 0
Device = List ℕ → ℕ → ReadResult

-- The members of `SM3_NICE` and of `SM4_NICE`.
pub record Nice : Type 0 where
  pub nread : ℕ
  pub write_buff : List ℕ
  pub read_buff : List ℕ
  pub cycles : ℕ

unfoldable pub nice : Nice
nice = record {
  nread = 0;
  write_buff = 0 ∷ 0 ∷ 0 ∷ 0 ∷ 0 ∷ 0 ∷ 0 ∷ 0 ∷ 0 ∷ 0 ∷ [];
  read_buff = 0 ∷ 0 ∷ 0 ∷ 0 ∷ 0 ∷ [];
  cycles = 0;
}

-- The value of `read` as an `unsigned int`.
unfoldable pub read_count : ReadResult → ℕ
read_count (got bytes) = length bytes
read_count failed = 2 ^ 32 - 1

-- The buffer after a `read` into it.
unfoldable pub filled : ReadResult → List ℕ → List ℕ
filled (got bytes) buff = bytes ++ drop (length bytes) buff
filled failed buff = buff

-- `while (1) { nread = read(fd, read_buff, 5); if (nread > 0) break; }`: the buffer at the break.
unfoldable pub poll : ℕ → (ℕ → ReadResult) → ℕ → List ℕ → Option (List ℕ)
unfolding read_count filled
poll zero answer k buff = none
poll (suc fuel) answer k buff =
    let rest = poll fuel answer (k + 1) (filled (answer k) buff) in
    if ltb 0 (read_count (answer k)) then some (filled (answer k) buff) else rest

-- The four bytes of a word, most significant first.
unfoldable pub bytes_of : ℕ → List ℕ
bytes_of x =
    u8 (bit_and (shr x 24) 0xff)
    ∷ u8 (bit_and (shr x 16) 0xff)
    ∷ u8 (bit_and (shr x 8) 0xff)
    ∷ u8 (bit_and x 0xff)
    ∷ []

-- The word that the first four bytes of the buffer make.
unfoldable pub word_of : List ℕ → ℕ
word_of buff = u32 (
    bit_and (shl32 (get_or buff 0 0) 24) 0xff000000
    + bit_and (shl32 (get_or buff 1 0) 16) 0xff0000
    + bit_and (shl32 (get_or buff 2 0) 8) 0xff00
    + get_or buff 3 0)

-- What the four instructions share: send the ten bytes, poll, and read the result and the cycles.
unfoldable pub exchange : Device → ℕ → List ℕ → Nice → Option (ℕ × Nice)
unfolding poll word_of
exchange device fuel request n = elim (poll fuel (device request) 0 n.read_buff) [
  | none ↦ none
  | some buff ↦ some (
    word_of buff,
    record { nread = 0; write_buff = request; read_buff = buff; cycles = get_or buff 4 0 },
  )
]

unfoldable pub custom3_sm3p0 : Device → ℕ → ℕ → Nice → Option (ℕ × Nice)
unfolding exchange bytes_of
custom3_sm3p0 device fuel x n =
    exchange device fuel (0x7b ∷ 0x71 ∷ bytes_of x ++ 0 ∷ 0 ∷ 0 ∷ 0 ∷ []) n

unfoldable pub custom3_sm3p1 : Device → ℕ → ℕ → Nice → Option (ℕ × Nice)
unfolding exchange bytes_of
custom3_sm3p1 device fuel x n =
    exchange device fuel (0x7b ∷ 0x72 ∷ bytes_of x ++ 0 ∷ 0 ∷ 0 ∷ 0 ∷ []) n

unfoldable pub custom3_sm4ks : Device → ℕ → ℕ → ℕ → Nice → Option (ℕ × Nice)
unfolding exchange bytes_of
custom3_sm4ks device fuel k tk n = exchange device fuel (0x7b ∷ 0x73 ∷ bytes_of k ++ bytes_of tk) n

unfoldable pub custom3_sm4ed : Device → ℕ → ℕ → ℕ → Nice → Option (ℕ × Nice)
unfolding exchange bytes_of
custom3_sm4ed device fuel x tx n = exchange device fuel (0x7b ∷ 0x74 ∷ bytes_of x ++ bytes_of tx) n
