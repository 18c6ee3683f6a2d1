-- ===== src/Nice/Link/Exchange/Examples.antt =====
-- Exchanges with devices that answer at the third poll, or at once with an error.
use vcil.Prelude.{◌≡◌, refl, some, [], ◌∷◌, ◌++◌, ◌==◌, if◌then◌else◌, arith}
use vcil.Nice.Cipher.Rounds.{sm3p0-lt}
use vcil.Nice.Link.{got, failed, Device, Nice, bytes_of}
use vcil.Nice.Link.Exchange.{NiceOp, p0, issue, request, meaning, issue-meaning}

abbrev operation : NiceOp
operation = p0 0x12345678

abbrev answering : Device
answering req j = if j == 2 then got (bytes_of (meaning operation) ++ 9 ∷ []) else got []

abbrev broken : Device
broken req j = failed

-- The state after an answer of 0xdeadbeef in 12 cycles.
abbrev used : Nice
used = record {
  nread = 0;
  write_buff = [];
  read_buff = 0xde ∷ 0xad ∷ 0xbe ∷ 0xef ∷ 12 ∷ [];
  cycles = 12;
}

issue-meaning_example :
    (n' : Nice) × (issue operation answering 10 used ≡ some (meaning operation, n'))
    × (n'.cycles ≡ 9)
    × (n'.write_buff ≡ request operation)
unfolding meaning
issue-meaning_example =
    issue-meaning operation 2 10 9 answering used (omega arith) (λ j h. ground arith) refl
      (sm3p0-lt 0x12345678 (omega arith))
