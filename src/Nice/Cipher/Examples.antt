-- ===== src/Nice/Cipher/Examples.antt =====
-- The ciphers' functions at concrete words.
use vcil.Prelude.{◌≡◌}
use vcil.Nice.Cipher.{sm4ed}
use vcil.Nice.Cipher.Rounds.{sm4ed_involutive}

sm4ed_involutive_example : sm4ed (sm4ed 0x01234567 0x89abcdef) 0x89abcdef ≡ 0x01234567
sm4ed_involutive_example = sm4ed_involutive 0x01234567 0x89abcdef
