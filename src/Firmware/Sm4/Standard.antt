-- ===== src/Firmware/Sm4/Standard.antt =====
-- The block cipher SM4 as its standard states it, GB/T 32907, independently of the tables in
-- RISCV-VP/nice.h and RISCV-VP/sm_tlm_uart/sm4.h: the S-box is an inversion in the field of 256
-- elements between two affine maps, the constants of the key schedule are multiples of 7, and the
-- rounds work on a register of four words.
use vcil.Prelude.{ℕ, zero, suc, ◌+◌, ◌-◌, ◌*◌, ◌/◌, ◌%◌, ◌^◌, bit_and, bit_xor, ltb, if◌then◌else◌}
use vcil.Nice.Cipher.{rotl32}

-- Multiplication by x, and by a polynomial of `n` bits, modulo x^8 + x^7 + x^6 + x^5 + x^4 + x^2 + 1.
abbrev pub times_x : ℕ → ℕ
times_x a = if ltb a 128 then a * 2 else bit_xor (a * 2) 0x1F5

unfoldable pub times : ℕ → ℕ → ℕ → ℕ
times zero a b = 0
times (suc n) a b = bit_xor (b % 2 * a) (times n (times_x a) (b / 2))

-- The product of the squares of `a`, `n` of them.
unfoldable pub squares : ℕ → ℕ → ℕ
unfolding times
squares zero a = 1
squares (suc n) a = times 8 (times 8 a a) (squares n (times 8 a a))

-- The power 254, which inverts.
abbrev pub inverse : ℕ → ℕ
inverse a = squares 7 a

unfoldable pub parity : ℕ → ℕ → ℕ
parity zero w = 0
parity (suc n) w = bit_xor (w % 2) (parity n (w / 2))

-- The `n` lower bits of the product with the circulant matrix of 0xA7.
unfoldable pub circulant : ℕ → ℕ → ℕ
unfolding parity
circulant zero x = 0
circulant (suc k) x =
    circulant k x + parity 8 (bit_and (0xA7 * 2 ^ k % 256 + 0xA7 / 2 ^ (8 - k)) x) * 2 ^ k

abbrev pub affine : ℕ → ℕ
affine x = bit_xor (circulant 8 x) 0xD3

unfoldable pub sbox : ℕ → ℕ
unfolding squares circulant
sbox x = affine (inverse (affine x))

-- The S-box on the four bytes of a word.
unfoldable pub substitute : ℕ → ℕ
unfolding sbox
substitute a =
    sbox (a / 2 ^ 24 % 256) * 2 ^ 24
    + sbox (a / 2 ^ 16 % 256) * 2 ^ 16
    + sbox (a / 2 ^ 8 % 256) * 2 ^ 8
    + sbox (a % 256)

unfoldable pub linear : ℕ → ℕ
linear b =
    bit_xor (bit_xor (bit_xor (bit_xor b (rotl32 b 2)) (rotl32 b 10)) (rotl32 b 18)) (rotl32 b 24)

unfoldable pub linear_key : ℕ → ℕ
linear_key b = bit_xor (bit_xor b (rotl32 b 13)) (rotl32 b 23)

pub record Quad : Type 0 where
  pub x0 : ℕ
  pub x1 : ℕ
  pub x2 : ℕ
  pub x3 : ℕ

abbrev pub quad : (ℕ → ℕ) → Quad
quad w = record { x0 = w 0; x1 = w 1; x2 = w 2; x3 = w 3 }

-- The words in the other order.
abbrev pub reversed : Quad → Quad
reversed q = record { x0 = q.x3; x1 = q.x2; x2 = q.x1; x3 = q.x0 }

-- A round with the linear map `l` and the key `k`.
unfoldable pub next : (ℕ → ℕ) → ℕ → Quad → Quad
unfolding substitute
next l k q = record {
  x0 = q.x1;
  x1 = q.x2;
  x2 = q.x3;
  x3 = bit_xor q.x0 (l (substitute (bit_xor (bit_xor (bit_xor q.x1 q.x2) q.x3) k)));
}

-- The bytes of the constant `i` are the multiples of 7 from 28 i on.
abbrev pub key_constant : ℕ → ℕ
key_constant i =
    4 * i * 7 % 256 * 2 ^ 24
    + (4 * i + 1) * 7 % 256 * 2 ^ 16
    + (4 * i + 2) * 7 % 256 * 2 ^ 8
    + (4 * i + 3) * 7 % 256

unfoldable pub key_register : (ℕ → ℕ) → ℕ → Quad
unfolding next
key_register key zero = record {
  x0 = bit_xor (key 0) 0xA3B1BAC6;
  x1 = bit_xor (key 1) 0x56AA3350;
  x2 = bit_xor (key 2) 0x677D9197;
  x3 = bit_xor (key 3) 0xB27022DC;
}
key_register key (suc n) = next linear_key (key_constant n) (key_register key n)

unfoldable pub round_key : (ℕ → ℕ) → ℕ → ℕ
unfolding key_register
round_key key i = (key_register key (suc i)).x3

unfoldable pub rounds : (ℕ → ℕ) → Quad → ℕ → Quad
unfolding next
rounds keys q zero = q
rounds keys q (suc n) = next linear (keys n) (rounds keys q n)

unfoldable pub encrypt : (ℕ → ℕ) → Quad → Quad
unfolding rounds round_key
encrypt key block = reversed (rounds (round_key key) block 32)

unfoldable pub decrypt : (ℕ → ℕ) → Quad → Quad
unfolding rounds round_key
decrypt key block = reversed (rounds (λ i. round_key key (31 - i)) block 32)
