-- ===== src/Firmware/Driver/Endianness.antt =====
-- The macro `LE2BE` of RISCV-VP/sm_tlm_uart/sm3.h.
use vcil.Prelude.{
  ℕ, ◌+◌, ◌*◌, ◌/◌, ◌%◌, ◌^◌, ◌<◌, ◌≡◌, sym, ◌∙◌, ap, ap₂, bit_and, bit_or, shl32, shr, arith,
}
use vcil.Prelude.Bits.{and-mask, and-shift, or-shift}
use vcil.Firmware.Driver.{le2be}

-- `LE2BE` takes the bytes of a word in the other order.
pub le2be_lem :
    (a b c d : ℕ)
    → a < 2 ^ 8
    → b < 2 ^ 8
    → c < 2 ^ 8
    → d < 2 ^ 8
    → le2be (a * 2 ^ 24 + b * 2 ^ 16 + c * 2 ^ 8 + d) ≡ d * 2 ^ 24 + c * 2 ^ 16 + b * 2 ^ 8 + a
unfolding le2be
le2be_lem a b c d ha hb hc hd =
    let x = a * 2 ^ 24 + b * 2 ^ 16 + c * 2 ^ 8 + d in
    let byte0 : shl32 (bit_and x 0x000000ff) 24 ≡ d * 2 ^ 24 = omega (arith, and-mask 8 x) in
    let byte1 : shl32 (bit_and x 0x0000ff00) 8 ≡ c * 2 ^ 16 =
      omega (arith, and-shift 8 x 255, and-mask 8 (x / 2 ^ 8)) in
    let byte2 : shr (bit_and x 0x00ff0000) 8 ≡ b * 2 ^ 8 =
      omega (arith, and-shift 16 x 255, and-mask 8 (x / 2 ^ 16)) in
    let byte3 : shr (bit_and x 0xff000000) 24 ≡ a =
      omega (arith, and-shift 24 x 255, and-mask 8 (x / 2 ^ 24)) in
    let or1 : bit_or (d * 2 ^ 24) (c * 2 ^ 16) ≡ (d * 2 ^ 8 + c) * 2 ^ 16 =
      omega (arith, or-shift 24 d (c * 2 ^ 16)) in
    let or2 : bit_or ((d * 2 ^ 8 + c) * 2 ^ 16) (b * 2 ^ 8) ≡ (d * 2 ^ 16 + c * 2 ^ 8 + b) * 2 ^ 8 =
      omega (arith, or-shift 16 (d * 2 ^ 8 + c) (b * 2 ^ 8)) in
    let or3 : bit_or ((d * 2 ^ 16 + c * 2 ^ 8 + b) * 2 ^ 8) a
        ≡ d * 2 ^ 24 + c * 2 ^ 16 + b * 2 ^ 8 + a =
      omega (arith, or-shift 8 (d * 2 ^ 16 + c * 2 ^ 8 + b) a) in
    ap₂ bit_or (ap₂ bit_or (ap₂ bit_or byte0 byte1 ∙ or1) byte2 ∙ or2) byte3 ∙ or3

-- Turning a 32-bit word round twice gives it back.
pub le2be-le2be : (x : ℕ) → x < 2 ^ 32 → le2be (le2be x) ≡ x
le2be-le2be x h =
    let a = x / 2 ^ 24 in
    let b = x / 2 ^ 16 % 2 ^ 8 in
    let c = x / 2 ^ 8 % 2 ^ 8 in
    let d = x % 2 ^ 8 in
    let e : x ≡ a * 2 ^ 24 + b * 2 ^ 16 + c * 2 ^ 8 + d = omega arith in
    ap (λ t. le2be (le2be t)) e
    ∙ ap le2be (le2be_lem a b c d (omega arith) (omega arith) (omega arith) (omega arith))
    ∙ le2be_lem d c b a (omega arith) (omega arith) (omega arith) (omega arith)
    ∙ sym e
