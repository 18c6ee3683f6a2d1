-- ===== src/Firmware/Driver.antt =====
-- The functions of RISCV-VP/sm_tlm_uart/sm3.h and sm4.h that run an instruction of the coprocessor
-- by writes to the bridge's registers. The bus is the parameter `translate`: the offset at which it
-- delivers an address to the bridge. The loops that wait for `addr_state` take fuel.
pub mod Endianness
pub mod Protocol
pub mod Examples
use vcil.Prelude.{
  ℕ, zero, suc, ◌+◌, ◌-◌, ◌*◌, ◌/◌, ◌%◌, ◌^◌, ◌≡◌, refl, Bool, true, false, Option, none, some, ltb,
  ◌==◌, if◌then◌else◌, bit_and, bit_or, u32, shl32, shr,
}
use vcil.Timing.Assert.{◌>>=◌}
use vcil.Bridge.{Port, Bridge, Command, write_command, read_command, Response, b_transport}

pub data Endian : Type 0 where
  le be : Endian

-- The four bytes of a word in the other order.
pub le2be : ℕ → ℕ
le2be x =
    bit_or
      (bit_or (bit_or (shl32 (bit_and x 0x000000ff) 24) (shl32 (bit_and x 0x0000ff00) 8))
        (shr (bit_and x 0x00ff0000) 8))
      (shr (bit_and x 0xff000000) 24)

-- `get_endian`, from the two bytes that 0x1122 is stored as.
pub get_endian : ℕ → ℕ → Endian
get_endian first second = if ltb first second then be else le

abbrev pub mod_poll : ℕ
mod_poll = 0x000000ff

abbrev pub mod_read : ℕ
mod_read = 0x00000000

abbrev pub addr_x_in_0 : ℕ
addr_x_in_0 = 0x50004000

abbrev pub addr_x_in_1 : ℕ
addr_x_in_1 = 0x50004004

abbrev pub addr_x_in_2 : ℕ
addr_x_in_2 = 0x50004008

abbrev pub addr_x_in_3 : ℕ
addr_x_in_3 = 0x5000400c

abbrev pub addr_x_in_4 : ℕ
addr_x_in_4 = 0x50004010

abbrev pub addr_y_out_0 : ℕ
addr_y_out_0 = 0x50004014

abbrev pub addr_state : ℕ
addr_state = 0x50004018

-- The value in the machine's order.
abbrev pub in_mode : Endian → ℕ → ℕ
in_mode le x = x
in_mode be x = le2be x

module _ {D : Type 0} (port : Port D) (translate : ℕ → ℕ) (fuel : ℕ) where
  pub write_reg32 : ℕ → ℕ → Endian → Bridge D → Option (Bridge D)
  write_reg32 addr value mode b =
      b_transport port fuel write_command (translate addr) (in_mode mode value) b >>= λ (_, _, b').
      some b'

  pub read_reg32 : ℕ → Endian → Bridge D → Option ℕ
  read_reg32 addr mode b =
      b_transport port fuel read_command (translate addr) 0 b >>= λ (_, x, _). some (in_mode mode x)

  -- `while (rdata != step) { rdata = readReg32(addr_state, mode); }`
  pub spin : ℕ → ℕ → Endian → ℕ → Bridge D → Option ℕ
  unfolding read_reg32
  spin zero step mode rdata b = if rdata == step then some rdata else none
  spin (suc n) step mode rdata b =
      let rest = read_reg32 addr_state mode b >>= λ r. spin n step mode r b in
      if rdata == step then some rdata else rest

  -- A write and the loop after it.
  pub write_step : ℕ → ℕ → ℕ → Endian → ℕ × Bridge D → Option (ℕ × Bridge D)
  unfolding write_reg32 spin
  write_step addr value step mode (rdata, b) =
      write_reg32 addr value mode b >>= λ b'. spin fuel step mode rdata b' >>= λ r. some (r, b')

  -- The body that the four functions share; `rdata` is the value of the uninitialised variable.
  pub run_instruction : ℕ → ℕ → ℕ → Endian → ℕ → Bridge D → Option (ℕ × Bridge D)
  unfolding write_step read_reg32
  run_instruction code rs1 rs2 mode rdata b =
      write_step addr_x_in_0 code 1 mode (rdata, b) >>= λ s1.
      write_step addr_x_in_1 rs1 2 mode s1 >>= λ s2. write_step addr_x_in_2 rs2 3 mode s2 >>= λ s3.
      write_step addr_x_in_3 mod_poll 4 mode s3 >>= λ s4.
      write_step addr_x_in_4 mod_read 5 mode s4 >>= λ (_, b5).
      read_reg32 addr_y_out_0 mode b5 >>= λ y. some (y, b5)

  pub custom3_sm3p0 : ℕ → Endian → ℕ → Bridge D → Option (ℕ × Bridge D)
  unfolding run_instruction
  custom3_sm3p0 x mode rdata b = run_instruction 0x7b710000 x 0 mode rdata b

  pub custom3_sm3p1 : ℕ → Endian → ℕ → Bridge D → Option (ℕ × Bridge D)
  unfolding run_instruction
  custom3_sm3p1 x mode rdata b = run_instruction 0x7b720000 x 0 mode rdata b

  pub custom3_sm4ks : ℕ → ℕ → Endian → ℕ → Bridge D → Option (ℕ × Bridge D)
  unfolding run_instruction
  custom3_sm4ks k tk mode rdata b = run_instruction 0x7b730000 k tk mode rdata b

  pub custom3_sm4ed : ℕ → ℕ → Endian → ℕ → Bridge D → Option (ℕ × Bridge D)
  unfolding run_instruction
  custom3_sm4ed x tx mode rdata b = run_instruction 0x7b740000 x tx mode rdata b
