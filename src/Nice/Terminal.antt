-- ===== src/Nice/Terminal.antt =====
-- `open_dev` and `set_dev` of RISCV-VP/nice.h, which `SM3_NICE`, `SM4_NICE` and the bridge of
-- RISCV-VP/Bridge_Socket_Uart.cpp declare alike. POSIX is a parameter: `W` is the state of the
-- system, a call that fails returns a negative number, and the flags are those of termios.h.
pub mod Configured
pub mod Examples
use vcil.Prelude.{ℕ, ◌-◌, ◌^◌, Bool, true, false, if◌then◌else◌, bit_and, bit_or, not32}
use vcil.Prelude.Int.{ℤ, pos, negsuc, ltb_ℤ}

pub record Termios : Type 0 where
  pub c_iflag : ℕ
  pub c_cflag : ℕ
  pub vtime : ℕ
  pub vmin : ℕ
  pub others : ℕ

pub record Flags : Type 0 where
  pub cread : ℕ
  pub csize : ℕ
  pub cs8 : ℕ
  pub parenb : ℕ
  pub inpck : ℕ
  pub cstopb : ℕ
  pub b115200 : ℕ

-- `close` and `tcgetattr` take the descriptor; `tcgetattr` also gives the configuration.
pub record Posix (W : Type 0) : Type 0 where
  pub open_ : W → ℤ × W
  pub tcgetattr : ℤ → W → (ℤ × Termios) × W
  pub close : ℤ → W → W
  pub cfmakeraw : Termios → Termios
  pub cfsetspeed : Termios → ℕ → ℤ × Termios
  pub tcflush : ℤ → W → ℤ × W
  pub tcsetattr : ℤ → Termios → W → ℤ × W

-- The variables `fd`, `old_cfg` and `new_cfg`, and the system.
pub record Serial (W : Type 0) : Type 0 where
  pub fd : ℤ
  pub old_cfg : Termios
  pub new_cfg : Termios
  pub system : W

abbrev pub fails : ℤ → Bool
fails r = ltb_ℤ r (pos 0)

module _ {W : Type 0} (posix : Posix W) where
  unfoldable pub open_dev : Serial W → ℤ × Serial W
  open_dev s =
      let (fd, w) = posix.open_ s.system in
      let s1 = record s { fd = fd; system = w } in
      let ((r, cfg), w2) = posix.tcgetattr fd w in
      let s2 = record s1 { old_cfg = cfg; system = w2 } in
      if fails fd
      then (negsuc 0, s1)
      else (if fails r then (negsuc 0, record s2 { system = posix.close fd w2 }) else (pos 0, s2))

  module _ (flags : Flags) where
    -- Eight data bits, no parity, one stop bit, and reads that do not wait.
    unfoldable pub with_format : Termios → Termios
    with_format c =
        let size = bit_or (bit_and c.c_cflag (not32 flags.csize)) flags.cs8 in
        let parity = bit_and size (not32 flags.parenb) in
        record c {
          c_cflag = bit_and parity (not32 flags.cstopb);
          c_iflag = bit_and c.c_iflag (not32 flags.inpck);
          vtime = 0;
          vmin = 0;
        }

    -- `cfmakeraw`, and the receiver enabled.
    unfoldable pub made_raw : Termios → Termios
    made_raw c =
        let raw = posix.cfmakeraw c in record raw { c_cflag = bit_or raw.c_cflag flags.cread }

    unfoldable pub set_dev : ℤ → Serial W → ℤ × Serial W
    unfolding with_format made_raw
    set_dev fd s =
        let (r, fast) = posix.cfsetspeed (made_raw s.new_cfg) flags.b115200 in
        let s1 = record s { new_cfg = fast } in
        let cfg = with_format fast in
        let (r2, w2) = posix.tcflush fd s.system in
        let s2 = record s1 { new_cfg = cfg; system = w2 } in
        let (r3, w3) = posix.tcsetattr fd cfg w2 in
        let s3 = record s2 { system = w3 } in
        if fails r
        then (negsuc 0, s1)
        else (if fails r2
            then (negsuc 0, s2)
            else (if fails r3 then (negsuc 0, s3) else (pos 0, s3)))
