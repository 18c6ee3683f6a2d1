-- ===== src/Nice/Terminal/Examples.antt =====
-- A terminal with the flags of Linux, whose configuration cannot be read while it has no speed.
use vcil.Prelude.{
  ℕ, suc, ◌-◌, ◌≡◌, ◌⊎◌, refl, subst, Bool, true, false, ltb, if◌then◌else◌, ◌==◌, arith,
}
use vcil.Prelude.Bits.{bit, power_bit}
use vcil.Prelude.Int.{ℤ, pos, negsuc}
use vcil.Nice.Terminal.{Termios, Flags, Posix, Serial, fails, open_dev, set_dev}
use vcil.Nice.Terminal.Configured.{
  OpenLaws, FlagLaws, IsConfigured, SpeedIsApart, open_dev-opened, set_dev-IsConfigured,
}

abbrev flags : Flags
flags = record {
  cread = 0x80;
  csize = 0x30;
  cs8 = 0x30;
  parenb = 0x100;
  inpck = 0x10;
  cstopb = 0x40;
  b115200 = 0x1002;
}

-- The open descriptors and the configuration.
record System : Type 0 where
  opened : ℕ
  current : Termios

abbrev posix : Posix System
posix = record {
  open_ = λ w. (pos 3, record w { opened = suc w.opened });
  tcgetattr = λ fd w. ((if w.current.others == 0 then negsuc 0 else pos 0, w.current), w);
  close = λ fd w. record w { opened = w.opened - 1 };
  cfmakeraw = λ c. record c { c_iflag = 0 };
  cfsetspeed = λ c speed. (pos 0, record c { others = speed });
  tcflush = λ fd w. (pos 0, w);
  tcsetattr = λ fd c w. (pos 0, record w { current = c });
}

abbrev no_cfg : Termios
no_cfg = record { c_iflag = 0; c_cflag = 0; vtime = 0; vmin = 0; others = 0 }

abbrev fresh : Serial System
fresh = record {
  fd = pos 0;
  old_cfg = no_cfg;
  new_cfg = no_cfg;
  system = record { opened = 2; current = no_cfg };
}

-- The descriptors are those from 3 on, and 3 is open while there is one.
abbrev is_open : ℤ → System → Bool
is_open fd w = ltb 0 w.opened

posix-OpenLaws : OpenLaws posix (λ w. w.opened) is_open
posix-OpenLaws = record {
  opens = λ w e. (refl, ground arith);
  refused = λ w e. cc;
  reads = λ fd w. (refl, refl);
  closes = λ fd w e. ground arith;
}

open_dev-opened_example :
    let (r, s') = open_dev posix fresh in
    ((r ≡ pos 0) × (fails s'.fd ≡ false) × (s'.system.opened ≡ suc fresh.system.opened))
    ⊎ ((r ≡ negsuc 0) × (s'.system.opened ≡ fresh.system.opened))
open_dev-opened_example = open_dev-opened posix (λ w. w.opened) is_open fresh posix-OpenLaws

flags-FlagLaws : FlagLaws flags
flags-FlagLaws = record {
  words = (omega arith, omega arith, omega arith, omega arith);
  size_inside = λ k h. h;
  parity_apart = λ k h. subst (λ k. bit k 0x30 ≡ 0) (power_bit 8 k h) refl;
  stop_apart = λ k h. subst (λ k. bit k 0x30 ≡ 0) (power_bit 6 k h) refl;
  receiver_apart = λ k h.
      subst (λ k. (bit k 0x30 ≡ 0) × (bit k 0x100 ≡ 0) × (bit k 0x40 ≡ 0)) (power_bit 7 k h)
        (refl, refl, refl);
}

posix-SpeedIsApart : SpeedIsApart posix flags
posix-SpeedIsApart c speed k h = refl

set_dev-IsConfigured_example :
    let (r, s') = set_dev posix flags (pos 3) fresh in
    let flushed = (posix.tcflush (pos 3) fresh.system).1 in
    let (answer, set) = posix.tcsetattr (pos 3) s'.new_cfg flushed in
    ((r ≡ pos 0) × IsConfigured flags s'.new_cfg × (fails answer ≡ false) × (s'.system ≡ set))
    ⊎ ((r ≡ negsuc 0)
        × ((s'.system ≡ fresh.system)
            ⊎ ((s'.system ≡ flushed)
                ⊎ (IsConfigured flags s'.new_cfg × (fails answer ≡ true) × (s'.system ≡ set)))))
set_dev-IsConfigured_example =
    set_dev-IsConfigured posix flags (pos 3) fresh flags-FlagLaws posix-SpeedIsApart
