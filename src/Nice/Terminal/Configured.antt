-- ===== src/Nice/Terminal/Configured.antt =====
-- The terminal after `open_dev` and `set_dev` of RISCV-VP/nice.h.
use vcil.Prelude.{
  ℕ, zero, suc, ◌-◌, ◌^◌, ◌<◌, ◌≡◌, ◌⊎◌, inl, inr, refl, ap, ◌∙◌, Bool, true, false, bit_and,
  bit_or, not32, arith, Bool-cases,
}
use Prim.Native.Nat.{min, max}
use vcil.Prelude.Bits.{bit, and-bit_at, or-bit, complement-bit}
use vcil.Prelude.Int.{ℤ, pos, negsuc}
use vcil.Nice.Terminal.{
  Termios, Flags, Posix, Serial, fails, open_dev, with_format, made_raw, set_dev,
}

-- The number of descriptors that are open in a state of the system, which descriptors they are, and
-- how the calls change it. `close` releases a descriptor that is open, on Linux also where it reports
-- an error; of one that is not open nothing is asked.
pub record OpenLaws {W : Type 0} (posix : Posix W) (opened : W → ℕ) (is_open : ℤ → W → Bool)
    : Type 0 where
  pub opens :
      (w : W)
      → fails (posix.open_ w).0 ≡ false
      → (opened (posix.open_ w).1 ≡ suc (opened w))
        × (is_open (posix.open_ w).0 (posix.open_ w).1 ≡ true)
  pub refused : (w : W) → fails (posix.open_ w).0 ≡ true → opened (posix.open_ w).1 ≡ opened w
  pub reads :
      (fd : ℤ) (w : W)
      → (opened (posix.tcgetattr fd w).1 ≡ opened w)
        × (is_open fd (posix.tcgetattr fd w).1 ≡ is_open fd w)
  pub closes : (fd : ℤ) (w : W) → is_open fd w ≡ true → suc (opened (posix.close fd w)) ≡ opened w

module _ {W : Type 0} (posix : Posix W) where
  -- Opening the device succeeds with one more descriptor open and a valid `fd`, or fails with as
  -- many open as before: where the configuration cannot be read the descriptor is closed again.
  pub open_dev-opened :
      (opened : W → ℕ) (is_open : ℤ → W → Bool) (s : Serial W)
      → OpenLaws posix opened is_open
      → let (r, s') = open_dev posix s in
        ((r ≡ pos 0) × (fails s'.fd ≡ false) × (opened s'.system ≡ suc (opened s.system)))
        ⊎ ((r ≡ negsuc 0) × (opened s'.system ≡ opened s.system))
  unfolding open_dev
  open_dev-opened opened is_open s laws =
      let w = (posix.open_ s.system).1 in
      let fd = (posix.open_ s.system).0 in
      elim (Bool-cases (fails fd)) [
        | inl bad ↦ inr (rw bad refl, rw bad (laws.refused s.system bad))
        | inr good ↦ elim (Bool-cases (fails (posix.tcgetattr fd w).0.0)) [
          | inl bad ↦ inr (
            rw (good, bad) refl,
            rw (good, bad)
                (omega (
                  arith,
                  (laws.opens s.system good).0,
                  (laws.reads fd w).0,
                  laws.closes fd (posix.tcgetattr fd w).1
                      ((laws.reads fd w).1 ∙ (laws.opens s.system good).1),
                )),
          )
          | inr fine ↦ inl (
            rw (good, fine) refl,
            rw (good, fine) good,
            rw (good, fine) ((laws.reads fd w).0 ∙ (laws.opens s.system good).0),
          )
        ]
      ]

-- The bits of each flag are its own.
pub record FlagLaws (f : Flags) : Type 0 where
  pub words : (f.csize < 2 ^ 32) × (f.parenb < 2 ^ 32) × (f.cstopb < 2 ^ 32) × (f.inpck < 2 ^ 32)
  pub size_inside : (k : ℕ) → bit k f.csize ≡ 0 → bit k f.cs8 ≡ 0
  pub parity_apart : (k : ℕ) → bit k f.parenb ≡ 1 → bit k f.csize ≡ 0
  pub stop_apart : (k : ℕ) → bit k f.cstopb ≡ 1 → bit k f.csize ≡ 0
  pub receiver_apart :
      (k : ℕ)
      → bit k f.cread ≡ 1
      → (bit k f.csize ≡ 0) × (bit k f.parenb ≡ 0) × (bit k f.cstopb ≡ 0)

-- Receiving, eight data bits, no parity, one stop bit, and reads that do not wait.
pub record IsConfigured (f : Flags) (c : Termios) : Type 0 where
  pub receiver : (k : ℕ) → k < 32 → bit k f.cread ≡ 1 → bit k c.c_cflag ≡ 1
  pub size : (k : ℕ) → k < 32 → bit k f.csize ≡ 1 → bit k c.c_cflag ≡ bit k f.cs8
  pub parity : (k : ℕ) → k < 32 → bit k f.parenb ≡ 1 → bit k c.c_cflag ≡ 0
  pub stop : (k : ℕ) → k < 32 → bit k f.cstopb ≡ 1 → bit k c.c_cflag ≡ 0
  pub check_ : (k : ℕ) → k < 32 → bit k f.inpck ≡ 1 → bit k c.c_iflag ≡ 0
  pub no_wait : (c.vtime ≡ 0) × (c.vmin ≡ 0)

apart : (p s : ℕ) → (p ≡ 1 → s ≡ 0) → p < 2 → s ≡ 1 → p ≡ 0
apart zero s f l e = refl
apart (suc zero) s f l e = omega (arith, f refl, e)
apart (suc (suc p)) s f l e = omega (arith, l)

-- A bit after `&= ~mask`.
cleared :
    (k a mask : ℕ)
    → k < 32
    → mask < 2 ^ 32
    → bit k (bit_and a (not32 mask)) ≡ min (bit k a) (1 - bit k mask)
cleared k a mask l m =
    and-bit_at k a (not32 mask) ∙ ap (min (bit k a)) (complement-bit 32 k mask l m)

module _ {W : Type 0} (posix : Posix W) (f : Flags) where
  -- A bit of `c_cflag` after all of it.
  format-bit :
      (c : Termios) (k : ℕ)
      → FlagLaws f
      → k < 32
      → bit k (with_format posix f c).c_cflag
        ≡ min
            (min
              (max (min (bit k c.c_cflag) (1 - bit k f.csize)) (bit k f.cs8))
              (1 - bit k f.parenb))
            (1 - bit k f.cstopb)
  unfolding with_format
  format-bit c k laws l =
      let (ws, wp, wt, _) = laws.words in
      let sized = bit_or (bit_and c.c_cflag (not32 f.csize)) f.cs8 in
      let parity = bit_and sized (not32 f.parenb) in
      cleared k parity f.cstopb l wt
      ∙ ap (λ (t : ℕ). min t (1 - bit k f.cstopb))
          (cleared k sized f.parenb l wp
            ∙ ap (λ (t : ℕ). min t (1 - bit k f.parenb))
                (or-bit k (bit_and c.c_cflag (not32 f.csize)) f.cs8
                  ∙ ap (λ (t : ℕ). max t (bit k f.cs8)) (cleared k c.c_cflag f.csize l ws)))

  with_format-IsConfigured :
      (c : Termios)
      → FlagLaws f
      → ((k : ℕ) → bit k f.cread ≡ 1 → bit k c.c_cflag ≡ 1)
      → IsConfigured f (with_format posix f c)
  unfolding with_format
  with_format-IsConfigured c laws kept = record {
    receiver = λ k l h.
        let (a, b, d) = laws.receiver_apart k h in
        omega (arith, format-bit c k laws l, kept k h, a, b, d);
    size = λ k l h. omega (
      arith,
      format-bit c k laws l,
      h,
      apart (bit k f.parenb) (bit k f.csize) (laws.parity_apart k) (omega arith) h,
      apart (bit k f.cstopb) (bit k f.csize) (laws.stop_apart k) (omega arith) h,
    );
    parity = λ k l h. omega (arith, format-bit c k laws l, h);
    stop = λ k l h. omega (arith, format-bit c k laws l, h);
    check_ =
        λ k l h. let (_, _, _, w) = laws.words in omega (arith, cleared k c.c_iflag f.inpck l w, h);
    no_wait = (refl, refl);
  }

-- The setting of the speed leaves the receiver's flag alone.
abbrev pub SpeedIsApart : {W : Type 0} → Posix W → Flags → Type 0
SpeedIsApart posix f =
    (c : Termios) (speed k : ℕ)
    → bit k f.cread ≡ 1
    → bit k (posix.cfsetspeed c speed).1.c_cflag ≡ bit k c.c_cflag

module _ {W : Type 0} (posix : Posix W) (f : Flags) where
  -- The receiver stays enabled from `made_raw` on.
  received :
      (c : Termios) (k : ℕ)
      → SpeedIsApart posix f
      → bit k f.cread ≡ 1
      → bit k (posix.cfsetspeed (made_raw posix f c) f.b115200).1.c_cflag ≡ 1
  unfolding made_raw
  received c k speed h = omega (
    arith,
    speed (made_raw posix f c) f.b115200 k h,
    or-bit k (posix.cfmakeraw c).c_cflag f.cread,
    h,
  )

  -- Setting the device up succeeds where `tcsetattr`, after the flush, accepts a configuration that
  -- receives eight data bits without parity and with one stop bit and whose reads do not wait. It
  -- fails with the system as it was, as the flush leaves it, or as `tcsetattr` leaves it when it
  -- refuses such a configuration; no other configuration is ever asked for. The flags of termios.h
  -- are asked to be apart from each other, and the speed from the receiver's.
  pub set_dev-IsConfigured :
      (fd : ℤ) (s : Serial W)
      → FlagLaws f
      → SpeedIsApart posix f
      → let (r, s') = set_dev posix f fd s in
        let flushed = (posix.tcflush fd s.system).1 in
        let (answer, set) = posix.tcsetattr fd s'.new_cfg flushed in
        ((r ≡ pos 0) × IsConfigured f s'.new_cfg × (fails answer ≡ false) × (s'.system ≡ set))
        ⊎ ((r ≡ negsuc 0)
            × ((s'.system ≡ s.system)
                ⊎ ((s'.system ≡ flushed)
                    ⊎ (IsConfigured f s'.new_cfg × (fails answer ≡ true) × (s'.system ≡ set)))))
  unfolding set_dev
  set_dev-IsConfigured fd s flag_laws speed =
      let fast = (posix.cfsetspeed (made_raw posix f s.new_cfg) f.b115200).1 in
      let cfg = with_format posix f fast in
      let w = (posix.tcflush fd s.system).1 in
      let format : IsConfigured f cfg =
        with_format-IsConfigured posix f fast flag_laws (λ k h. received s.new_cfg k speed h) in
      elim (Bool-cases (fails (posix.cfsetspeed (made_raw posix f s.new_cfg) f.b115200).0)) [
        | inl bad ↦ inr (rw bad refl, inl (rw bad refl))
        | inr fine ↦ elim (Bool-cases (fails (posix.tcflush fd s.system).0)) [
          | inl bad ↦ inr (rw (fine, bad) refl, inr (inl (rw (fine, bad) refl)))
          | inr flushed ↦ elim (Bool-cases (fails (posix.tcsetattr fd cfg w).0)) [
            | inl bad ↦ rw (fine, flushed, bad) (inr (refl, inr (inr (format, bad, refl))))
            | inr done ↦ rw (fine, flushed, done) (inl (refl, format, done, refl))
          ]
        ]
      ]
