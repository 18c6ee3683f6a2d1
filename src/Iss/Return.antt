-- ===== src/Iss/Return.antt =====
-- `prepare_trap`, `switch_to_trap_handler` and `return_from_trap_handler` of RISCV-VP/iss.cpp,
-- together.
use vcil.Prelude.{
  ℕ, ◌^◌, ◌<◌, ◌≤◌, ◌≡◌, refl, ap, Bool, true, false, not, ◌&&◌, ◌||◌, Option, some, ltb,
  if◌then◌else◌, arith,
}
use vcil.Timing.Assert.{◌>>=◌, ◌>>◌, assert}
use vcil.Iss.{
  PrivilegeLevel, user_mode, supervisor_mode, machine_mode, rank, same_level, spp_bit, Mstatus,
  Handler, Csrs, Hart, SimulationTrap, return_from_trap_handler, delegated, trap_cause,
  prepare_trap, switch_to_trap_handler,
}

-- The interrupt enable of a level.
unfoldable pub enabled : PrivilegeLevel → Mstatus → Bool
enabled user_mode st = st.uie
enabled supervisor_mode st = st.sie
enabled machine_mode st = st.mie

pub handler : PrivilegeLevel → Csrs → Handler
handler user_mode c = c.u
handler supervisor_mode c = c.s
handler machine_mode c = c.m

-- `h'` is in the handler of `target`, which returns to the point `pc` at the level of `h`.
pub record IsEntered (target : PrivilegeLevel) (pc : ℕ) (h h' : Hart) : Type 0 where
  pub level : h'.prv ≡ target
  pub masked : enabled target h'.csrs.mstatus ≡ false
  pub back_pc : (return_from_trap_handler target h').pc ≡ pc
  pub back_level : (return_from_trap_handler target h').prv ≡ h.prv
  pub back_enabled :
      enabled target (return_from_trap_handler target h').csrs.mstatus
      ≡ enabled target h.csrs.mstatus

spp_bit_lem : (p : PrivilegeLevel) → rank p ≤ 1 → spp_bit p ≡ p
spp_bit_lem user_mode l = refl
spp_bit_lem supervisor_mode l = refl
spp_bit_lem machine_mode l = absurd (omega arith)

user_only : (p : PrivilegeLevel) → rank p ≤ 0 → user_mode ≡ p
user_only user_mode l = refl
user_only supervisor_mode l = absurd (omega arith)
user_only machine_mode l = absurd (omega arith)

-- Switching to the handler of a level that is not below the current one fails no assertion. It
-- masks the interrupts of that level, and returning from there restores the program counter, the
-- level and the enable.
pub switch-return :
    (release : ℕ → ℕ) (target : PrivilegeLevel) (h : Hart)
    → rank h.prv ≤ rank target
    → (h' : Hart) × (switch_to_trap_handler release target h ≡ some h') × IsEntered target h.pc h h'
unfolding switch_to_trap_handler return_from_trap_handler enabled
switch-return release machine_mode h l = (
  _,
  refl,
  record { level = refl; masked = refl; back_pc = refl; back_level = refl; back_enabled = refl },
)
switch-return release supervisor_mode h l = (
  _,
  refl,
  record {
    level = refl;
    masked = refl;
    back_pc = refl;
    back_level = spp_bit_lem h.prv l;
    back_enabled = refl;
  },
)
switch-return release user_mode h l = (
  _,
  refl,
  record {
    level = refl;
    masked = refl;
    back_pc = refl;
    back_level = user_only h.prv l;
    back_enabled = refl;
  },
)

-- The level that a trap goes to, by the delegation registers.
pub trap_level : SimulationTrap → Hart → PrivilegeLevel
trap_level e h =
    if same_level h.prv machine_mode || not (delegated e.reason h.csrs.medeleg)
    then machine_mode
    else (if same_level h.prv supervisor_mode || not (delegated e.reason h.csrs.sedeleg)
        then supervisor_mode
        else user_mode)

-- The catch block of `run_step`.
pub take_trap : (ℕ → ℕ) → SimulationTrap → Hart → Option (PrivilegeLevel × Hart)
unfolding prepare_trap switch_to_trap_handler
take_trap release e h =
    prepare_trap e h >>= λ (l, h'). switch_to_trap_handler release l h' >>= λ h''. some (l, h'')

-- The state in which the handler of `target` starts after the trap `e`.
abbrev trapped : PrivilegeLevel → SimulationTrap → Hart → Hart
trapped machine_mode e h = record h {
  pc = h.last_pc;
  csrs = record (h.csrs) { m = trap_cause e h.csrs.m };
}
trapped supervisor_mode e h = record h {
  pc = h.last_pc;
  csrs = record (h.csrs) { s = trap_cause e h.csrs.s };
}
trapped user_mode e h = record h {
  pc = h.last_pc;
  csrs = record (h.csrs) { u = trap_cause e h.csrs.u };
}

abbrev chosen : PrivilegeLevel → Bool → Bool → PrivilegeLevel
chosen p md sd =
    if same_level p machine_mode || not md
    then machine_mode
    else (if same_level p supervisor_mode || not sd then supervisor_mode else user_mode)

abbrev with_level : (PrivilegeLevel → Hart) → PrivilegeLevel → PrivilegeLevel × Hart
with_level F l = (l, F l)

-- None of the asserts fails.
choose_lem :
    (p : PrivilegeLevel) (md sd : Bool) (F : PrivilegeLevel → Hart)
    → (if same_level p machine_mode || not md
        then some (with_level F machine_mode)
        else (if same_level p supervisor_mode || not sd
            then some (with_level F supervisor_mode)
            else assert (same_level p user_mode && (md && sd))
              >> assert true
              >> some (with_level F user_mode)))
      ≡ some (with_level F (chosen p md sd))
choose_lem machine_mode md sd F = refl
choose_lem supervisor_mode true sd F = refl
choose_lem supervisor_mode false sd F = refl
choose_lem user_mode false sd F = refl
choose_lem user_mode true true F = refl
choose_lem user_mode true false F = refl

chosen_lem : (p : PrivilegeLevel) (md sd : Bool) → rank p ≤ rank (chosen p md sd)
chosen_lem machine_mode md sd = omega arith
chosen_lem supervisor_mode true sd = omega arith
chosen_lem supervisor_mode false sd = omega arith
chosen_lem user_mode false sd = omega arith
chosen_lem user_mode true true = omega arith
chosen_lem user_mode true false = omega arith

prepare_trap_lem :
    (e : SimulationTrap) (h : Hart)
    → e.mtval < 2 ^ 32
    → (prepare_trap e h ≡ some (trap_level e h, trapped (trap_level e h) e h))
      × (rank h.prv ≤ rank (trap_level e h))
unfolding prepare_trap trap_level
prepare_trap_lem e h fits =
    let t : ltb e.mtval (2 ^ 32) ≡ true = ground arith in
    let md = delegated e.reason h.csrs.medeleg in
    let sd = delegated e.reason h.csrs.sedeleg in
    (rw t (choose_lem h.prv md sd (λ l. trapped l e h)), chosen_lem h.prv md sd)

-- A trap whose value fits in 32 bits is taken without a failure. Its handler runs at the level that
-- the delegation registers give, which is not below the current one, with the reason and the value
-- in that level's registers, and returns to the instruction that raised the trap.
pub take_trap-return :
    (release : ℕ → ℕ) (e : SimulationTrap) (h : Hart)
    → e.mtval < 2 ^ 32
    → (h' : Hart) × (take_trap release e h ≡ some (trap_level e h, h'))
      × (rank h.prv ≤ rank (trap_level e h))
      × IsEntered (trap_level e h) h.last_pc h h'
      × ((handler (trap_level e h) h'.csrs).cause
          ≡ record { interrupt = false; exception_code = e.reason })
      × ((handler (trap_level e h) h'.csrs).tval ≡ e.mtval)
unfolding take_trap handler enabled switch_to_trap_handler return_from_trap_handler
take_trap-return release e h fits =
    let (prepared, above) = prepare_trap_lem e h fits in go (trap_level e h) prepared above
  where
    then_switch : Option (PrivilegeLevel × Hart) → Option (PrivilegeLevel × Hart)
    then_switch m = m >>= λ (l, h'). switch_to_trap_handler release l h' >>= λ h''. some (l, h'')

    go :
        (l : PrivilegeLevel)
        → prepare_trap e h ≡ some (l, trapped l e h)
        → rank h.prv ≤ rank l
        → (h' : Hart) × (take_trap release e h ≡ some (l, h'))
          × (rank h.prv ≤ rank l)
          × IsEntered l h.last_pc h h'
          × ((handler l h'.csrs).cause ≡ record { interrupt = false; exception_code = e.reason })
          × ((handler l h'.csrs).tval ≡ e.mtval)
    go machine_mode p a = (
      _,
      ap then_switch p,
      a,
      record {
        level = refl;
        masked = refl;
        back_pc = refl;
        back_level = refl;
        back_enabled = refl;
      },
      refl,
      refl,
    )
    go supervisor_mode p a = (
      _,
      ap then_switch p,
      a,
      record {
        level = refl;
        masked = refl;
        back_pc = refl;
        back_level = spp_bit_lem h.prv a;
        back_enabled = refl;
      },
      refl,
      refl,
    )
    go user_mode p a = (
      _,
      ap then_switch p,
      a,
      record {
        level = refl;
        masked = refl;
        back_pc = refl;
        back_level = user_only h.prv a;
        back_enabled = refl;
      },
      refl,
      refl,
    )
