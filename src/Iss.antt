-- ===== src/Iss.antt =====
-- The simulated core, RISCV-VP/iss.cpp: its state, traps, interrupts and the step. The bit of each
-- interrupt in `mip`, the code of each and what releasing a reservation leaves in its counter come
-- from headers outside the repository, and are parameters.
pub mod Interrupt
pub mod Csr
pub mod Step
pub mod Exec
pub mod Float
pub mod Return
pub mod Privilege
pub mod Arith
pub mod Examples
use vcil.Prelude.{
  ℕ, zero, suc, ◌+◌, ◌-◌, ◌*◌, ◌/◌, ◌%◌, ◌^◌, ◌≡◌, refl, Bool, true, false, not, ◌&&◌, ◌||◌, Option,
  none, some, List, [], ◌∷◌, ltb, leb, ◌==◌, if◌then◌else◌, bit_and, u32, not32,
}
use vcil.Timing.Assert.{◌>>=◌, ◌>>◌, assert}

pub data PrivilegeLevel : Type 0 where
  user_mode supervisor_mode machine_mode : PrivilegeLevel

-- The encoding of a level, by which levels are compared.
abbrev pub rank : PrivilegeLevel → ℕ
rank user_mode = 0
rank supervisor_mode = 1
rank machine_mode = 3

abbrev pub same_level : PrivilegeLevel → PrivilegeLevel → Bool
same_level a b = rank a == rank b

-- `mstatus.spp` has one bit.
abbrev pub spp_bit : PrivilegeLevel → PrivilegeLevel
spp_bit user_mode = user_mode
spp_bit _ = supervisor_mode

pub record Mstatus : Type 0 where
  pub uie : Bool
  pub sie : Bool
  pub mie : Bool
  pub upie : Bool
  pub spie : Bool
  pub mpie : Bool
  pub spp : PrivilegeLevel
  pub mpp : PrivilegeLevel
  pub tsr : Bool

pub record Cause : Type 0 where
  pub interrupt : Bool
  pub exception_code : ℕ

pub record Tvec : Type 0 where
  pub base_address : ℕ
  pub vectored : Bool

-- The registers of one level for its trap handler.
pub record Handler : Type 0 where
  pub epc : ℕ
  pub tvec : Tvec
  pub cause : Cause
  pub tval : ℕ

pub record Csrs : Type 0 where
  pub mstatus : Mstatus
  pub m : Handler
  pub s : Handler
  pub u : Handler
  pub mie : ℕ
  pub mip : ℕ
  pub mideleg : ℕ
  pub sideleg : ℕ
  pub medeleg : ℕ
  pub sedeleg : ℕ
  pub has_user_mode : Bool
  pub has_supervisor_mode : Bool

-- The part of the state of `ISS` that traps and interrupts use.
pub record Hart : Type 0 where
  pub pc : ℕ
  pub last_pc : ℕ
  pub prv : PrivilegeLevel
  pub csrs : Csrs
  pub lr_sc_counter : ℕ

pub record SimulationTrap : Type 0 where
  pub reason : ℕ
  pub mtval : ℕ

unfoldable pub return_from_trap_handler : PrivilegeLevel → Hart → Hart
return_from_trap_handler machine_mode h =
    let c = h.csrs in
    let back = if c.has_user_mode then user_mode else machine_mode in
    record h {
      prv = c.mstatus.mpp;
      pc = c.m.epc;
      csrs = record c {
        mstatus = record (c.mstatus) { mie = c.mstatus.mpie; mpie = true; mpp = back };
      };
    }
return_from_trap_handler supervisor_mode h =
    let c = h.csrs in
    let back = if c.has_user_mode then user_mode else supervisor_mode in
    record h {
      prv = c.mstatus.spp;
      pc = c.s.epc;
      csrs = record c {
        mstatus = record (c.mstatus) { sie = c.mstatus.spie; spie = true; spp = back };
      };
    }
return_from_trap_handler user_mode h =
    let c = h.csrs in
    record h {
      prv = user_mode;
      pc = c.u.epc;
      csrs = record c { mstatus = record (c.mstatus) { uie = c.mstatus.upie; upie = true } };
    }

-- The test of a bit of a delegation register.
pub delegated : ℕ → ℕ → Bool
delegated reason deleg = not (bit_and (u32 (2 ^ reason)) deleg == 0)

abbrev pub trap_cause : SimulationTrap → Handler → Handler
trap_cause e x = record x {
  cause = record { interrupt = false; exception_code = e.reason };
  tval = e.mtval;
}

-- `lexical_cast` fails on a value that does not fit in 32 bits.
pub prepare_trap : SimulationTrap → Hart → Option (PrivilegeLevel × Hart)
unfolding delegated
prepare_trap e h =
    let c = h.csrs in
    let to_m = same_level h.prv machine_mode || not (delegated e.reason c.medeleg) in
    let to_s = same_level h.prv supervisor_mode || not (delegated e.reason c.sedeleg) in
    let in_u =
      same_level h.prv user_mode
      && (delegated e.reason c.medeleg && delegated e.reason c.sedeleg) in
    let h' = record h { pc = h.last_pc } in
    let fits = assert (ltb e.mtval (2 ^ 32)) in
    if to_m
    then fits >> some (machine_mode, record h' { csrs = record c { m = trap_cause e c.m } })
    else (if to_s
        then fits >> some (supervisor_mode, record h' { csrs = record c { s = trap_cause e c.s } })
        else assert in_u
          >> fits
          >> some (user_mode, record h' { csrs = record c { u = trap_cause e c.u } }))

-- The address at which a handler starts.
pub entry_pc : Handler → ℕ
entry_pc x =
    if x.cause.interrupt && x.tvec.vectored
    then u32 (x.tvec.base_address + u32 (4 * x.cause.exception_code))
    else x.tvec.base_address

-- The asserts read `prv` after it has been set.
pub switch_to_trap_handler : (ℕ → ℕ) → PrivilegeLevel → Hart → Option Hart
unfolding entry_pc
switch_to_trap_handler release target h =
    let pp = h.prv in
    let h' = record h { lr_sc_counter = release h.lr_sc_counter; prv = target } in
    let c = h.csrs in
    let st = c.mstatus in
    elim target [
      | machine_mode ↦ some (record h' {
        pc = entry_pc c.m;
        csrs = record c {
          m = record (c.m) { epc = h.pc };
          mstatus = record st { mpie = st.mie; mie = false; mpp = pp };
        };
      })
      | supervisor_mode ↦
          assert (same_level h'.prv supervisor_mode || same_level h'.prv user_mode)
          >> some (record h' {
            pc = entry_pc c.s;
            csrs = record c {
              s = record (c.s) { epc = h.pc };
              mstatus = record st { spie = st.sie; sie = false; spp = spp_bit pp };
            };
          })
      | user_mode ↦
          assert (same_level h'.prv user_mode)
          >> some (record h' {
            pc = entry_pc c.u;
            csrs = record c {
              u = record (c.u) { epc = h.pc };
              mstatus = record st { upie = st.uie; uie = false };
            };
          })
    ]
