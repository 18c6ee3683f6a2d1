-- ===== src/Iss/Csr.antt =====
-- The control and status registers of RISCV-VP/iss.cpp: `get_csr_value`, `set_csr_value` and the
-- checks before them. The masks, the layout of `fcsr` and the table behind `default_read32` come
-- from headers outside the repository, and are parameters. An access returns `none` where it raises
-- the trap for an illegal instruction.
pub mod Views
pub mod Instr
pub mod Examples
use vcil.Prelude.{
  ℕ, zero, suc, ◌+◌, ◌-◌, ◌*◌, ◌/◌, ◌%◌, ◌^◌, ◌≡◌, refl, Bool, true, false, not, ◌&&◌, ◌||◌, Option,
  none, some, ltb, leb, ◌==◌, if◌then◌else◌, bit_and, bit_or, u32, not32,
}
use vcil.Timing.Assert.{◌>>=◌, ◌>>◌, assert}
use vcil.Iss.{PrivilegeLevel, user_mode, supervisor_mode, machine_mode, rank, same_level}

-- The words behind the addresses.
pub data Reg : Type 0 where
  mstatus mip mie time cycle instret satp fcsr mtvec stvec utvec mepc sepc uepc : Reg
  mideleg medeleg sideleg sedeleg mcounteren scounteren mcountinhibit : Reg
  plain : ℕ → Reg

abbrev pub reg_index : Reg → ℕ
reg_index mstatus = 0
reg_index mip = 1
reg_index mie = 2
reg_index time = 3
reg_index cycle = 4
reg_index instret = 5
reg_index satp = 6
reg_index fcsr = 7
reg_index mtvec = 8
reg_index stvec = 9
reg_index utvec = 10
reg_index mepc = 11
reg_index sepc = 12
reg_index uepc = 13
reg_index mideleg = 14
reg_index medeleg = 15
reg_index sideleg = 16
reg_index sedeleg = 17
reg_index mcounteren = 18
reg_index scounteren = 19
reg_index mcountinhibit = 20
reg_index (plain n) = 21 + n

-- The addresses that `get_csr_value` and `set_csr_value` name.
pub data Address : Type 0 where
  time_a timeh_a mcycle_a mcycleh_a minstret_a minstreth_a hpmcounter_a : Address
  mstatus_a sstatus_a ustatus_a mip_a sip_a uip_a mie_a sie_a uie_a : Address
  satp_a fcsr_a fflags_a frm_a tselect_a debug_a misa_a : Address
  mtvec_a stvec_a utvec_a mepc_a sepc_a uepc_a : Address
  mideleg_a medeleg_a sideleg_a sedeleg_a mcounteren_a scounteren_a mcountinhibit_a : Address
  other_a : Address

abbrev pub Words : Type 0
Words = Reg → ℕ

pub record Masks : Type 0 where
  pub mstatus : ℕ
  pub sstatus : ℕ
  pub ustatus : ℕ
  pub mip_read : ℕ
  pub mip_write : ℕ
  pub sip : ℕ
  pub uip : ℕ
  pub mie : ℕ
  pub sie : ℕ
  pub uie : ℕ
  pub satp : ℕ
  pub fcsr : ℕ
  pub mtvec : ℕ
  pub pc_alignment : ℕ
  pub mideleg : ℕ
  pub medeleg : ℕ
  pub sideleg : ℕ
  pub sedeleg : ℕ
  pub mcounteren : ℕ
  pub mcountinhibit : ℕ

-- The build without `PIPELINE_TIMING` and the one with it.
pub data Build : Type 0 where
  plain_build pipeline_build : Build

-- What the headers and the other parts of the platform give. `num_total_cycles` is that of the
-- pipeline, and `current_cycles` the result of `_compute_and_get_current_cycles`.
pub record Headers : Type 0 where
  pub masks : Masks
  pub name : ℕ → Address
  pub mapped : ℕ → Option Reg
  pub tvm : ℕ → Bool
  pub fflags : ℕ → ℕ
  pub frm : ℕ → ℕ
  pub with_fflags : ℕ → ℕ → ℕ
  pub with_frm : ℕ → ℕ → ℕ
  pub has_f : Bool
  pub has_supervisor_mode : Bool
  pub has_user_mode : Bool
  pub mtime : ℕ
  pub num_total_cycles : ℕ
  pub current_cycles : ℕ

abbrev pub low : ℕ → ℕ
low x = x % 2 ^ 32

abbrev pub high : ℕ → ℕ
high x = x / 2 ^ 32

-- `x.reg = (x.reg & ~mask) | (value & mask)`.
unfoldable pub masked : ℕ → ℕ → ℕ → ℕ
masked mask x value = bit_or (bit_and x (not32 mask)) (bit_and value mask)

abbrev pub store : Words → Reg → ℕ → Words
store s r v q = if reg_index r == reg_index q then v else s q

abbrev pub write_masked : Words → Reg → ℕ → ℕ → Words
write_masked s r mask value = store s r (masked mask (s r) value)

module _ (hd : Headers) where
  pub is_invalid_csr_access : PrivilegeLevel → ℕ → Bool → Option Bool
  is_invalid_csr_access prv csr_addr is_write =
      let csr_prv = bit_and 0x300 csr_addr / 2 ^ 8 in
      let csr_readonly = bit_and 0xC00 csr_addr / 2 ^ 10 == 3 in
      let s_invalid = csr_prv == 1 && not hd.has_supervisor_mode in
      let u_invalid = csr_prv == 0 && not hd.has_user_mode in
      let answer =
        (is_write && csr_readonly) || (ltb (rank prv) csr_prv || (s_invalid || u_invalid)) in
      let is_float : Bool = elim (hd.name csr_addr) [
        | fflags_a ↦ true
        | frm_a ↦ true
        | fcsr_a ↦ true
        | _ ↦ false
      ] in
      if is_float then assert hd.has_f >> some answer else some answer

  -- Whether the counter may be read.
  pub validate_csr_counter_read_access_rights : PrivilegeLevel → ℕ → Words → Bool
  validate_csr_counter_read_access_rights prv addr s =
      let cnt = bit_and addr 0x1F in
      let is_counter = (leb 0xC00 addr && leb addr 0xC1F) || (leb 0xC80 addr && leb addr 0xC9F) in
      let m_set = s mcounteren / 2 ^ cnt % 2 == 1 in
      let s_set = s scounteren / 2 ^ cnt % 2 == 1 in
      not is_counter
      || (not (same_level prv supervisor_mode && not m_set)
          && not (same_level prv user_mode && (not m_set || not s_set)))

  abbrev default_read : ℕ → Words → Option (ℕ × Words)
  default_read addr s = hd.mapped addr >>= λ r. some (s r, s)

  -- What `csrs.cycle` is set to before it is read.
  pub cycles : Build → ℕ
  cycles plain_build = hd.current_cycles
  cycles pipeline_build = hd.num_total_cycles

  -- The branches of the switch of `get_csr_value`.
  pub read_named : Build → Address → ℕ → Words → Option (ℕ × Words)
  unfolding cycles
  read_named build a addr s =
      let m = hd.masks in
      let timed : Words = store s time hd.mtime in
      let cycled : Words = store s cycle (cycles build) in
      elim a [
        | time_a ↦ some (low (timed time), timed)
        | timeh_a ↦ some (high (timed time), timed)
        | mcycle_a ↦ some (low (cycled cycle), cycled)
        | mcycleh_a ↦ some (high (cycled cycle), cycled)
        | minstret_a ↦ some (low (s instret), s)
        | minstreth_a ↦ some (high (s instret), s)
        | hpmcounter_a ↦ some (0, s)
        | mstatus_a ↦ some (bit_and (s mstatus) m.mstatus, s)
        | sstatus_a ↦ some (bit_and (s mstatus) m.sstatus, s)
        | ustatus_a ↦ some (bit_and (s mstatus) m.ustatus, s)
        | mip_a ↦ some (bit_and (s mip) m.mip_read, s)
        | sip_a ↦ some (bit_and (s mip) m.sip, s)
        | uip_a ↦ some (bit_and (s mip) m.uip, s)
        | mie_a ↦ some (bit_and (s mie) m.mie, s)
        | sie_a ↦ some (bit_and (s mie) m.sie, s)
        | uie_a ↦ some (bit_and (s mie) m.uie, s)
        | satp_a ↦ if hd.tvm (s mstatus) then none else default_read addr s
        | fcsr_a ↦ some (bit_and (s fcsr) m.fcsr, s)
        | fflags_a ↦ some (hd.fflags (s fcsr), s)
        | frm_a ↦ some (hd.frm (s fcsr), s)
        | tselect_a ↦ some (1, s)
        | debug_a ↦ some (0, s)
        | _ ↦ default_read addr s
      ]

  unfoldable pub get_csr_value : Build → PrivilegeLevel → ℕ → Words → Option (ℕ × Words)
  unfolding read_named validate_csr_counter_read_access_rights
  get_csr_value build prv addr s =
      if validate_csr_counter_read_access_rights prv addr s
      then read_named build (hd.name addr) addr s
      else none

  -- The branches of the switch of `set_csr_value`.
  pub write_named : Address → ℕ → ℕ → Words → Option Words
  write_named a addr value s =
      let m = hd.masks in
      elim a [
        | misa_a ↦ some s
        | hpmcounter_a ↦ some s
        | satp_a ↦ if hd.tvm (s mstatus) then none else some (write_masked s satp m.satp value)
        | mtvec_a ↦ some (write_masked s mtvec m.mtvec value)
        | stvec_a ↦ some (write_masked s stvec m.mtvec value)
        | utvec_a ↦ some (write_masked s utvec m.mtvec value)
        | mepc_a ↦ some (write_masked s mepc m.pc_alignment value)
        | sepc_a ↦ some (write_masked s sepc m.pc_alignment value)
        | uepc_a ↦ some (write_masked s uepc m.pc_alignment value)
        | mstatus_a ↦ some (write_masked s mstatus m.mstatus value)
        | sstatus_a ↦ some (write_masked s mstatus m.sstatus value)
        | ustatus_a ↦ some (write_masked s mstatus m.ustatus value)
        | mip_a ↦ some (write_masked s mip m.mip_write value)
        | sip_a ↦ some (write_masked s mip m.sip value)
        | uip_a ↦ some (write_masked s mip m.uip value)
        | mie_a ↦ some (write_masked s mie m.mie value)
        | sie_a ↦ some (write_masked s mie m.sie value)
        | uie_a ↦ some (write_masked s mie m.uie value)
        | mideleg_a ↦ some (write_masked s mideleg m.mideleg value)
        | medeleg_a ↦ some (write_masked s medeleg m.medeleg value)
        | sideleg_a ↦ some (write_masked s sideleg m.sideleg value)
        | sedeleg_a ↦ some (write_masked s sedeleg m.sedeleg value)
        | mcounteren_a ↦ some (write_masked s mcounteren m.mcounteren value)
        | scounteren_a ↦ some (write_masked s scounteren m.mcounteren value)
        | mcountinhibit_a ↦ some (write_masked s mcountinhibit m.mcountinhibit value)
        | fcsr_a ↦ some (write_masked s fcsr m.fcsr value)
        | fflags_a ↦ some (store s fcsr (hd.with_fflags value (s fcsr)))
        | frm_a ↦ some (store s fcsr (hd.with_frm value (s fcsr)))
        | tselect_a ↦ some s
        | debug_a ↦ some s
        | _ ↦ hd.mapped addr >>= λ r. some (store s r value)
      ]

  unfoldable pub set_csr_value : ℕ → ℕ → Words → Option Words
  unfolding write_named masked
  set_csr_value addr value s = write_named (hd.name addr) addr value s
