-- ===== src/Iss/Csr/Examples.antt =====
-- A write to `sstatus`, and two instructions on a read-only counter.
use vcil.Prelude.{
  ℕ, ◌≡◌, ◌⊎◌, inl, refl, true, false, some, ◌==◌, if◌then◌else◌, bit_and, not32, arith,
}
use vcil.Firmware.Arrays.{zeros}
use vcil.Iss.{machine_mode}
use vcil.Iss.Csr.{
  plain_build, pipeline_build, mstatus, mie, sstatus_a, other_a, Words, Headers, reg_index,
  get_csr_value, set_csr_value, plain,
}
use vcil.Iss.Csr.Views.{sstatus_v, set_csr_value-get_csr_value}
use vcil.Iss.Csr.Instr.{csrrsi, exec_csr, exec_csr-builds}

abbrev all : ℕ
all = 0xffffffff

-- The address 0x100 is `sstatus`, and the others are plain words.
abbrev headers : Headers
headers = record {
  masks = record {
    mstatus = all;
    sstatus = 0xc6133;
    ustatus = 0x11;
    mip_read = all;
    mip_write = 0x333;
    sip = 0x333;
    uip = 0x111;
    mie = 0xbbb;
    sie = 0x333;
    uie = 0x111;
    satp = all;
    fcsr = 0xff;
    mtvec = 0xfffffffd;
    pc_alignment = 0xfffffffe;
    mideleg = 0x333;
    medeleg = 0xb3ff;
    sideleg = 0x111;
    sedeleg = 0x1ff;
    mcounteren = 7;
    mcountinhibit = 5;
  };
  name = λ addr. if addr == 0x100 then sstatus_a else other_a;
  mapped = λ addr. some (plain addr);
  tvm = λ w. false;
  fflags = λ w. 0;
  frm = λ w. 0;
  with_fflags = λ v w. w;
  with_frm = λ v w. w;
  has_f = false;
  has_supervisor_mode = true;
  has_user_mode = true;
  mtime = 0;
  num_total_cycles = 7;
  current_cycles = 5;
}

abbrev words : Words
words r = 0x1234

set_csr_value-get_csr_value_example :
    (s' : Words) × (set_csr_value headers 0x100 0xffff words ≡ some s')
    × (get_csr_value headers plain_build machine_mode 0x100 s' ≡ some (bit_and 0xffff 0xc6133, s'))
    × (bit_and (s' mstatus) (not32 0xc6133) ≡ bit_and (words mstatus) (not32 0xc6133))
    × (((reg_index mstatus == reg_index mie) ≡ true) ⊎ (s' mie ≡ words mie))
set_csr_value-get_csr_value_example =
    set_csr_value-get_csr_value headers plain_build machine_mode sstatus_v 0x100 0xffff words mie
      refl (omega arith) (omega arith) (omega arith) (omega arith)

exec_csr-builds_example :
    exec_csr headers plain_build machine_mode csrrsi 0x340 3 5 zeros words
    ≡ exec_csr headers pipeline_build machine_mode csrrsi 0x340 3 5 zeros words
exec_csr-builds_example =
    exec_csr-builds headers machine_mode csrrsi 0x340 3 5 zeros words
      (inl (λ e. absurd (omega (arith, e)))) (inl (λ e. cc, λ e. cc))
