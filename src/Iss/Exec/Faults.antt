-- ===== src/Iss/Exec/Faults.antt =====
-- What SC.W of RISCV-VP/iss.cpp leaves behind, also when it traps.
use vcil.Prelude.{ℕ, ◌≡◌, ap, Bool, true, false, none, arith}
use vcil.Firmware.Arrays.{put, put_twice}
use vcil.Iss.Step.{Core}
use vcil.Iss.Exec.{
  plain_build, Units, Instruction, Result, returned, thrown, MemoryResult, value, fault,
  with_memory, a_isa_ext, Hardware, read, write, require_isa,
}
use vcil.Iss.Exec.Instr.{exec_sc_w}

module _ {M : Type 0} (hw : Hardware M) (i : Instruction) (c : Core (Units M)) where
  -- The core when SC.W has left a value in the result register and in the counter.
  abbrev conditional : ℕ → ℕ → M → Core (Units M)
  conditional rd_value counter m =
      with_memory
        (record c {
          regs = put c.regs i.rd rd_value;
          hart = record (c.hart) { lr_sc_counter = counter };
        })
        m

  -- By what the memory answers: a store that is done or refused gives 0 or 1 and ends the
  -- reservation, and one that traps gives 1 and keeps its counter.
  abbrev pub sc_w_outcome : MemoryResult Bool M → Result (Unit {0}) (Units M)
  sc_w_outcome (value true m) = returned tt (conditional 0 0 m)
  sc_w_outcome (value false m) = returned tt (conditional 1 0 m)
  sc_w_outcome (fault e m) = thrown e (conditional 1 c.hart.lr_sc_counter m)

  overwritten :
      (v : ℕ) (m : M)
      → ◌≡◌ {A = Result (Unit {0}) (Units M)}
          (returned tt (record (conditional 1 0 m) { regs = put (put c.regs i.rd 1) i.rd v }))
          (returned tt (conditional v 0 m))
  overwritten v m =
      ap (λ r. returned tt (record (conditional 1 0 m) { regs = r })) (put_twice c.regs i.rd 1 v)

  -- SC.W with the extension A and an aligned address, in the build without timing: where the memory
  -- accepts or refuses the store, the result register holds 0 or 1 and the reservation has ended;
  -- where the memory traps, the register holds 1 and the counter of the reservation is kept.
  pub exec_sc_w-outcome :
      let addr = c.regs i.rs1 in
      (answer : MemoryResult Bool M)
      → hw.supports a_isa_ext ≡ true
      → hw.trap_check_addr_alignment 4 false addr ≡ none
      → hw.atomic_store_conditional_word addr (c.regs i.rs2) c.units.memory ≡ answer
      → exec_sc_w hw plain_build i c ≡ sc_w_outcome answer
  unfolding exec_sc_w require_isa read write
  exec_sc_w-outcome (value true m) isa aligned h = ground (arith, overwritten 0 m)
  exec_sc_w-outcome (value false m) isa aligned h = ground (arith, overwritten 1 m)
  exec_sc_w-outcome (fault e m) isa aligned h = ground arith
