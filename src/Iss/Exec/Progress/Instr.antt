-- ===== src/Iss/Exec/Progress/Instr.antt =====
-- The instructions of `exec_step` in RISCV-VP/iss.cpp, each to its end in the build without timing.
use vcil.Prelude.{
  ℕ, ◌+◌, ◌-◌, ◌%◌, ◌^◌, ◌<◌, ◌≡◌, refl, ◌∙◌, Bool, true, false, none, some, ◌==◌, if◌then◌else◌,
  u32,
}
use vcil.Iss.Privilege.{RetOp, RetResult, exec_ret, exec_ret-mip}
use vcil.Iss.Step.{Core}
use vcil.Iss.Exec.{
  plain_build, Units, Instruction, check, LoadOp, StoreOp, IsaExtension, m_isa_ext, a_isa_ext,
  Hardware, illegal, read, write, require_isa,
}
use vcil.Iss.Exec.Branch.{BranchOp, holds}
use vcil.Iss.Exec.Instr.{
  MulOp, exec_mul, jump_to, exec_jal, exec_jalr, taken, not_taken, exec_branch, check_alignment,
  exec_store, exec_load, exec_sc_w, after_ret, exec_xret, load_width, store_width,
}
use vcil.Iss.Exec.Builds.Reservation.{with_counter}
use vcil.Iss.Exec.Progress.{
  Place, Ends, Always, TrapsFit, IsKept, bind, idle, got, changes, checked, accessed, either,
}

module _ {M : Type 0} (place : Place) (hw : Hardware M) (fits : TrapsFit hw) (i : Instruction)
    (word : i.word < 2 ^ 32) where
  pub reads : (r : ℕ) → Always place (read hw plain_build r)
  unfolding read
  reads r = record { ends = λ c k. k }

  pub writes : (r v : ℕ) → Always place (write hw plain_build r v)
  unfolding write
  writes r v = record { ends = λ c k. k }

  pub requires : (x : IsaExtension) → Always place (require_isa hw x i)
  unfolding require_isa
  requires x = by_support (hw.supports x)
    where
      by_support :
          (b : Bool) → Always {M = M} place (check (if b then none else some (illegal hw i)))
      by_support true = record { ends = λ c k. k }
      by_support false = record { ends = λ c k. (word, k) }

  pub jumps : (target : ℕ) → Always place (jump_to hw plain_build i target)
  unfolding jump_to
  jumps target =
      bind place (changes place _ λ c k. k)
        λ _. checked place (hw.trap_check_pc_alignment target) (fits.pc_alignment target)

  pub aligned : (w : ℕ) (l : Bool) (a : ℕ) → Always place (check_alignment hw plain_build i w l a)
  unfolding check_alignment
  aligned w l a =
      either place (w == 1) (idle place)
        (checked place (hw.trap_check_addr_alignment w l a) (fits.addr_alignment w l a))

  pub returns : (op : RetOp) → Always place (exec_xret hw plain_build i op)
  unfolding exec_xret after_ret
  returns op = record { ends = λ c k. go c k (exec_ret op c.hart) refl }
    where
      go :
          (c : Core (Units M))
          → IsKept place c
          → (r : RetResult) → exec_ret op c.hart ≡ r
          → Ends place (after_ret hw plain_build i r c)
      go c k (RetResult.returned h) e =
          let (m, l) = exec_ret-mip op c.hart h e in (m ∙ k.0, l ∙ k.1, k.2)
      go c k RetResult.illegal e = (word, k)

  pub multiplies : (op : MulOp) → Always place (exec_mul hw plain_build i op)
  unfolding exec_mul
  multiplies op = bind place (requires m_isa_ext) λ _.
      bind place (reads i.rs1)
        λ a. bind place (reads i.rs2) λ b. bind place (writes i.rd _) λ _. got place _

  pub jumps_by_offset : Always place (exec_jal hw plain_build i)
  unfolding exec_jal
  jumps_by_offset = bind place (got place λ c. c.hart.pc) λ link.
      bind place (got place λ c. c.hart.last_pc) λ last_pc.
        bind place (jumps (u32 (last_pc + i.j_imm)))
          λ _. bind place (writes i.rd link) λ _. idle place

  pub jumps_by_base : Always place (exec_jalr hw plain_build i)
  unfolding exec_jalr
  jumps_by_base = bind place (got place λ c. c.hart.pc) λ link.
      bind place (got place λ c. c.hart.last_pc) λ last_pc.
        bind place (got place λ c. c.regs i.rs1) λ base.
          let sum = u32 (base + i.i_imm) in
          bind place (jumps (sum - sum % 2)) λ _. bind place (writes i.rd link) λ _. idle place

  pub takes : Always place (taken hw plain_build i)
  unfolding taken
  takes =
      bind place (got place λ c. c.hart.last_pc)
        λ last_pc. bind place (jumps (u32 (last_pc + i.b_imm))) λ _. idle place

  pub falls_through : Always place (not_taken hw plain_build i)
  unfolding not_taken
  falls_through = record { ends = λ c k. k }

  pub branches : (op : BranchOp) → Always place (exec_branch hw plain_build i op)
  unfolding exec_branch
  branches op =
      bind place (reads i.rs1)
        λ a. bind place (reads i.rs2) λ b. either place (holds op a b) takes falls_through

  pub stores : (op : StoreOp) → Always place (exec_store hw plain_build i op)
  unfolding exec_store
  stores op = bind place (reads i.rs1) λ a. bind place (aligned (store_width op) false _) λ _.
      bind place (reads i.rs2)
        λ v. bind place (accessed place (hw.store op _ v) (fits.store op _ v)) λ _. idle place

  pub loads : (op : LoadOp) → Always place (exec_load hw plain_build i op)
  unfolding exec_load
  loads op = bind place (reads i.rs1) λ a. bind place (aligned (load_width op) true _) λ _.
      bind place (accessed place (hw.load op _) (fits.load op _))
        λ v. bind place (writes i.rd v) λ _. idle place

  pub reserves : (f : ℕ → ℕ) → Always place (with_counter hw i f)
  unfolding with_counter
  reserves f = bind place (requires a_isa_ext) λ _. bind place (reads i.rs1) λ addr.
      bind place
        (checked place (hw.trap_check_addr_alignment 4 true addr) (fits.addr_alignment 4 true addr))
        λ _.
          bind place (accessed place (hw.atomic_load_reserved_word addr) (fits.reserved addr))
            λ v. bind place (writes i.rd v) λ _. record { ends = λ c k. k }

  pub stores_reserved : Always place (exec_sc_w hw plain_build i)
  unfolding exec_sc_w
  stores_reserved = bind place (requires a_isa_ext) λ _. bind place (reads i.rs1) λ addr.
      bind place
        (checked place (hw.trap_check_addr_alignment 4 false addr)
          (fits.addr_alignment 4 false addr))
        λ _. bind place (reads i.rs2) λ v. bind place (writes i.rd 1) λ _.
          bind place
            (accessed place (hw.atomic_store_conditional_word addr v) (fits.conditional addr v))
            λ s. bind place (writes i.rd _) λ _. record { ends = λ c k. k }
