-- ===== src/Iss/Privilege.antt =====
-- The instructions URET, SRET and MRET of `exec_step` in RISCV-VP/iss.cpp.
use vcil.Prelude.{◌≡◌, refl, arith, Bool, false, not, ◌&&◌, ◌||◌, if◌then◌else◌}
use vcil.Iss.{
  PrivilegeLevel, user_mode, supervisor_mode, machine_mode, same_level, Hart,
  return_from_trap_handler,
}

pub data RetOp : Type 0 where
  uret sret mret : RetOp

-- What an instruction does: it runs, or raises the trap for an illegal instruction.
pub data RetResult : Type 0 where
  returned : Hart → RetResult
  illegal : RetResult

pub exec_ret : RetOp → Hart → RetResult
unfolding return_from_trap_handler
exec_ret uret h =
    if not h.csrs.has_user_mode then illegal else returned (return_from_trap_handler user_mode h)
exec_ret sret h =
    if not h.csrs.has_supervisor_mode || (same_level h.prv supervisor_mode && h.csrs.mstatus.tsr)
    then illegal
    else returned (return_from_trap_handler supervisor_mode h)
exec_ret mret h = returned (return_from_trap_handler machine_mode h)

unguarded :
    (p : PrivilegeLevel) (t : Bool) → t ≡ false → (same_level p supervisor_mode && t) ≡ false
unguarded user_mode t e = refl
unguarded supervisor_mode t e = e
unguarded machine_mode t e = refl

-- Where `mstatus.tsr` is clear, the level at which a return instruction runs makes no difference:
-- what it does at level `p` it also does at level `q`, so that user code runs MRET.
pub exec_ret-any_level :
    (op : RetOp) (h : Hart) (p q : PrivilegeLevel)
    → h.csrs.mstatus.tsr ≡ false
    → exec_ret op (record h { prv = p }) ≡ exec_ret op (record h { prv = q })
unfolding exec_ret return_from_trap_handler
exec_ret-any_level uret h p q e = refl
exec_ret-any_level mret h p q e = refl
exec_ret-any_level sret h p q e =
    rw (unguarded p h.csrs.mstatus.tsr e, unguarded q h.csrs.mstatus.tsr e) refl

-- A return leaves the pending interrupts and the address of the instruction.
pub exec_ret-mip :
    (op : RetOp) (h h' : Hart)
    → exec_ret op h ≡ returned h'
    → (h'.csrs.mip ≡ h.csrs.mip) × (h'.last_pc ≡ h.last_pc)
unfolding exec_ret return_from_trap_handler
exec_ret-mip uret h h' e = ground arith
exec_ret-mip sret h h' e = ground arith
exec_ret-mip mret h h' e = ground arith
