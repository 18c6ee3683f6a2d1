-- ===== src/Iss/Exec/Builds/Whole.antt =====
-- `exec_step` of RISCV-VP/iss.cpp in a timed build, beside the plain one.
use vcil.Prelude.{◌≡◌, refl}
use vcil.Iss.Step.{Core}
use vcil.Iss.Exec.{Build, plain_build, Units, Instruction, Hardware}
use vcil.Iss.Exec.Custom.{Coprocessor}
use vcil.Iss.Exec.Instr.{exec_ecall, exec_ebreak}
use vcil.Iss.Exec.Step.{
  Operation, undef, custom3, jal, jalr, fence, fence_i, ecall, ebreak, lr_w, sc_w, unsupported, imm,
  shift, reg, upper, branch, load, store, mul, xret, execute,
}
use vcil.Iss.Exec.Builds.{IsTimed, Blank, Follows}
use vcil.Iss.Exec.Builds.Accesses.{AccessLaws}
use vcil.Iss.Exec.Builds.Groups.{
  exec_imm-Follows, exec_shift-Follows, exec_reg-Follows, exec_upper-Follows, exec_mul-Follows,
  exec_jal-Follows, exec_jalr-Follows, exec_branch-Follows, exec_store-Follows, exec_load-Follows,
  exec_sc_w-Follows, exec_xret-Follows,
}
use vcil.Iss.Exec.Builds.Reservation.{exec_lr_w-Follows}
use vcil.Iss.Exec.Builds.Coprocessor.{DevicesTakeTime, exec_custom3-Follows}

module _ {M : Type 0} (k : Blank) (hw : Hardware M) (nice : Coprocessor) (build : Build)
    (laws : AccessLaws hw) (slow : DevicesTakeTime nice) (i : Instruction) where
  -- The timing models change no result: from a core with a well-formed pipeline and predictor, an
  -- instruction of the dispatch ends in a timed build as it does in the build without timing from the
  -- same core, by returning, by the same trap or by a stop, with the same program counter, registers,
  -- memory and other state, and leaves pipeline and predictor well-formed. These are the integer
  -- instructions with multiplication and division, jumps, branches, loads, stores, LR.W, SC.W, CUSTOM3,
  -- FENCE, ECALL, EBREAK and the returns; not those on control registers and floating-point numbers,
  -- AMO, WFI and SFENCE.VMA. The accesses of registers are asked to pass and the devices to report two
  -- cycles or more, and LR.W to start with no reservation that is counting down.
  pub execute-Follows :
      (op : Operation) (c : Core (Units M))
      → (op ≡ lr_w → c.hart.lr_sc_counter ≡ 0)
      → IsTimed c
      → Follows k (execute hw nice build op i) (execute hw nice plain_build op i) c
  unfolding execute exec_ecall exec_ebreak
  execute-Follows undef c h w = record { well_formed = w; same = refl }
  execute-Follows custom3 c h w = exec_custom3-Follows k hw nice build laws i slow c w
  execute-Follows jal c h w = exec_jal-Follows k hw build laws i c w
  execute-Follows jalr c h w = exec_jalr-Follows k hw build laws i c w
  execute-Follows fence c h w = record { well_formed = w; same = refl }
  execute-Follows fence_i c h w = record { well_formed = w; same = refl }
  execute-Follows ecall c h w = record { well_formed = w; same = refl }
  execute-Follows ebreak c h w = record {
    well_formed = record { pipeline = w.pipeline; predictor = w.predictor };
    same = refl;
  }
  execute-Follows lr_w c h w = exec_lr_w-Follows k hw build laws i c w (h refl)
  execute-Follows sc_w c h w = exec_sc_w-Follows k hw build laws i c w
  execute-Follows unsupported c h w = record { well_formed = w; same = refl }
  execute-Follows (imm op) c h w = exec_imm-Follows k hw build laws i op c w
  execute-Follows (shift op) c h w = exec_shift-Follows k hw build laws i op c w
  execute-Follows (reg op) c h w = exec_reg-Follows k hw build laws i op c w
  execute-Follows (upper op) c h w = exec_upper-Follows k hw build laws i op c w
  execute-Follows (branch op) c h w = exec_branch-Follows k hw build laws i op c w
  execute-Follows (load op) c h w = exec_load-Follows k hw build laws i op c w
  execute-Follows (store op) c h w = exec_store-Follows k hw build laws i op c w
  execute-Follows (mul op) c h w = exec_mul-Follows k hw build laws i op c w
  execute-Follows (xret op) c h w = exec_xret-Follows k hw build laws i op c w
