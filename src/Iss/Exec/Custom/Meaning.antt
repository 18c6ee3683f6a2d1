-- ===== src/Iss/Exec/Custom/Meaning.antt =====
-- CUSTOM3 of RISCV-VP/iss.cpp together with the serial link of RISCV-VP/nice.h.
use vcil.Prelude.{ℕ, zero, suc, ◌^◌, ◌<◌, ◌≤◌, ◌≡◌, refl, true, none, some, [], ◌∷◌, ◌++◌, arith}
use vcil.Prelude.Int.{pos, ◌-ℤ◌}
use vcil.Timing.Pipeline.{Pipeline, advance}
use vcil.Firmware.Arrays.{put}
use vcil.Nice.Link.{Device, Nice, got, bytes_of}
use vcil.Nice.Link.Exchange.{NiceOp, p0, p1, ks, ed, issue, request, meaning, issue-meaning}
use vcil.Iss.Step.{Core}
use vcil.Iss.Exec.{Build, plain_build, Units, Instruction, returned, stopped, Hardware, read, write}
use vcil.Iss.Exec.Custom.{
  Coprocessor, finish_call, answer_sm3, answer_sm4, exec_sm3, exec_sm4, exec_funct7, exec_custom3,
}
use vcil.Iss.Exec.Builds.{IsTimed}
use vcil.Iss.Exec.Builds.Accesses.{AccessLaws}

module _ {M : Type 0} (hw : Hardware M) (nice : Coprocessor) (i : Instruction)
    (c : Core (Units M)) where
  -- The instruction is the operation of the coprocessor on the operands in its registers.
  abbrev pub Encodes : NiceOp → Type 0
  Encodes (p0 x) = (i.funct7 ≡ 1) × (c.regs i.rs1 ≡ x)
  Encodes (p1 x) = (i.funct7 ≡ 2) × (c.regs i.rs1 ≡ x)
  Encodes (ks k tk) =
      (i.funct7 ≡ 3) × (nice.has_full ≡ true) × (c.regs i.rs1 ≡ k) × (c.regs i.rs2 ≡ tk)
  Encodes (ed x tx) =
      (i.funct7 ≡ 4) × (nice.has_full ≡ true) × (c.regs i.rs1 ≡ x) × (c.regs i.rs2 ≡ tx)

  abbrev pub device_of : NiceOp → Device
  device_of (p0 x) = nice.sm3_device
  device_of (p1 x) = nice.sm3_device
  device_of _ = nice.sm4_device

  abbrev pub member_of : NiceOp → Nice
  member_of (p0 x) = c.units.sm3_nice
  member_of (p1 x) = c.units.sm3_nice
  member_of _ = c.units.sm4_nice

  abbrev pub with_member : NiceOp → Nice → Units M
  with_member (p0 x) n = record (c.units) { sm3_nice = n }
  with_member (p1 x) n = record (c.units) { sm3_nice = n }
  with_member _ n = record (c.units) { sm4_nice = n }

  exec_custom3-issue :
      (op : NiceOp) (v : ℕ) (n : Nice)
      → i.funct3 ≡ 7
      → Encodes op
      → issue op (device_of op) nice.fuel (member_of op) ≡ some (v, n)
      → exec_custom3 hw nice plain_build i c
        ≡ returned tt (record c { regs = put c.regs i.rd v; units = with_member op n })
  unfolding exec_custom3 exec_funct7 exec_sm3 exec_sm4 answer_sm3 answer_sm4 finish_call read write
      issue
  exec_custom3-issue (p0 x) v n f h e = rw (f, h.0, h.1, e) refl
  exec_custom3-issue (p1 x) v n f h e = rw (f, h.0, h.1, e) refl
  exec_custom3-issue (ks k tk) v n f h e = rw (f, h.0, h.1, h.2, h.3, e) refl
  exec_custom3-issue (ed x tx) v n f h e = rw (f, h.0, h.1, h.2, h.3, e) refl

  -- In the build without timing an instruction of the coprocessor writes what its operation computes
  -- to the result register and changes nothing else but the buffers of the link, if the device
  -- answers, after any number of empty polls within the fuel, with that word and a byte of cycles.
  pub exec_custom3-meaning :
      (op : NiceOp) (k cycles : ℕ)
      → i.funct3 ≡ 7
      → Encodes op
      → k < nice.fuel
      → ((j : ℕ) → j < k → device_of op (request op) j ≡ got [])
      → device_of op (request op) k ≡ got (bytes_of (meaning op) ++ cycles ∷ [])
      → meaning op < 2 ^ 32
      → (n : Nice) × (exec_custom3 hw nice plain_build i c
          ≡ returned tt
              (record c { regs = put c.regs i.rd (meaning op); units = with_member op n }))
        × (n.cycles ≡ cycles)
  exec_custom3-meaning op k cycles f h enough idle answers small =
      let (n, issued, reported, _) =
        issue-meaning op k nice.fuel cycles (device_of op) (member_of op) enough idle answers
          small in
      (n, exec_custom3-issue op (meaning op) n f h issued, reported)

  no_wait : (n : ℕ) (p : Pipeline) → n ≤ 1 → advance (pos n -ℤ pos 1) p ≡ none
  no_wait zero p h = unfold advance in refl
  no_wait (suc zero) p h = unfold advance in refl
  no_wait (suc (suc n)) p h = absurd (omega arith)

  -- In a build with `PIPELINE_TIMING` the simulator stops at an assertion of the pipeline when the
  -- device reports no cycle or one.
  pub exec_custom3-stops :
      (build : Build) (op : NiceOp) (v : ℕ) (n : Nice)
      → AccessLaws hw
      → IsTimed c
      → build.pipeline_timing ≡ true
      → i.funct3 ≡ 7
      → Encodes op
      → issue op (device_of op) nice.fuel (member_of op) ≡ some (v, n)
      → n.cycles ≤ 1
      → exec_custom3 hw nice build i c ≡ stopped
  unfolding exec_custom3 exec_funct7 exec_sm3 exec_sm4 answer_sm3 answer_sm4 finish_call read write
      issue
  exec_custom3-stops build (p0 x) v n laws w t f h e few =
      let (q, reads, valid) = laws.reads i.rs1 c.pipeline w.pipeline in
      let (q', writes, valid', _) = laws.writes i.rd q valid in
      ground (arith, no_wait n.cycles q' few)
  exec_custom3-stops build (p1 x) v n laws w t f h e few =
      let (q, reads, valid) = laws.reads i.rs1 c.pipeline w.pipeline in
      let (q', writes, valid', _) = laws.writes i.rd q valid in
      ground (arith, no_wait n.cycles q' few)
  exec_custom3-stops build (ks k tk) v n laws w t f h e few =
      let (q, reads, valid) = laws.reads i.rs1 c.pipeline w.pipeline in
      let (q', reads', valid') = laws.reads i.rs2 q valid in
      let (q'', writes, valid'', _) = laws.writes i.rd q' valid' in
      ground (arith, no_wait n.cycles q'' few)
  exec_custom3-stops build (ed x tx) v n laws w t f h e few =
      let (q, reads, valid) = laws.reads i.rs1 c.pipeline w.pipeline in
      let (q', reads', valid') = laws.reads i.rs2 q valid in
      let (q'', writes, valid'', _) = laws.writes i.rd q' valid' in
      ground (arith, no_wait n.cycles q'' few)
