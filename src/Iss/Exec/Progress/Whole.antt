-- ===== src/Iss/Exec/Progress/Whole.antt =====
-- The dispatch of `exec_step` in RISCV-VP/iss.cpp ends, in the build without timing, and by what the
-- builds have in common in any other.
use vcil.Prelude.{
  ℕ, ◌+◌, ◌^◌, ◌<◌, ◌≡◌, refl, sym, subst, Bool, true, false, Option, some, if◌then◌else◌, ◌==◌,
  u32, inl, inr, Bool-cases, arith,
}
use vcil.Nice.Link.{Device, Nice, custom3_sm3p0, custom3_sm3p1, custom3_sm4ks, custom3_sm4ed}
use vcil.Nice.Cipher.{
  custom3_sm4ks_t, custom3_sm4ed_t, custom3_sm4ks_linear, custom3_sm4ed_linear,
  custom3_sm4ks_nonlinear, custom3_sm4ed_nonlinear,
}
use vcil.Iss.Step.{Core}
use vcil.Iss.Exec.{
  Build, plain_build, Units, Instruction, Result, returned, thrown, stopped, Action, pure, ◌>>=◌,
  Hardware, read, write,
}
use vcil.Iss.Exec.Alu.{imm_value, shift_value, reg_value, upper_value}
use vcil.Iss.Exec.Custom.{
  Coprocessor, finish_call, answer_sm3, answer_sm4, exec_add, exec_sm3, exec_sm4, exec_local,
  exec_funct7, exec_custom3,
}
use vcil.Iss.Exec.Instr.{
  exec_imm, exec_shift, exec_reg, exec_upper, exec_ecall, exec_ebreak, renewed,
}
use vcil.Iss.Exec.Builds.{IsTimed, Blank, strip, strip_result}
use vcil.Iss.Exec.Builds.Accesses.{AccessLaws}
use vcil.Iss.Exec.Builds.Coprocessor.{DevicesTakeTime}
use vcil.Iss.Exec.Builds.Reservation.{lr_w-Follows}
use vcil.Iss.Exec.Builds.Whole.{execute-Follows}
use vcil.Iss.Exec.Progress.{
  Place, IsKept, Ends, Always, TrapsFit, IsAnswered, DevicesAnswer, bind, idle, got, changes,
  either,
}
use vcil.Iss.Exec.Progress.Instr.{
  reads, writes, returns, multiplies, jumps_by_offset, jumps_by_base, branches, stores, loads,
  reserves, stores_reserved,
}
use vcil.Iss.Exec.Step.{
  Operation, undef, custom3, jal, jalr, fence, fence_i, ecall, ebreak, lr_w, sc_w, unsupported, imm,
  shift, reg, upper, branch, load, store, mul, xret, execute,
}

module _ {M : Type 0} (place : Place) (hw : Hardware M) (nice : Coprocessor) (fits : TrapsFit hw)
    (answers : DevicesAnswer nice) (i : Instruction) (word : i.word < 2 ^ 32) where
  -- An instruction that the class of its operands alone decides.
  unary :
      (f : ℕ → ℕ)
      → Always place (read hw plain_build i.rs1 >>= λ a. write hw plain_build i.rd (f a))
  unary f =
      bind place (reads place hw fits i word i.rs1) λ a. writes place hw fits i word i.rd (f a)

  binary :
      (f : ℕ → ℕ → ℕ)
      → Always place (
          read hw plain_build i.rs1 >>= λ a.
          read hw plain_build i.rs2 >>= λ b. write hw plain_build i.rd (f a b))
  binary f = bind place (reads place hw fits i word i.rs1) λ a.
      bind place (reads place hw fits i word i.rs2) λ b. writes place hw fits i word i.rd (f a b)

  finishes : (v cycles : ℕ) → Always place (finish_call hw nice plain_build i v cycles)
  unfolding finish_call
  finishes v cycles = bind place (writes place hw fits i word i.rd v) λ _. idle place

  answered3 :
      (o : Option (ℕ × Nice))
      → (r : ℕ × Nice) × (o ≡ some r)
      → Always place (answer_sm3 hw nice plain_build i o)
  answered3 o (r, e) =
      subst (λ o. Always place (answer_sm3 hw nice plain_build i o)) (sym e)
        (unfold answer_sm3 in
          bind place
            (changes place (λ c. record c { units = record (c.units) { sm3_nice = r.1 } }) λ c k. k)
            λ _. finishes r.0 r.1.cycles)

  answered4 :
      (o : Option (ℕ × Nice))
      → (r : ℕ × Nice) × (o ≡ some r)
      → Always place (answer_sm4 hw nice plain_build i o)
  answered4 o (r, e) =
      subst (λ o. Always place (answer_sm4 hw nice plain_build i o)) (sym e)
        (unfold answer_sm4 in
          bind place
            (changes place (λ c. record c { units = record (c.units) { sm4_nice = r.1 } }) λ c k. k)
            λ _. finishes r.0 r.1.cycles)

  calls3 :
      (f : Device → ℕ → ℕ → Nice → Option (ℕ × Nice))
      → ((x : ℕ) → IsAnswered (f nice.sm3_device nice.fuel x))
      → Always place (exec_sm3 hw nice plain_build i f)
  unfolding exec_sm3
  calls3 f h =
      bind place (reads place hw fits i word i.rs1)
        λ a. bind place (got place λ c. c.units.sm3_nice) λ n. answered3 _ (h a n)

  calls4 :
      (f : Device → ℕ → ℕ → ℕ → Nice → Option (ℕ × Nice))
      → ((x y : ℕ) → IsAnswered (f nice.sm4_device nice.fuel x y))
      → Always place (exec_sm4 hw nice plain_build i f)
  unfolding exec_sm4
  calls4 f h = bind place (reads place hw fits i word i.rs1) λ a.
      bind place (reads place hw fits i word i.rs2)
        λ b. bind place (got place λ c. c.units.sm4_nice) λ n. answered4 _ (h a b n)

  adds : Always place (exec_add hw nice plain_build i)
  unfolding exec_add
  adds = binary λ a b. u32 (a + b)

  computes : (f : ℕ → ℕ) → Always place (exec_local hw nice plain_build i f)
  unfolding exec_local
  computes f = unary f

  by_funct7 : (f : ℕ) → Always place (exec_funct7 hw nice plain_build i f)
  unfolding exec_funct7
  by_funct7 f = either place (f == 0) adds (
      either place (f == 1) (calls3 custom3_sm3p0 answers.sm3p0) (
        either place (f == 2) (calls3 custom3_sm3p1 answers.sm3p1) (
          either place (f == 3) (present nice.has_full (calls4 custom3_sm4ks answers.sm4ks)) (
            either place (f == 4) (present nice.has_full (calls4 custom3_sm4ed answers.sm4ed)) (
              either place (f == 5) (present nice.has_t (computes custom3_sm4ks_t)) (
                either place (f == 6) (present nice.has_t (computes custom3_sm4ed_t)) (
                  either place (f == 7) (present nice.has_linear (computes custom3_sm4ks_linear)) (
                    either place (f == 8) (present nice.has_linear (computes custom3_sm4ed_linear))
                      (either place (f == 9)
                        (present nice.has_nonlinear (computes custom3_sm4ks_nonlinear))
                        (either place (f == 10)
                          (present nice.has_nonlinear (computes custom3_sm4ed_nonlinear))
                          (idle place)))))))))))
    where
      present :
          (b : Bool) {m : Action (Unit {0}) (Units M)}
          → Always place m
          → Always place (if b then m else pure tt)
      present b h = either place b h (idle place)

  custom : Always place (exec_custom3 hw nice plain_build i)
  unfolding exec_custom3
  custom = either place (i.funct3 == 7) (by_funct7 i.funct7) (idle place)

  -- An instruction other than LR.W.
  plain_ends : (op : Operation) → (op ≡ lr_w → ⊥) → Always place (execute hw nice plain_build op i)
  unfolding execute exec_imm exec_shift exec_reg exec_upper exec_ecall exec_ebreak
  plain_ends undef h = record { ends = λ c k. (word, k) }
  plain_ends custom3 h = custom
  plain_ends jal h = jumps_by_offset place hw fits i word
  plain_ends jalr h = jumps_by_base place hw fits i word
  plain_ends fence h = idle place
  plain_ends fence_i h = idle place
  plain_ends ecall h = record { ends = λ c k. (omega (arith, k.1, place.small), k) }
  plain_ends ebreak h = record { ends = λ c k. k }
  plain_ends lr_w h = absurd (h refl)
  plain_ends sc_w h = stores_reserved place hw fits i word
  plain_ends unsupported h = record { ends = λ c k. (word, k) }
  plain_ends (imm op) h = unary λ a. imm_value op a i.i_imm
  plain_ends (shift op) h = unary λ a. shift_value op a i.shamt
  plain_ends (reg op) h = binary λ a b. reg_value op a b
  plain_ends (upper op) h =
      bind place (got place λ c. c.hart.last_pc)
        λ last_pc. writes place hw fits i word i.rd (upper_value op last_pc i.u_imm)
  plain_ends (branch op) h = branches place hw fits i word op
  plain_ends (load op) h = loads place hw fits i word op
  plain_ends (store op) h = stores place hw fits i word op
  plain_ends (mul op) h = multiplies place hw fits i word op
  plain_ends (xret op) h = returns place hw fits i word op

abbrev is_lr_w : Operation → Bool
is_lr_w lr_w = true
is_lr_w _ = false

lr_w-found : (op : Operation) → is_lr_w op ≡ true → op ≡ lr_w
lr_w-found op h = ground arith

unmarked :
    {M A : Type 0} (place : Place) (k : Blank) (r : Result A (Units M))
    → Ends place (strip_result k r)
    → Ends place r
unmarked place k (returned a c) h = h
unmarked place k (thrown e c) h = h
unmarked place k stopped h = h

module _ {M : Type 0} (place : Place) (hw : Hardware M) (nice : Coprocessor) (build : Build)
    (laws : AccessLaws hw) (slow : DevicesTakeTime nice) (fits : TrapsFit hw)
    (answers : DevicesAnswer nice) (i : Instruction) (word : i.word < 2 ^ 32) where
  -- Whatever the build.
  pub execute-Ends :
      (op : Operation) (c : Core (Units M))
      → IsTimed c
      → IsKept place c
      → Ends place (execute hw nice build op i c)
  execute-Ends op c w k = elim (Bool-cases (is_lr_w op)) [
    | inl e ↦
        subst (λ op. Ends place (execute hw nice build op i c)) (sym (lr_w-found op e)) reserved
    | inr e ↦ elsewhere λ h. cc
  ]
    where
      blank : Blank
      blank = record { pipeline = c.pipeline; predictor = c.units.branch_predictor }

      elsewhere : (op ≡ lr_w → ⊥) → Ends place (execute hw nice build op i c)
      elsewhere other =
          let f = execute-Follows blank hw nice build laws slow i op c (λ h. absurd (other h)) w in
          unmarked place blank _ (
            subst (Ends place) (sym f.same)
              ((plain_ends place hw nice fits answers i word op other).ends (strip blank c) k))

      reserved : Ends place (execute hw nice build lr_w i c)
      reserved =
          unfold execute in
          unmarked place blank _ (
            subst (Ends place) (sym (lr_w-Follows blank hw build laws i c w).same)
              ((reserves place hw fits i word (renewed hw build i)).ends (strip blank c) k))
