-- ===== src/Iss/Exec/Builds/Coprocessor.antt =====
-- CUSTOM3 of RISCV-VP/iss.cpp in a timed build, beside the plain one. A timed build waits for the
-- cycles that the device reports, less one, and stops where that is not positive.
use vcil.Prelude.{
  ℕ, ◌-◌, ◌≤◌, ◌≡◌, refl, Bool, true, false, Option, none, some, if◌then◌else◌, ◌==◌, arith,
}
use vcil.Prelude.Int.{pos, ◌-ℤ◌}
use vcil.Timing.Pipeline.{advance}
use vcil.Timing.Pipeline.Laws.{advance-IsValid}
use vcil.Nice.Cipher.{
  custom3_sm4ks_t, custom3_sm4ed_t, custom3_sm4ks_linear, custom3_sm4ed_linear,
  custom3_sm4ks_nonlinear, custom3_sm4ed_nonlinear,
}
use vcil.Nice.Link.{Device, Nice, custom3_sm3p0, custom3_sm3p1, custom3_sm4ks, custom3_sm4ed}
use vcil.Iss.Exec.{Build, plain_build, Units, Instruction, Action, pure, Hardware}
use vcil.Iss.Exec.Custom.{
  Coprocessor, finish_call, answer_sm3, answer_sm4, exec_add, exec_sm3, exec_sm4, exec_local,
  exec_funct7, exec_custom3,
}
use vcil.Iss.Exec.Builds.{Blank, AlwaysFollows}
use vcil.Iss.Exec.Builds.Accesses.{
  AccessLaws, Passes, bind-Follows, pure-Follows, gets-Follows, modify-Follows, timed-Follows,
  read-Follows, write-Follows,
}

-- Every answer of the device reports at least two cycles.
abbrev pub TakesTime : (Nice → Option (ℕ × Nice)) → Type 0
TakesTime f = (n : Nice) (v : ℕ) (n' : Nice) → f n ≡ some (v, n') → 2 ≤ n'.cycles

pub record DevicesTakeTime (nice : Coprocessor) : Type 0 where
  pub sm3p0 : (x : ℕ) → TakesTime (custom3_sm3p0 nice.sm3_device nice.fuel x)
  pub sm3p1 : (x : ℕ) → TakesTime (custom3_sm3p1 nice.sm3_device nice.fuel x)
  pub sm4ks : (x y : ℕ) → TakesTime (custom3_sm4ks nice.sm4_device nice.fuel x y)
  pub sm4ed : (x y : ℕ) → TakesTime (custom3_sm4ed nice.sm4_device nice.fuel x y)

less_one : (n : ℕ) → 2 ≤ n → pos n -ℤ pos 1 ≡ pos (n - 1)
less_one n h = ground arith

advance-Passes : (cycles : ℕ) → 2 ≤ cycles → Passes (advance (pos cycles -ℤ pos 1))
advance-Passes cycles h p v =
    let (q, e, valid, _) = advance-IsValid (cycles - 1) p (omega arith) v in
    rw (less_one cycles h) (q, e, valid)

module _ {M : Type 0} (k : Blank) (hw : Hardware M) (nice : Coprocessor) (build : Build)
    (laws : AccessLaws hw) (i : Instruction) where
  abbrev FollowsPlain : ((b : Build) → Action (Unit {0}) (Units M)) → Type 0
  FollowsPlain exec = AlwaysFollows {M = M} k (exec build) (exec plain_build)

  finish_call-Follows :
      (v cycles : ℕ) → 2 ≤ cycles → FollowsPlain (λ b. finish_call hw nice b i v cycles)
  unfolding finish_call
  finish_call-Follows v cycles h =
      bind-Follows k (write-Follows k hw build laws i.rd v)
        λ _. timed-Follows k build.pipeline_timing _ (advance-Passes cycles h)

  -- What an answer, if there is one, says of its cycles.
  abbrev AnswerTakesTime : Option (ℕ × Nice) → Type 0
  AnswerTakesTime o = (v : ℕ) (n : Nice) → o ≡ some (v, n) → 2 ≤ n.cycles

  answer_sm3-Follows :
      (o : Option (ℕ × Nice)) → AnswerTakesTime o → FollowsPlain (λ b. answer_sm3 hw nice b i o)
  unfolding answer_sm3
  answer_sm3-Follows none slow = λ c w. record { well_formed = tt; same = refl }
  answer_sm3-Follows (some (v, n)) slow =
      bind-Follows k
        (modify-Follows k (λ c. record c { units = record (c.units) { sm3_nice = n } })
          (λ c w. record { pipeline = w.pipeline; predictor = w.predictor }) (λ c. refl))
        λ _. finish_call-Follows v n.cycles (slow v n refl)

  answer_sm4-Follows :
      (o : Option (ℕ × Nice)) → AnswerTakesTime o → FollowsPlain (λ b. answer_sm4 hw nice b i o)
  unfolding answer_sm4
  answer_sm4-Follows none slow = λ c w. record { well_formed = tt; same = refl }
  answer_sm4-Follows (some (v, n)) slow =
      bind-Follows k
        (modify-Follows k (λ c. record c { units = record (c.units) { sm4_nice = n } })
          (λ c w. record { pipeline = w.pipeline; predictor = w.predictor }) (λ c. refl))
        λ _. finish_call-Follows v n.cycles (slow v n refl)

  exec_add-Follows : FollowsPlain (λ b. exec_add hw nice b i)
  unfolding exec_add
  exec_add-Follows = bind-Follows k (read-Follows k hw build laws i.rs1) λ a.
      bind-Follows k (read-Follows k hw build laws i.rs2) λ b. write-Follows k hw build laws i.rd _

  exec_sm3-Follows :
      (f : Device → ℕ → ℕ → Nice → Option (ℕ × Nice))
      → ((x : ℕ) → TakesTime (f nice.sm3_device nice.fuel x))
      → FollowsPlain (λ b. exec_sm3 hw nice b i f)
  unfolding exec_sm3
  exec_sm3-Follows f slow = bind-Follows k (read-Follows k hw build laws i.rs1) λ a.
      bind-Follows k (gets-Follows k (λ c. c.units.sm3_nice) (λ c. refl))
        λ n. answer_sm3-Follows (f nice.sm3_device nice.fuel a n) (slow a n)

  exec_sm4-Follows :
      (f : Device → ℕ → ℕ → ℕ → Nice → Option (ℕ × Nice))
      → ((x y : ℕ) → TakesTime (f nice.sm4_device nice.fuel x y))
      → FollowsPlain (λ b. exec_sm4 hw nice b i f)
  unfolding exec_sm4
  exec_sm4-Follows f slow = bind-Follows k (read-Follows k hw build laws i.rs1) λ a.
      bind-Follows k (read-Follows k hw build laws i.rs2) λ b.
        bind-Follows k (gets-Follows k (λ c. c.units.sm4_nice) (λ c. refl))
          λ n. answer_sm4-Follows (f nice.sm4_device nice.fuel a b n) (slow a b n)

  exec_local-Follows : (f : ℕ → ℕ) → FollowsPlain (λ b. exec_local hw nice b i f)
  unfolding exec_local
  exec_local-Follows f =
      bind-Follows k (read-Follows k hw build laws i.rs1) λ a. write-Follows k hw build laws i.rd _

  choose :
      (b : Bool) {m m' n n' : Action (Unit {0}) (Units M)}
      → AlwaysFollows k m n
      → AlwaysFollows k m' n'
      → AlwaysFollows k (if b then m else m') (if b then n else n')
  choose true h h' = h
  choose false h h' = h'

  present :
      (b : Bool) {m n : Action (Unit {0}) (Units M)}
      → AlwaysFollows k m n
      → AlwaysFollows k (if b then m else pure tt) (if b then n else pure tt)
  present b h = choose b h (pure-Follows k tt)

  -- With devices that report at least two cycles, CUSTOM3 does in a timed build what it does in the
  -- plain one.
  pub exec_custom3-Follows : DevicesTakeTime nice → FollowsPlain (λ b. exec_custom3 hw nice b i)
  unfolding exec_custom3 exec_funct7
  exec_custom3-Follows slow =
      let f = i.funct7 in
      present (i.funct3 == 7) (
        choose (f == 0) exec_add-Follows (
          choose (f == 1) (exec_sm3-Follows custom3_sm3p0 slow.sm3p0) (
            choose (f == 2) (exec_sm3-Follows custom3_sm3p1 slow.sm3p1) (
              choose (f == 3) (present nice.has_full (exec_sm4-Follows custom3_sm4ks slow.sm4ks)) (
                choose (f == 4) (present nice.has_full (exec_sm4-Follows custom3_sm4ed slow.sm4ed))
                  (choose (f == 5) (present nice.has_t (exec_local-Follows custom3_sm4ks_t)) (
                    choose (f == 6) (present nice.has_t (exec_local-Follows custom3_sm4ed_t)) (
                      choose (f == 7)
                        (present nice.has_linear (exec_local-Follows custom3_sm4ks_linear))
                        (choose (f == 8)
                          (present nice.has_linear (exec_local-Follows custom3_sm4ed_linear))
                          (choose (f == 9)
                            (present nice.has_nonlinear
                              (exec_local-Follows custom3_sm4ks_nonlinear))
                            (present (f == 10) (
                              present nice.has_nonlinear
                                (exec_local-Follows custom3_sm4ed_nonlinear)))))))))))))
