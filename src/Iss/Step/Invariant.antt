-- ===== src/Iss/Step/Invariant.antt =====
-- `run_step` and `run` of RISCV-VP/iss.cpp on well-formed states.
use vcil.Prelude.{
  ℕ, ◌+◌, ◌%◌, ◌^◌, ◌<◌, ◌≡◌, refl, ap, sym, subst, ◌∙◌, Bool, true, false, ◌&&◌, Option, none,
  some, if◌then◌else◌, arith, Bool-cases, inl, inr,
}
use vcil.Timing.Assert.{◌>>=◌}
use vcil.Prelude.Int.{pos}
use vcil.Timing.Pipeline.{advance}
use vcil.Timing.Pipeline.Elapse.{IsValid}
use vcil.Timing.Pipeline.Laws.{advance-IsValid}
use vcil.Iss.{
  PrivilegeLevel, user_mode, supervisor_mode, machine_mode, Hart, SimulationTrap,
  return_from_trap_handler,
}
use vcil.Iss.Return.{take_trap, trap_level, take_trap-return}
use vcil.Iss.Step.{
  Core, Outcome, done, raised, aborted, Environment, hit_breakpoint, take_interrupt,
  performance_and_sync_update, finish_instruction, accounted, charged, counted, count_down, settled,
  run_step, run,
}

some_same {ℓ} : {A : Type ℓ} {x y : A} → some x ≡ some y → x ≡ y
some_same e = cc

no_value {ℓ} : {A : Type ℓ} {x : A} → none ≡ some x → ⊥
no_value e = cc

-- The register x0 is zero, the pipeline is well-formed, and the units meet the invariant `U`.
pub record IsSound {X : Type 0} (U : X → Type 0) (c : Core X) : Type 0 where
  pub zero_register : c.regs 0 ≡ 0
  pub pipeline : IsValid c.pipeline
  pub units : U c.units

abbrev pub IsKept : {X : Type 0} → (X → Type 0) → Core X → Type 0
IsKept U c = IsValid c.pipeline × U c.units

abbrev pub OutcomeIsKept : {X : Type 0} → (X → Type 0) → Outcome X → Type 0
OutcomeIsKept U (done c) = IsKept U c
OutcomeIsKept U (raised e c) = IsKept U c
OutcomeIsKept U aborted = Unit {0}

-- The instructions keep the pipeline well-formed and the invariant of the units, whether they end
-- or trap.
abbrev pub KeepsPipeline : {X : Type 0} → (X → Type 0) → Environment X → Type 0
KeepsPipeline {X} U env =
    (c : Core X) → IsValid c.pipeline → U c.units → OutcomeIsKept U (env.exec_step c)

module _ {X : Type 0} (U : X → Type 0) (env : Environment X) where
  pub finish_instruction-pipeline :
      (o : Outcome X) (c' : Core X)
      → OutcomeIsKept U o
      → finish_instruction env o ≡ some c'
      → IsKept U c'
  unfolding finish_instruction
  finish_instruction-pipeline (done c) c' v e = go (take_interrupt env c.hart) e
    where
      go : (m : Option Hart) → (m >>= λ h. some (record c { hart = h })) ≡ some c' → IsKept U c'
      go none e = absurd (no_value e)
      go (some h) e = subst (IsKept U) (some_same e) v
  finish_instruction-pipeline (raised t c) c' v e = go (take_trap env.release t c.hart) e
    where
      go :
          (m : Option (PrivilegeLevel × Hart))
          → (m >>= λ (_, h). some (record c { hart = h })) ≡ some c'
          → IsKept U c'
      go none e = absurd (no_value e)
      go (some h) e = subst (IsKept U) (some_same e) v
  finish_instruction-pipeline aborted c' v e = absurd (no_value e)

  -- The accounting of a step fails no assertion of the pipeline, and counts the instruction.
  pub performance-IsSound :
      (c : Core X)
      → IsSound U c
      → (c' : Core X) × (performance_and_sync_update env c ≡ some c')
        × IsSound U c'
        × (c'.hart ≡ record (c.hart) { lr_sc_counter = count_down env c.hart.lr_sc_counter })
        × (c'.total_num_instr ≡ (c.total_num_instr + 1) % 2 ^ 64)
  unfolding performance_and_sync_update accounted charged counted
  performance-IsSound c s = by_build env.pipeline_timing
    where
      by_build :
          (timed : Bool)
          → (c' : Core X) × ((if timed
                then (advance (pos 1) c.pipeline >>= λ p. some (accounted env c p))
                else some (charged env c))
              ≡ some c')
            × IsSound U c'
            × (c'.hart ≡ record (c.hart) { lr_sc_counter = count_down env c.hart.lr_sc_counter })
            × (c'.total_num_instr ≡ (c.total_num_instr + 1) % 2 ^ 64)
      by_build true =
          let (p, e, v, _) = advance-IsValid 1 c.pipeline (omega arith) s.pipeline in
          (
            accounted env c p,
            ap (λ m. m >>= λ p. some (accounted env c p)) e,
            record { zero_register = s.zero_register; pipeline = v; units = s.units },
            refl,
            refl,
          )
      by_build false = (
        charged env c,
        refl,
        record { zero_register = s.zero_register; pipeline = s.pipeline; units = s.units },
        refl,
        refl,
      )

  -- A step that returns leaves a zero in x0, the pipeline well-formed and an invariant of the units,
  -- if it was so before and the instructions keep the last two, whatever they write to x0.
  pub run_step-IsSound :
      (c c' : Core X) → KeepsPipeline U env → IsSound U c → run_step env c ≡ some c' → IsSound U c'
  unfolding run_step settled
  run_step-IsSound c c' keeps s e = elim (Bool-cases (c.debug_mode && c.breakpoints c.hart.pc)) [
    | inl stop ↦
        subst (IsSound U) (some_same (stopped stop))
          (record { zero_register = s.zero_register; pipeline = s.pipeline; units = s.units })
    | inr go_on ↦
        stepped (finish_instruction env (env.exec_step started))
          (λ c1 run.
            finish_instruction-pipeline (env.exec_step started) c1
              (keeps started s.pipeline s.units) run)
          (running go_on)
  ]
    where
      started : Core X
      started = record c { hart = record (c.hart) { last_pc = c.hart.pc } }

      stopped :
          (c.debug_mode && c.breakpoints c.hart.pc) ≡ true
          → some (record c { status = hit_breakpoint }) ≡ some c'
      stopped stop = rw (s.zero_register, stop) at e

      running :
          (c.debug_mode && c.breakpoints c.hart.pc) ≡ false
          → (finish_instruction env (env.exec_step started) >>= λ c1.
              performance_and_sync_update env (settled env c1))
            ≡ some c'
      running go_on = rw (s.zero_register, go_on) at e

      stepped :
          (m : Option (Core X))
          → ((c1 : Core X) → m ≡ some c1 → IsKept U c1)
          → (m >>= λ c1. performance_and_sync_update env (settled env c1)) ≡ some c'
          → IsSound U c'
      stepped none v e = absurd (no_value e)
      stepped (some c1) v e =
          let sound : IsSound U (settled env c1) = record {
            zero_register = refl;
            pipeline = (v c1 refl).0;
            units = (v c1 refl).1;
          } in
          let (c2, run, after, _, _) = performance-IsSound (settled env c1) sound in
          subst (IsSound U) (some_same (sym run ∙ e)) after

  -- An instruction that traps, away from a breakpoint and with a value of 32 bits, leads in the same
  -- step to the handler at the level that the delegation registers give. The step returns, with the
  -- core sound and one instruction counted, and the handler returns to the instruction that trapped.
  -- The instruction is asked to leave `last_pc` and the number of instructions alone.
  pub run_step-trap :
      (c c1 : Core X) (e : SimulationTrap)
      → KeepsPipeline U env
      → IsSound U c
      → (c.debug_mode && c.breakpoints c.hart.pc) ≡ false
      → env.exec_step (record c { hart = record (c.hart) { last_pc = c.hart.pc } }) ≡ raised e c1
      → c1.hart.last_pc ≡ c.hart.pc
      → c1.total_num_instr ≡ c.total_num_instr
      → e.mtval < 2 ^ 32
      → (c' : Core X) × (run_step env c ≡ some c')
        × IsSound U c'
        × (c'.hart.prv ≡ trap_level e c1.hart)
        × ((return_from_trap_handler (trap_level e c1.hart) c'.hart).pc ≡ c.hart.pc)
        × (c'.total_num_instr ≡ (c.total_num_instr + 1) % 2 ^ 64)
  unfolding run_step settled finish_instruction return_from_trap_handler
  run_step-trap c c1 e keeps s free raises place count fits =
      let (h, taken, _, entered, _, _) = take_trap-return env.release e c1.hart fits in
      let c2 = settled env (record c1 { hart = h }) in
      let valid : IsKept U c1 =
        subst (OutcomeIsKept U) raises (
          keeps (record c { hart = record (c.hart) { last_pc = c.hart.pc } }) s.pipeline s.units) in
      let (c', run, sound, hart, counts) =
        performance-IsSound c2
          (record { zero_register = refl; pipeline = valid.0; units = valid.1 }) in
      (
        c',
        rw (s.zero_register, free, raises, taken) run,
        sound,
        ap (λ (h : Hart). h.prv) hart ∙ entered.level,
        ap (λ h. (return_from_trap_handler (trap_level e c1.hart) h).pc) hart
            ∙ back (trap_level e c1.hart) h _
            ∙ entered.back_pc
            ∙ place,
        counts ∙ ap (λ n. (n + 1) % 2 ^ 64) count,
      )
    where
      back :
          (l : PrivilegeLevel) (h : Hart) (n : ℕ)
          → (return_from_trap_handler l (record h { lr_sc_counter = n })).pc
            ≡ (return_from_trap_handler l h).pc
      back user_mode h n = refl
      back supervisor_mode h n = refl
      back machine_mode h n = refl
