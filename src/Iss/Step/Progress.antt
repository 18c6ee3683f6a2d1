-- ===== src/Iss/Step/Progress.antt =====
-- `run_step` of RISCV-VP/iss.cpp returns.
use vcil.Prelude.{
  ℕ, zero, suc, true, false, ◌⊎◌, ◌^◌, ◌<◌, ◌≤◌, ◌≡◌, inl, inr, refl, ap, sym, subst, ◌∙◌, Option,
  none, some, ◌&&◌, arith, Bool-cases,
}
use vcil.Timing.Assert.{◌>>=◌}
use vcil.Iss.{PrivilegeLevel, rank, Hart, switch_to_trap_handler}
use vcil.Iss.Return.{take_trap-return, switch-return}
use vcil.Iss.Interrupt.{
  InterruptBit, PendingInterrupts, compute_pending_interrupts, prepare_interrupt,
}
use vcil.Iss.Interrupt.Levels.{compute_pending_interrupts-level}
use vcil.Iss.Interrupt.Pending.{IsNamed, prepare_interrupt-returns}
use vcil.Iss.Step.{
  Core, Outcome, done, raised, aborted, Environment, hit_breakpoint, take_interrupt,
  finish_instruction, settled, run_step, run, is_runnable,
}
use vcil.Iss.Step.Invariant.{
  IsSound, KeepsPipeline, run_step-IsSound, performance-IsSound, finish_instruction-pipeline,
}

-- An instruction that does not abort: it ends, with the bits of `mip` those of interrupts, or raises
-- a trap with a value of 32 bits.
abbrev pub Completes : {X : Type 0} → (InterruptBit → ℕ) → Outcome X → Type 0
Completes position (done c) = IsNamed position c.hart
Completes position (raised e c) = e.mtval < 2 ^ 32
Completes position aborted = ⊥

module _ {X : Type 0} (U : X → Type 0) (env : Environment X) where
  not_below :
      (h : Hart) (x : PendingInterrupts)
      → compute_pending_interrupts h ≡ some x
      → rank h.prv ≤ rank x.target_mode
  not_below h x e = elim (compute_pending_interrupts-level h x e) [
    | inl above ↦ omega arith
    | inr (here, _) ↦ subst (λ (l : PrivilegeLevel). rank h.prv ≤ rank l) here (omega arith)
  ]

  -- An interrupt that is pending after an instruction is taken without a failure.
  pub take_interrupt-returns :
      (h : Hart) → IsNamed env.position h → (h' : Hart) × (take_interrupt env h ≡ some h')
  unfolding take_interrupt
  take_interrupt-returns h named = go (compute_pending_interrupts h) refl
    where
      taken : Option PendingInterrupts → Option Hart
      taken m = elim m [
        | none ↦ some h
        | some x ↦ prepare_interrupt env.position env.exception x h >>= λ h'.
            switch_to_trap_handler env.release x.target_mode h'
      ]

      go :
          (m : Option PendingInterrupts)
          → compute_pending_interrupts h ≡ m
          → (h' : Hart) × (taken m ≡ some h')
      go none e = (h, refl)
      go (some x) e =
          let (h1, prepared, level, _) =
            prepare_interrupt-returns env.position env.exception h x named e in
          let (h2, switched, _) = switch-return env.release x.target_mode h1 (
            subst (λ (l : PrivilegeLevel). rank l ≤ rank x.target_mode) (sym level)
              (not_below h x e)) in
          (
            h2,
            ap (λ m. m >>= λ h'. switch_to_trap_handler env.release x.target_mode h') prepared
                ∙ switched,
          )

  finish_instruction-returns :
      (o : Outcome X)
      → Completes env.position o
      → (c' : Core X) × (finish_instruction env o ≡ some c')
  unfolding finish_instruction
  finish_instruction-returns (done c) w =
      let (h, e) = take_interrupt-returns c.hart w in
      (record c { hart = h }, ap (λ m. m >>= λ h. some (record c { hart = h })) e)
  finish_instruction-returns (raised t c) w =
      let (h, e, _, _, _, _) = take_trap-return env.release t c.hart w in
      (record c { hart = h }, ap (λ m. m >>= λ (_, h). some (record c { hart = h })) e)
  finish_instruction-returns aborted w = absurd w

  -- A step of a sound core whose instruction ends or traps, and does not abort, returns, with the
  -- core sound: no assertion fails and nothing is thrown, neither by the trap, nor by an interrupt
  -- that is pending, nor by the accounting. The bits of `mip` are asked to be those of interrupts
  -- where the instruction ends, the value of its trap to fit in 32 bits, and the instructions to
  -- keep the pipeline.
  pub run_step-returns :
      (c : Core X)
      → KeepsPipeline U env
      → IsSound U c
      → Completes env.position
          (env.exec_step (record c { hart = record (c.hart) { last_pc = c.hart.pc } }))
      → (c' : Core X) × (run_step env c ≡ some c') × IsSound U c'
  unfolding run_step settled
  run_step-returns c keeps s w = elim (Bool-cases (c.debug_mode && c.breakpoints c.hart.pc)) [
    | inl stop ↦ sound (record c { status = hit_breakpoint }) (rw (s.zero_register, stop) refl)
    | inr go_on ↦
        let (c1, e) = finish_instruction-returns (env.exec_step started) w in
        let (v, u) =
          finish_instruction-pipeline U env (env.exec_step started) c1
            (keeps started s.pipeline s.units) e in
        let (c2, run, _, _, _) =
          performance-IsSound U env (settled env c1)
            (record { zero_register = refl; pipeline = v; units = u }) in
        sound c2 (rw (s.zero_register, go_on, e) run)
  ]
    where
      started : Core X
      started = record c { hart = record (c.hart) { last_pc = c.hart.pc } }

      sound :
          (c' : Core X)
          → run_step env c ≡ some c'
          → (c' : Core X) × (run_step env c ≡ some c') × IsSound U c'
      sound c' e = (c', e, run_step-IsSound U env c c' keeps s e)

  -- A number of steps, whatever the status.
  unfoldable pub steps : ℕ → Core X → Option (Core X)
  steps zero c = some c
  steps (suc n) c = run_step env c >>= λ c'. steps n c'

  -- What a run of `n` steps comes to: it ends with the core stopped, or the core runs on after them.
  abbrev pub Continues : ℕ → Core X → Type 0
  Continues n c =
      ((c' : Core X) × (run env n c ≡ some c') × IsSound U c' × (is_runnable c'.status ≡ false))
      ⊎ ((c' : Core X) × (steps n c ≡ some c') × IsSound U c' × (is_runnable c'.status ≡ true))

  -- A run never aborts, if the steps keep a condition under which an instruction completes.
  pub run-Continues :
      (P : Core X → Type 0)
      → KeepsPipeline U env
      → ((c : Core X)
          → P c
          → IsSound U c
          → Completes env.position
              (env.exec_step (record c { hart = record (c.hart) { last_pc = c.hart.pc } })))
      → ((c c' : Core X) → P c → run_step env c ≡ some c' → is_runnable c'.status ≡ true → P c')
      → (n : ℕ) (c : Core X) → P c
      → IsSound U c
      → is_runnable c.status ≡ true
      → Continues n c
  unfolding run steps
  run-Continues P keeps completes stays zero c p s st = inr (c, refl, s, st)
  run-Continues P keeps completes stays (suc n) c p s st =
      let (c1, e, s1) = run_step-returns c keeps s (completes c p s) in
      elim (Bool-cases (is_runnable c1.status)) [
        | inl on ↦
            onward c1 e on (run-Continues P keeps completes stays n c1 (stays c c1 p e on) s1 on)
        | inr off ↦ inl (c1, rw (e, off) refl, s1, off)
      ]
    where
      onward :
          (c1 : Core X)
          → run_step env c ≡ some c1
          → is_runnable c1.status ≡ true
          → Continues n c1
          → Continues (suc n) c
      onward c1 e on (inl (c', ran, s', st')) = inl (c', rw (e, on) ran, s', st')
      onward c1 e on (inr (c', ran, s', st')) = inr (c', rw e ran, s', st')
