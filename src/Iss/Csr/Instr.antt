-- ===== src/Iss/Csr/Instr.antt =====
-- The six instructions on control and status registers in `exec_step`, in the build with
-- `PIPELINE_TIMING` and in the one without, apart from the calls that time the pipeline.
use vcil.Prelude.{
  ℕ, ◌/◌, ◌^◌, ◌≡◌, ◌≢◌, ◌⊎◌, inl, inr, refl, Bool, true, false, not, ◌&&◌, ◌||◌, Option, none,
  some, ◌==◌, if◌then◌else◌, bit_and, bit_or, not32, arith, ap, ◌∙◌,
}
use vcil.Timing.Assert.{◌>>◌, assert}
use vcil.Firmware.Arrays.{Array, put}
use vcil.Iss.{PrivilegeLevel}
use vcil.Iss.Csr.{
  Build, plain_build, pipeline_build, Address, mcycle_a, mcycleh_a, cycles, read_named, Words,
  Headers, is_invalid_csr_access, get_csr_value, set_csr_value,
}

-- The last operand is the register `rs1` or the immediate `zimm`.
pub data CsrOp : Type 0 where
  csrrw csrrs csrrc csrrwi csrrsi csrrci : CsrOp

-- The registers and the words after the instruction, or when it raises the trap for an illegal
-- instruction.
pub data CsrResult : Type 0 where
  finished illegal : Array → Words → CsrResult

abbrev pub is_immediate : CsrOp → Bool
is_immediate csrrwi = true
is_immediate csrrsi = true
is_immediate csrrci = true
is_immediate _ = false

-- Whether the instruction replaces the register, whatever its source.
abbrev pub replaces : CsrOp → Bool
replaces csrrw = true
replaces csrrwi = true
replaces _ = false

-- The variable `write`.
abbrev pub writes : CsrOp → ℕ → Bool
writes op src = replaces op || not (src == 0)

-- The second argument of `is_invalid_csr_access`.
pub checked_as_write : Build → CsrOp → ℕ → Bool
checked_as_write pipeline_build csrrsi src = true
checked_as_write pipeline_build csrrci src = true
checked_as_write _ op src = writes op src

abbrev pub new_value : CsrOp → ℕ → ℕ → ℕ
new_value csrrs old x = bit_or old x
new_value csrrsi old x = bit_or old x
new_value csrrc old x = bit_and old (not32 x)
new_value csrrci old x = bit_and old (not32 x)
new_value _ old x = x

abbrev if_valid : Option Bool → CsrResult → CsrResult → CsrResult
if_valid (some false) x y = x
if_valid _ x y = y

nonzero : (n : ℕ) → n ≢ 0 → (n == 0) ≡ false
nonzero n h = ground arith

abbrev pub to_rd : ℕ → ℕ → Array → Array
to_rd rd x regs = if rd == 0 then regs else put regs rd x

module _ (hd : Headers) where
  -- The call of `set_csr_value` at the end.
  pub store_result : ℕ → ℕ → Array → Words → CsrResult
  store_result addr value regs s = elim (set_csr_value hd addr value s) [
    | some s' ↦ finished regs s'
    | none ↦ illegal regs s
  ]

  -- The branch of an access that the check lets through. CSRRW and CSRRWI read the register only if
  -- it goes somewhere.
  pub access : Build → PrivilegeLevel → CsrOp → ℕ → ℕ → ℕ → Array → Words → CsrResult
  unfolding store_result
  access build prv op addr rd src regs s =
      let x = if is_immediate op then src else regs src in
      if replaces op && rd == 0
      then store_result addr x regs s
      else elim (get_csr_value hd build prv addr s) [
        | none ↦ illegal regs s
        | some (old, s') ↦
            if writes op src
            then store_result addr (new_value op old x) (to_rd rd old regs) s'
            else finished (to_rd rd old regs) s'
      ]

  pub exec_csr : Build → PrivilegeLevel → CsrOp → ℕ → ℕ → ℕ → Array → Words → CsrResult
  unfolding access checked_as_write is_invalid_csr_access
  exec_csr build prv op addr rd src regs s =
      if_valid (is_invalid_csr_access hd prv addr (checked_as_write build op src))
        (access build prv op addr rd src regs s) (illegal regs s)

  if_given :
      (f h a b : Bool)
      → (if f then assert h >> some a else some a) ≡ some false
      → (if f then assert h >> some b else some b) ≡ some b
  if_given true true a b e = refl
  if_given true false a b e = cc
  if_given false h a b e = refl

  write_invalid :
      (prv : PrivilegeLevel) (addr : ℕ)
      → bit_and 0xC00 addr / 2 ^ 10 ≡ 3
      → is_invalid_csr_access hd prv addr false ≡ some false
      → is_invalid_csr_access hd prv addr true ≡ some true
  unfolding is_invalid_csr_access
  write_invalid prv addr ro ok = rw ro (if_given _ hd.has_f _ true ok)

  -- Where the builds read the same cycles, they read every register alike.
  read_named-builds :
      (a : Address) (addr : ℕ) (s : Words)
      → ((a ≢ mcycle_a) × (a ≢ mcycleh_a)) ⊎ (hd.current_cycles ≡ hd.num_total_cycles)
      → read_named hd plain_build a addr s ≡ read_named hd pipeline_build a addr s
  unfolding read_named cycles
  read_named-builds a addr s (inl (low, high)) = ground arith
  read_named-builds a addr s (inr same) = rw same refl

  -- The two builds agree on an instruction, with the same registers and words after it or the same
  -- trap, unless it is CSRRSI or CSRRCI with the immediate 0, or it reads the counter of cycles
  -- while the pipeline and the clock have counted differently.
  pub exec_csr-builds :
      (prv : PrivilegeLevel) (op : CsrOp) (addr rd src : ℕ) (regs : Array) (s : Words)
      → (src ≢ 0) ⊎ ((op ≢ csrrsi) × (op ≢ csrrci))
      → ((hd.name addr ≢ mcycle_a) × (hd.name addr ≢ mcycleh_a))
        ⊎ (hd.current_cycles ≡ hd.num_total_cycles)
      → exec_csr plain_build prv op addr rd src regs s
        ≡ exec_csr pipeline_build prv op addr rd src regs s
  unfolding exec_csr access get_csr_value
  exec_csr-builds prv op addr rd src regs s h counts =
      rw (checks op h, read_named-builds (hd.name addr) addr s counts) refl
    where
      checks :
          (op : CsrOp)
          → (src ≢ 0) ⊎ ((op ≢ csrrsi) × (op ≢ csrrci))
          → checked_as_write plain_build op src ≡ checked_as_write pipeline_build op src
      checks csrrw h = refl
      checks csrrs h = refl
      checks csrrc h = refl
      checks csrrwi h = refl
      checks csrrsi (inl h) = rw (nonzero src h) refl
      checks csrrsi (inr h) = absurd (h.0 refl)
      checks csrrci (inl h) = rw (nonzero src h) refl
      checks csrrci (inr h) = absurd (h.1 refl)

  -- CSRRSI with the immediate 0 on a read-only register that may be read: the build with
  -- `PIPELINE_TIMING` raises the trap for an illegal instruction, and the other build reads the
  -- register and goes on.
  pub exec_csr-read_only :
      (prv : PrivilegeLevel) (addr rd old : ℕ) (regs : Array) (s s' : Words)
      → bit_and 0xC00 addr / 2 ^ 10 ≡ 3
      → is_invalid_csr_access hd prv addr false ≡ some false
      → get_csr_value hd plain_build prv addr s ≡ some (old, s')
      → (exec_csr pipeline_build prv csrrsi addr rd 0 regs s ≡ illegal regs s)
        × (exec_csr plain_build prv csrrsi addr rd 0 regs s ≡ finished (to_rd rd old regs) s')
  unfolding exec_csr checked_as_write access
  exec_csr-read_only prv addr rd old regs s s' ro ok read = (
    ap (λ v. if_valid v (access pipeline_build prv csrrsi addr rd 0 regs s) (illegal regs s))
        (write_invalid prv addr ro ok),
    ap (λ v. if_valid v (access plain_build prv csrrsi addr rd 0 regs s) (illegal regs s)) ok
        ∙ rw read refl,
  )
