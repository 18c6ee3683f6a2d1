-- ===== src/Firmware/Driver/Protocol.antt =====
-- The exchange between the driver of RISCV-VP/sm_tlm_uart/sm3.h and the bridge.
use vcil.Prelude.{
  ℕ, zero, suc, ◌+◌, ◌/◌, ◌%◌, ◌<◌, ◌≤◌, ◌≡◌, refl, ◌∙◌, ap, Option, none, some, ◌==◌, arith,
  Bool-cases, inl, inr,
}
use vcil.Timing.Assert.{◌>>=◌}
use vcil.Bridge.{Port, Bridge, Response, ok_response, sm4_write, sm4_read, buffer_word, b_transport}
use vcil.Bridge.Writes.{sm4_write-state, sm4_write-Returns, state_after, IsResponsive}
use vcil.Firmware.Driver.{
  le, write_reg32, read_reg32, spin, write_step, run_instruction, mod_poll, mod_read, addr_state,
}

-- The bus, for the range of the bridge (0x50004000 to 0x50004018).
abbrev pub IsMapping : (ℕ → ℕ) → Type 0
IsMapping translate = (offset : ℕ) → offset ≤ 0x18 → translate (0x50004000 + offset) ≡ offset

module _ {D : Type 0} (port : Port D) (fuel : ℕ) where
  -- The five writes alone, and the word that is in the buffer then.
  pub exchange : ℕ → ℕ → ℕ → Bridge D → Option (ℕ × Bridge D)
  exchange code rs1 rs2 b = sm4_write port fuel 0x00 code b >>= λ b1.
      sm4_write port fuel 0x04 rs1 b1 >>= λ b2. sm4_write port fuel 0x08 rs2 b2 >>= λ b3.
      sm4_write port fuel 0x0c mod_poll b3 >>= λ b4.
      sm4_write port fuel 0x10 mod_read b4 >>= λ b5. some (buffer_word b5.read_buff, b5)

  spin_self :
      (translate : ℕ → ℕ) (n step : ℕ) (b : Bridge D)
      → spin port translate fuel n step le step b ≡ some step
  unfolding spin
  spin_self translate zero step b = ground arith
  spin_self translate (suc n) step b = ground arith

  -- The loop ends at once in a bridge whose state is the one awaited.
  spin_lem :
      (translate : ℕ → ℕ) (n step rdata : ℕ) (b : Bridge D)
      → IsMapping translate
      → 0 < n
      → b.state ≡ step
      → spin port translate fuel n step le rdata b ≡ some step
  unfolding spin read_reg32 b_transport sm4_read
  spin_lem translate zero step rdata b m h e = absurd (omega arith)
  spin_lem translate (suc n) step rdata b m h e =
      let at_state : translate addr_state ≡ 0x18 = m 0x18 (omega arith) in
      let there : spin port translate fuel n step le step b ≡ some step =
        spin_self translate n step b in
      elim (Bool-cases (rdata == step)) [
        | inl now ↦ ground (arith, now)
        | inr other ↦
            rw (other, at_state) (ap (λ t. spin port translate fuel n step le t b) e ∙ there)
      ]

  state_after_lem :
      (offset s : ℕ) → offset ≤ 0x10 → offset % 4 ≡ 0 → state_after offset s ≡ offset / 4 + 1
  unfolding state_after
  state_after_lem offset s l e = ground arith

  write_reg32_lem :
      (translate : ℕ → ℕ) (addr value : ℕ) (b : Bridge D)
      → write_reg32 port translate fuel addr value le b
        ≡ sm4_write port fuel (translate addr) value b
  unfolding write_reg32 b_transport
  write_reg32_lem translate addr value b = go (sm4_write port fuel (translate addr) value b)
    where
      drop_response : Response × ℕ × Bridge D → Option (Bridge D)
      drop_response (_, _, b') = some b'

      go :
          (w : Option (Bridge D))
          → (w >>= (λ b'. some (ok_response, value, b')) >>= drop_response) ≡ w
      go none = refl
      go (some b') = refl

  write_step_lem :
      {C : Type 0} (translate : ℕ → ℕ) (offset value rdata : ℕ) (b : Bridge D)
      (k : ℕ × Bridge D → Option C) (g : Bridge D → Option C)
      → IsMapping translate
      → 0 < fuel
      → offset ≤ 0x10
      → offset % 4 ≡ 0
      → ((b' : Bridge D) → k (offset / 4 + 1, b') ≡ g b')
      → (write_step port translate fuel (0x50004000 + offset) value (offset / 4 + 1) le (rdata, b)
          >>= k)
        ≡ (sm4_write port fuel offset value b >>= g)
  unfolding write_step
  write_step_lem {C = C} translate offset value rdata b k g m f l even h =
      rw (write_reg32_lem translate (0x50004000 + offset) value b, m offset (omega arith))
        (go (sm4_write port fuel offset value b) (λ b' e.
          spin_lem translate fuel (offset / 4 + 1) rdata b' m f (
            sm4_write-state port fuel offset value b b' e ∙ state_after_lem offset b.state l even)))
    where
      go :
          (w : Option (Bridge D))
          → ((b' : Bridge D)
              → w ≡ some b'
              → spin port translate fuel fuel (offset / 4 + 1) le rdata b' ≡ some (offset / 4 + 1))
          → (w
              >>= (λ b'.
                  spin port translate fuel fuel (offset / 4 + 1) le rdata b' >>= λ r. some (r, b'))
              >>= k)
            ≡ (w >>= g)
      go none s = refl
      go (some b') s = rw (s b' refl) (h b')

  -- On a little-endian machine (the mode `le`), on a bus that maps the bridge and with some fuel, an
  -- instruction issued by the driver does what the five writes to the bridge do and returns the word
  -- in its buffer, whatever the uninitialised variable holds: the loops on `addr_state` end with one
  -- turn of fuel.
  pub run_instruction-exchange :
      (translate : ℕ → ℕ) (code rs1 rs2 rdata : ℕ) (b : Bridge D)
      → IsMapping translate
      → 0 < fuel
      → run_instruction port translate fuel code rs1 rs2 le rdata b ≡ exchange code rs1 rs2 b
  unfolding run_instruction exchange read_reg32 b_transport sm4_read
  run_instruction-exchange translate code rs1 rs2 rdata b m f =
      write_step_lem translate 0x00 code rdata b _ _ m f (omega arith) refl (λ b1.
        write_step_lem translate 0x04 rs1 1 b1 _ _ m f (omega arith) refl (λ b2.
          write_step_lem translate 0x08 rs2 2 b2 _ _ m f (omega arith) refl (λ b3.
            write_step_lem translate 0x0c mod_poll 3 b3 _ _ m f (omega arith) refl (λ b4.
              write_step_lem translate 0x10 mod_read 4 b4 _ _ m f (omega arith) refl
                (λ b5. rw (m 0x14 (omega arith)) refl)))))

  -- With a device that answers every request within `n` reads and gets ready in fewer requests than the
  -- fuel, on a bus that maps the bridge, an instruction returns the word in the buffer, and the bridge
  -- is in the state 5, whatever the uninitialised variable holds.
  pub run_instruction-returns :
      (translate : ℕ → ℕ) (n code rs1 rs2 rdata : ℕ) (remaining : D → ℕ) (b : Bridge D)
      → IsMapping translate
      → IsResponsive port n remaining
      → n ≤ fuel
      → ((d : D) → remaining d < fuel)
      → (b' : Bridge D) × (run_instruction port translate fuel code rs1 rs2 le rdata b
          ≡ some (buffer_word b'.read_buff, b'))
        × (b'.state ≡ 5)
  unfolding exchange
  run_instruction-returns translate n code rs1 rs2 rdata remaining b m d l h =
      let write = λ (addr value : ℕ) (b : Bridge D).
        sm4_write-Returns port n fuel addr value remaining b d l (h (port.connect b.peer)) in
      let (b1, e1) = write 0x00 code b in
      let (b2, e2) = write 0x04 rs1 b1 in
      let (b3, e3) = write 0x08 rs2 b2 in
      let (b4, e4) = write 0x0c mod_poll b3 in
      let (b5, e5) = write 0x10 mod_read b4 in
      let positive : 0 < fuel = omega (arith, h b.peer) in
      (
        b5,
        run_instruction-exchange translate code rs1 rs2 rdata b m positive
            ∙ rw (e1, e2, e3, e4, e5) refl,
        sm4_write-state port fuel 0x10 mod_read b4 b5 e5
            ∙ state_after_lem 0x10 b4.state (omega arith) refl,
      )
