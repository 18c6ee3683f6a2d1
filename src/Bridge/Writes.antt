-- ===== src/Bridge/Writes.antt =====
-- Writes to the bridge, `SM4_write` of RISCV-VP/Bridge_Socket_Uart.cpp.
use vcil.Prelude.{
  ℕ, zero, suc, ◌+◌, ◌*◌, ◌/◌, ◌%◌, ◌<◌, ◌≤◌, ◌≡◌, ◌≢◌, ◌⊎◌, inl, inr, refl, ap, sym, ◌∙◌, Bool,
  true, false, Option, none, some, List, [], ◌∷◌, get_or, set, ◌==◌, if◌then◌else◌, bit_and, u8,
  arith, Bool-cases, subst, lt-cases, ◌&&◌, leb,
}
use vcil.Timing.Assert.{◌>>=◌}
use vcil.Nice.Link.{ReadResult, got, filled, bytes_of}
use vcil.Bridge.Replies.{reply, await_read-reply}
use vcil.Bridge.{
  Port, Bridge, await_read, transact, write_word, write_poll, write_read, request_ready, sm4_write,
}

-- The value of `state` after a write.
unfoldable pub state_after : ℕ → ℕ → ℕ
state_after addr s = if addr % 4 == 0 && leb addr 0x10 then addr / 4 + 1 else s

-- The addresses that `SM4_write` tells apart.
module _ {D : Type 0} (port : Port D) where
  if_some :
      (t : Bool) (x : Bridge D) (m : Option (Bridge D)) (y : Bridge D)
      → (if t then some x else m) ≡ some y
      → (y ≡ x) ⊎ (m ≡ some y)
  if_some true x m y e = inl cc
  if_some false x m y e = inr e

  step-state :
      (m : Option (Bridge D)) (k : ℕ) (b' : Bridge D)
      → (m >>= λ x. some (record x { state = k })) ≡ some b'
      → b'.state ≡ k
  step-state none k b' e = cc
  step-state (some x) k b' e = cc

  bind-state :
      (m : Option (Bridge D)) (k : Bridge D → Option (Bridge D)) (b' : Bridge D)
      → ((x : Bridge D) → k x ≡ some b' → b'.state ≡ 4)
      → (m >>= k) ≡ some b'
      → b'.state ≡ 4
  bind-state none k b' h e = cc
  bind-state (some x) k b' h e = h x e

  request_ready-state :
      (fuel tries : ℕ) (b b' : Bridge D) → request_ready port fuel tries b ≡ some b' → b'.state ≡ 4
  unfolding request_ready
  request_ready-state fuel zero b b' e =
      elim (if_some (get_or b.read_buff 0 0 == 1) (record b { state = 4 }) none b' e) [
        | inl same ↦ ap (λ x. x.state) same
        | inr other ↦ cc
      ]
  request_ready-state fuel (suc tries) b b' e =
      let m =
        await_read port fuel 1
          (record b { peer = port.send (get_or b.write_buff 0 0 ∷ []) b.peer }) in
      let rest = m >>= λ x. request_ready port fuel tries x in
      elim (if_some (get_or b.read_buff 0 0 == 1) (record b { state = 4 }) rest b' e) [
        | inl same ↦ ap (λ x. x.state) same
        | inr other ↦
            bind-state m (λ x. request_ready port fuel tries x) b'
              (λ x o. request_ready-state fuel tries x b' o) other
      ]

  abbrev IsElsewhere : ℕ → Type 0
  IsElsewhere addr = (addr % 4 ≢ 0) ⊎ (0x10 < addr)

  at_target {ℓ} :
      {P : ℕ → Type ℓ} (addr : ℕ)
      → P 0x00
      → P 0x04
      → P 0x08
      → P 0x0c
      → P 0x10
      → ((a : ℕ) → IsElsewhere a → P a)
      → P addr
  at_target {P = P} addr p0 p1 p2 p3 p4 other = elim (lt-cases 0x10 addr) [
    | inl out ↦ other addr (inr out)
    | inr l ↦ elim (Bool-cases (addr % 4 == 0)) [
      | inr odd ↦ other addr (inl (ground arith))
      | inl even ↦
          let e : addr / 4 * 4 ≡ addr = ground arith in subst P e (go (addr / 4) (omega arith))
    ]
  ]
    where
      go : (k : ℕ) → k ≤ 4 → P (k * 4)
      go zero h = p0
      go (suc zero) h = p1
      go (suc (suc zero)) h = p2
      go (suc (suc (suc zero))) h = p3
      go (suc (suc (suc (suc zero)))) h = p4
      go (suc (suc (suc (suc (suc k))))) h = absurd (omega arith)

  sm4_write-elsewhere :
      (fuel addr value : ℕ) (b : Bridge D)
      → (addr % 4 ≢ 0) ⊎ (0x10 < addr)
      → sm4_write port fuel addr value b ≡ some b
  unfolding sm4_write
  sm4_write-elsewhere fuel addr value b (inl h) = ground arith
  sm4_write-elsewhere fuel addr value b (inr h) = ground arith

  state_after-elsewhere : (addr s : ℕ) → IsElsewhere addr → state_after addr s ≡ s
  unfolding state_after
  state_after-elsewhere addr s (inl h) = ground arith
  state_after-elsewhere addr s (inr h) = ground arith

  -- A write that returns leaves in `state` the number of the register that it went to, from 1; a write
  -- to an address that is none of the five registers leaves `state` as it was.
  pub sm4_write-state :
      (fuel addr value : ℕ) (b b' : Bridge D)
      → sm4_write port fuel addr value b ≡ some b'
      → b'.state ≡ state_after addr b.state
  unfolding sm4_write write_word write_poll write_read state_after
  sm4_write-state fuel addr value b b' e =
      let low = u8 (bit_and value 0xff) in
      at_target
        {P = λ a. sm4_write port fuel a value b ≡ some b' → b'.state ≡ state_after a b.state} addr
        (step-state
          (transact port fuel (bytes_of value) 1 (record b { write_buff = bytes_of value })) 1 b')
        (step-state
          (transact port fuel (bytes_of value) 1 (record b { write_buff = bytes_of value })) 2 b')
        (step-state
          (transact port fuel (bytes_of value) 1 (record b { write_buff = bytes_of value })) 3 b')
        (request_ready-state fuel fuel
          (record b {
            read_buff = set b.read_buff 0 0;
            write_buff = set b.write_buff 0 low;
            peer = port.connect b.peer;
          })
          b')
        (step-state
          (transact port fuel (low ∷ []) 5 (record b { write_buff = set b.write_buff 0 low })) 5 b')
        (λ a h e.
          let same : some b ≡ some b' = sym (sm4_write-elsewhere fuel a value b h) ∙ e in
          let here : b' ≡ b = cc in
          ap (λ x. x.state) here ∙ sym (state_after-elsewhere a b.state h))
        e

  -- The device answers every request within `n` reads, and answers 1 to a request byte, after
  -- `remaining` requests at most that it answers otherwise.
  pub record IsResponsive (n : ℕ) (remaining : D → ℕ) : Type 0 where
    pub answers :
        (bytes : List ℕ) (size : ℕ) (d : D)
        → (r : ReadResult) × (d' : D) × (reply port n size (port.send bytes d) ≡ some (r, d'))
    pub ready :
        (byte : ℕ) (d d' : D) (r : ReadResult)
        → reply port n 1 (port.send (byte ∷ []) d) ≡ some (r, d')
        → ((bs : List ℕ) × (r ≡ got (1 ∷ bs))) ⊎ (remaining d' < remaining d)

  -- A write that returns.
  abbrev pub Returns : Option (Bridge D) → Type 0
  Returns m = (b' : Bridge D) × (m ≡ some b')

  one_head :
      (r : ReadResult) (bs buff buff' : List ℕ)
      → r ≡ got (1 ∷ bs)
      → buff' ≡ filled r buff
      → get_or buff' 0 0 ≡ 1
  unfolding filled
  one_head r bs buff buff' e read = rw (read, e) refl

  request_ready-Returns :
      (n fuel tries : ℕ) (remaining : D → ℕ) (b : Bridge D)
      → IsResponsive n remaining
      → n ≤ fuel
      → (get_or b.read_buff 0 0 ≡ 1) ⊎ (remaining b.peer < tries)
      → Returns (request_ready port fuel tries b)
  unfolding request_ready
  request_ready-Returns n fuel zero remaining b d l (inl h) = (record b { state = 4 }, rw h refl)
  request_ready-Returns n fuel zero remaining b d l (inr h) = absurd (omega arith)
  request_ready-Returns n fuel (suc tries) remaining b d l h =
      let request = get_or b.write_buff 0 0 in
      let (r, d', e) = d.answers (request ∷ []) 1 b.peer in
      let (b1, run, read) =
        await_read-reply port n fuel 1 (record b { peer = port.send (request ∷ []) b.peer }) r d' l
          e in
      elim (Bool-cases (get_or b.read_buff 0 0 == 1)) [
        | inl done ↦ (record b { state = 4 }, rw done refl)
        | inr busy ↦
            let (b2, go) =
              request_ready-Returns n fuel tries remaining b1 d l
                (elim (d.ready request b.peer d' r e) [
                  | inl (bs, one) ↦ inl (one_head r bs read.buff b1.read_buff one read.read)
                  | inr less ↦ elim h [
                    | inl now ↦ absurd (ground arith)
                    | inr bound ↦
                        inr (subst (λ t. remaining t < tries) (sym read.peer) (omega arith))
                  ]
                ]) in
            (b2, rw (busy, run) go)
      ]

  -- If the device answers every request within `n` reads, and a request byte with 1 or with a step
  -- towards it, then a write to any address returns, with fuel for `n` reads and for more requests
  -- than the device has steps to go when it is opened.
  pub sm4_write-Returns :
      (n fuel addr value : ℕ) (remaining : D → ℕ) (b : Bridge D)
      → IsResponsive n remaining
      → n ≤ fuel
      → remaining (port.connect b.peer) < fuel
      → Returns (sm4_write port fuel addr value b)
  unfolding sm4_write write_word write_poll write_read transact
  sm4_write-Returns n fuel addr value remaining b d l h =
      at_target {P = λ a. Returns (sm4_write port fuel a value b)} addr (word 1) (word 2) (word 3)
        (request_ready-Returns n fuel fuel remaining
          (record b {
            read_buff = set b.read_buff 0 0;
            write_buff = set b.write_buff 0 (u8 (bit_and value 0xff));
            peer = port.connect b.peer;
          })
          d l (inr h))
        (transact-returns 5 (u8 (bit_and value 0xff) ∷ []) 5
          (record b { write_buff = set b.write_buff 0 (u8 (bit_and value 0xff)) }))
        (λ a o. (b, sm4_write-elsewhere fuel a value b o))
    where
      transact-returns :
          (step : ℕ) (bytes : List ℕ) (size : ℕ) (b : Bridge D)
          → Returns (transact port fuel bytes size b >>= λ x. some (record x { state = step }))
      transact-returns step bytes size b =
          let (r, d', e) = d.answers bytes size (port.connect b.peer) in
          let (b1, run, _) =
            await_read-reply port n fuel size
              (record b { peer = port.send bytes (port.connect b.peer) }) r d' l e in
          (record b1 { state = step }, rw run refl)

      word : (step : ℕ) → Returns (write_word port fuel step value b)
      word step =
          transact-returns step (bytes_of value) 1 (record b { write_buff = bytes_of value })
