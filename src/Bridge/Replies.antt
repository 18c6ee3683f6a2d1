-- ===== src/Bridge/Replies.antt =====
-- The wait for an answer in `SM4_write` of RISCV-VP/Bridge_Socket_Uart.cpp.
use vcil.Prelude.{
  ℕ, zero, suc, ◌≤◌, ◌≡◌, inl, inr, refl, Option, none, some, List, ltb, if◌then◌else◌, arith,
  Bool-cases,
}
use vcil.Nice.Link.{ReadResult, filled}
use vcil.Bridge.{Port, Bridge, read_count8, await_read}

module _ {D : Type 0} (port : Port D) where
  -- The first of `n` reads that the bridge counts as an answer.
  unfoldable pub reply : ℕ → ℕ → D → Option (ReadResult × D)
  reply zero size d = none
  reply (suc n) size d =
      let (r, d') = port.receive size d in
      let rest = reply n size d' in if ltb 0 (read_count8 r) then some (r, d') else rest

  -- `b'` has read the answer `r` after `b`, at the device's state `d`.
  pub record HasRead (r : ReadResult) (d : D) (b b' : Bridge D) : Type 0 where
    pub buff : List ℕ
    pub read : b'.read_buff ≡ filled r buff
    pub peer : b'.peer ≡ d
    pub kept : b'.write_buff ≡ b.write_buff

  pub await_read-reply :
      (n n' size : ℕ) (b : Bridge D) (r : ReadResult) (d : D)
      → n ≤ n'
      → reply n size b.peer ≡ some (r, d)
      → (b' : Bridge D) × (await_read port n' size b ≡ some b') × HasRead r d b b'
  unfolding reply await_read
  await_read-reply zero n' size b r d l e = cc
  await_read-reply (suc n) zero size b r d l e = absurd (omega arith)
  await_read-reply (suc n) (suc n') size b r d l e =
      elim (Bool-cases (ltb 0 (read_count8 (port.receive size b.peer).0))) [
        | inl now ↦
            let r0 = (port.receive size b.peer).0 in
            let d0 = (port.receive size b.peer).1 in
            let hit : ◌≡◌ {A = Option (ReadResult × D)} (some (r0, d0)) (some (r, d)) =
              rw (now) at e in
            (
              record b { nread = read_count8 r0; read_buff = filled r0 b.read_buff; peer = d0 },
              rw now refl,
              record { buff = b.read_buff; read = cc; peer = cc; kept = refl },
            )
        | inr later ↦
            let r0 = (port.receive size b.peer).0 in
            let d0 = (port.receive size b.peer).1 in
            let b0 = record b {
              nread = read_count8 r0;
              read_buff = filled r0 b.read_buff;
              peer = d0;
            } in
            let rest : reply n size d0 ≡ some (r, d) = ground (arith, e, later) in
            let (b', run, read) = await_read-reply n n' size b0 r d (omega arith) rest in
            (
              b',
              rw later run,
              record { buff = read.buff; read = read.read; peer = read.peer; kept = read.kept },
            )
      ]
