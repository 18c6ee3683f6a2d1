-- ===== src/Bridge.antt =====
-- The bridge between the bus and the serial port, RISCV-VP/Bridge_Socket_Uart.cpp. What is at the
-- other end of the port is the parameter `port`: its state, what opening the device (`open_dev` and
-- `set_dev`, which flush it) and POSIX `write` do to it, and what each `read` returns. The loops
-- that wait for it take fuel, and `none` means that it has not answered within that many turns.
pub mod Replies
pub mod Writes
pub mod Examples
use vcil.Prelude.{
  ℕ, zero, suc, ◌+◌, ◌-◌, ◌*◌, ◌/◌, ◌%◌, ◌^◌, ◌≡◌, refl, Bool, true, false, Option, none, some,
  List, [], ◌∷◌, length, get_or, set, ltb, ◌==◌, if◌then◌else◌, bit_and, u8, u32, shl32, shr,
}
use vcil.Timing.Assert.{◌>>=◌}
use vcil.Nice.Link.{ReadResult, got, failed, filled, bytes_of}

pub record Port (D : Type 0) : Type 0 where
  pub connect : D → D
  pub send : List ℕ → D → D
  pub receive : ℕ → D → ReadResult × D

-- The members of `Bridge_Socket_Uart` that the transactions use, and the other end of the port.
pub record Bridge (D : Type 0) : Type 0 where
  pub nread : ℕ
  pub write_buff : List ℕ
  pub read_buff : List ℕ
  pub state : ℕ
  pub peer : D

pub data Command : Type 0 where
  write_command read_command ignore_command : Command

pub data Response : Type 0 where
  ok_response command_error_response : Response

-- The value of `read` as a `uint8_t`.
pub read_count8 : ReadResult → ℕ
read_count8 (got bytes) = u8 (length bytes)
read_count8 failed = u8 (2 ^ 32 - 1)

module _ {D : Type 0} (port : Port D) where
  -- `while (1) { nread = read(fd, read_buff, size); if (nread > 0) break; }`
  unfoldable pub await_read : ℕ → ℕ → Bridge D → Option (Bridge D)
  unfolding read_count8 filled
  await_read zero size b = none
  await_read (suc fuel) size b =
      let (r, d) = port.receive size b.peer in
      let b' = record b { nread = read_count8 r; read_buff = filled r b.read_buff; peer = d } in
      let rest = await_read fuel size b' in if ltb 0 (read_count8 r) then some b' else rest

  -- Open the device, send the whole of `bytes` from the buffer, and wait for an answer.
  unfoldable pub transact : ℕ → List ℕ → ℕ → Bridge D → Option (Bridge D)
  unfolding await_read
  transact fuel bytes size b =
      await_read fuel size (record b { peer = port.send bytes (port.connect b.peer) })

  -- The branches for the addresses 0x00, 0x04 and 0x08, which differ in the state they reach.
  unfoldable pub write_word : ℕ → ℕ → ℕ → Bridge D → Option (Bridge D)
  unfolding transact bytes_of
  write_word fuel step value b =
      transact fuel (bytes_of value) 1 (record b { write_buff = bytes_of value }) >>= λ b'.
      some (record b' { state = step })

  -- The loop of the branch for 0x0c: send the byte until the device answers 1.
  unfoldable pub request_ready : ℕ → ℕ → Bridge D → Option (Bridge D)
  unfolding await_read
  request_ready fuel zero b =
      if get_or b.read_buff 0 0 == 1 then some (record b { state = 4 }) else none
  request_ready fuel (suc tries) b =
      let rest =
        await_read fuel 1 (record b { peer = port.send (get_or b.write_buff 0 0 ∷ []) b.peer })
        >>= λ b'. request_ready fuel tries b' in
      if get_or b.read_buff 0 0 == 1 then some (record b { state = 4 }) else rest

  -- The branch for 0x0c.
  unfoldable pub write_poll : ℕ → ℕ → Bridge D → Option (Bridge D)
  unfolding request_ready
  write_poll fuel low b = request_ready fuel fuel (record b {
    read_buff = set b.read_buff 0 0;
    write_buff = set b.write_buff 0 low;
    peer = port.connect b.peer;
  })

  -- The branch for 0x10.
  unfoldable pub write_read : ℕ → ℕ → Bridge D → Option (Bridge D)
  unfolding transact
  write_read fuel low b =
      transact fuel (low ∷ []) 5 (record b { write_buff = set b.write_buff 0 low }) >>= λ b'.
      some (record b' { state = 5 })

  -- `SM4_write`. The fuel bounds each wait for an answer and the number of requests at 0x0c.
  unfoldable pub sm4_write : ℕ → ℕ → ℕ → Bridge D → Option (Bridge D)
  unfolding write_word write_poll write_read
  sm4_write fuel addr value b =
      let low = u8 (bit_and value 0xff) in
      if addr == 0x00
      then write_word fuel 1 value b
      else (if addr == 0x04
          then write_word fuel 2 value b
          else (if addr == 0x08
              then write_word fuel 3 value b
              else (if addr == 0x0c
                  then write_poll fuel low b
                  else (if addr == 0x10 then write_read fuel low b else some b))))

-- The word that the first four bytes of `read_buff` make.
pub buffer_word : List ℕ → ℕ
buffer_word r = u32 (
    bit_and (shl32 (get_or r 0 0) 24) 0xff000000
    + bit_and (shl32 (get_or r 1 0) 16) 0x00ff0000
    + bit_and (shl32 (get_or r 2 0) 8) 0x0000ff00
    + bit_and (get_or r 3 0) 0xff)

-- `SM4_read` into a location that holds `value`.
unfoldable pub sm4_read : {D : Type 0} → ℕ → ℕ → Bridge D → ℕ
unfolding buffer_word
sm4_read addr value b =
    if addr == 0x18 then b.state else (if addr == 0x14 then buffer_word b.read_buff else value)

-- `b_transport`: the response, the value and the bridge after it.
unfoldable pub b_transport :
    {D : Type 0} → Port D → ℕ → Command → ℕ → ℕ → Bridge D → Option (Response × ℕ × Bridge D)
unfolding sm4_write sm4_read
b_transport port fuel write_command addr value b =
    sm4_write port fuel addr value b >>= λ b'. some (ok_response, value, b')
b_transport port fuel read_command addr value b = some (ok_response, sm4_read addr value b, b)
b_transport port fuel ignore_command addr value b = some (command_error_response, value, b)
