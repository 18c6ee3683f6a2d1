-- ===== src/Nice/Link/Exchange.antt =====
-- The instructions of RISCV-VP/nice.h over the serial port, and what the device answers.
pub mod Examples
use vcil.Prelude.{
  ℕ, zero, suc, ◌+◌, ◌^◌, ◌≤◌, ◌<◌, ◌≡◌, refl, ap, sym, ◌∙◌, Option, none, some, List, [], ◌∷◌,
  ◌++◌, length, get_or, drop, ◌==◌, if◌then◌else◌, arith, subst,
}
use vcil.Nice.Cipher.{sm3p0, sm3p1, sm4ks, sm4ed}
use vcil.Nice.Link.{
  ReadResult, got, failed, Device, Nice, read_count, filled, poll, bytes_of, word_of, exchange,
  custom3_sm3p0, custom3_sm3p1, custom3_sm4ks, custom3_sm4ed,
}
use vcil.Nice.Link.Words.{word_of-bytes_of, bytes_of_lem}

-- An instruction of the coprocessor with its operands.
pub data NiceOp : Type 0 where
  p0 p1 : ℕ → NiceOp
  ks ed : ℕ → ℕ → NiceOp

unfoldable pub issue : NiceOp → Device → ℕ → Nice → Option (ℕ × Nice)
unfolding custom3_sm3p0 custom3_sm3p1 custom3_sm4ks custom3_sm4ed
issue (p0 x) device fuel n = custom3_sm3p0 device fuel x n
issue (p1 x) device fuel n = custom3_sm3p1 device fuel x n
issue (ks k tk) device fuel n = custom3_sm4ks device fuel k tk n
issue (ed x tx) device fuel n = custom3_sm4ed device fuel x tx n

-- The ten bytes that the coprocessor is sent.
pub request : NiceOp → List ℕ
request (p0 x) = 0x7b ∷ 0x71 ∷ bytes_of x ++ bytes_of 0
request (p1 x) = 0x7b ∷ 0x72 ∷ bytes_of x ++ bytes_of 0
request (ks k tk) = 0x7b ∷ 0x73 ∷ bytes_of k ++ bytes_of tk
request (ed x tx) = 0x7b ∷ 0x74 ∷ bytes_of x ++ bytes_of tx

-- The `#else` branches: what the instruction is to compute.
unfoldable pub meaning : NiceOp → ℕ
meaning (p0 x) = sm3p0 x
meaning (p1 x) = sm3p1 x
meaning (ks k tk) = sm4ks k tk
meaning (ed x tx) = sm4ed x tx

issue-exchange :
    (op : NiceOp) (device : Device) (fuel : ℕ) (n : Nice)
    → issue op device fuel n ≡ exchange device fuel (request op) n
unfolding issue request bytes_of
issue-exchange (p0 x) device fuel n = refl
issue-exchange (p1 x) device fuel n = refl
issue-exchange (ks k tk) device fuel n = refl
issue-exchange (ed x tx) device fuel n = refl

-- Empty polls leave the buffer alone, and the first other one ends the loop.
poll_lem :
    (k fuel i : ℕ) (answer : ℕ → ReadResult) (buff : List ℕ)
    → k < fuel
    → ((j : ℕ) → j < k → answer (i + j) ≡ got [])
    → 0 < read_count (answer (i + k))
    → poll fuel answer i buff ≡ some (filled (answer (i + k)) buff)
unfolding poll
poll_lem k zero i answer buff h idle ends = absurd (omega arith)
poll_lem zero (suc fuel) i answer buff h idle ends =
    let e : i + 0 ≡ i = omega arith in ground (arith, e, ends)
poll_lem (suc k) (suc fuel) i answer buff h idle ends =
    let e : i + 1 + k ≡ i + suc k = omega arith in
    let now : answer i ≡ got [] = ap answer (i_zero i) ∙ idle 0 (omega arith) in
    rw now (
      poll_lem k fuel (i + 1) answer buff (omega arith)
        (λ j hj. ap answer (i_suc i j) ∙ idle (suc j) (omega arith))
        (subst (λ t. 0 < read_count (answer t)) (sym e) ends)
      ∙ ap (λ t. some (filled (answer t) buff)) e)
  where
    i_zero : (i : ℕ) → i ≡ i + 0
    i_zero i = omega arith

    i_suc : (i j : ℕ) → i + 1 + j ≡ i + suc j
    i_suc i j = omega arith

exchange_lem :
    (k fuel : ℕ) (device : Device) (req : List ℕ) (n : Nice)
    → k < fuel
    → ((j : ℕ) → j < k → device req j ≡ got [])
    → 0 < read_count (device req k)
    → let buff = filled (device req k) n.read_buff in
      exchange device fuel req n
      ≡ some (
        word_of buff,
        record { nread = 0; write_buff = req; read_buff = buff; cycles = get_or buff 4 0 },
      )
unfolding exchange
exchange_lem k fuel device req n h idle ends =
    rw
      (
        poll_lem k fuel 0 (device req) n.read_buff h
            (λ j hj. ap (device req) (plus_zero j) ∙ idle j hj)
            (subst (λ t. 0 < read_count (device req t)) (sym (plus_zero k)) ends),
        exchange,
      )
      (ap (λ t. some (result (filled (device req t) n.read_buff))) (plus_zero k))
  where
    plus_zero : (i : ℕ) → 0 + i ≡ i
    plus_zero i = omega arith

    result : List ℕ → ℕ × Nice
    result buff = (
      word_of buff,
      record { nread = 0; write_buff = req; read_buff = buff; cycles = get_or buff 4 0 },
    )

-- If the device answers a request, after any number of empty polls, with the four bytes of the
-- 32-bit word that the instruction is to compute and a byte of cycles, then the instruction returns
-- that word and takes over the cycles, with any fuel beyond the number of empty polls.
pub issue-meaning :
    (op : NiceOp) (k fuel c : ℕ) (device : Device) (n : Nice)
    → k < fuel
    → ((j : ℕ) → j < k → device (request op) j ≡ got [])
    → device (request op) k ≡ got (bytes_of (meaning op) ++ c ∷ [])
    → meaning op < 2 ^ 32
    → (n' : Nice) × (issue op device fuel n ≡ some (meaning op, n'))
      × (n'.cycles ≡ c)
      × (n'.write_buff ≡ request op)
unfolding read_count filled
issue-meaning op k fuel c device n h idle answers small =
    let bytes = bytes_of (meaning op) ++ c ∷ [] in
    let buff = bytes ++ drop (length bytes) n.read_buff in
    (
      record { nread = 0; write_buff = request op; read_buff = buff; cycles = get_or buff 4 0 },
      issue-exchange op device fuel n
          ∙ exchange_lem k fuel device (request op) n h idle (rw answers (five (meaning op) c))
          ∙ rw answers (
              ap (λ w. some (w, state buff))
                (decodes (meaning op) (c ∷ []) (drop (length bytes) n.read_buff) small)),
      fifth (meaning op) c (drop (length bytes) n.read_buff),
      refl,
    )
  where
    state : List ℕ → Nice
    state buff = record {
      nread = 0;
      write_buff = request op;
      read_buff = buff;
      cycles = get_or buff 4 0;
    }

    five : (w c : ℕ) → 0 < length (bytes_of w ++ c ∷ [])
    five w c = rw (bytes_of_lem w) (omega arith)

    fifth : (w c : ℕ) (rest : List ℕ) → get_or ((bytes_of w ++ c ∷ []) ++ rest) 4 0 ≡ c
    fifth w c rest = rw (bytes_of_lem w) refl

    decodes : (w : ℕ) (xs ys : List ℕ) → w < 2 ^ 32 → word_of ((bytes_of w ++ xs) ++ ys) ≡ w
    decodes w xs ys h =
        rw (bytes_of_lem w) (rw (bytes_of_lem w) at (word_of-bytes_of w (xs ++ ys) h))

beyond : (i : ℕ) (xs : List ℕ) → length xs ≤ i → get_or (xs ++ []) i 0 ≡ 0
beyond i [] h = refl
beyond zero (x ∷ xs) h = absurd (omega arith)
beyond (suc i) (x ∷ xs) h = beyond i xs (omega arith)

-- A read leaves the bytes behind those that it stores.
get_or-filled :
    (i : ℕ) (xs ys : List ℕ)
    → length xs ≤ i
    → get_or (xs ++ drop (length xs) ys) i 0 ≡ get_or ys i 0
get_or-filled i [] ys h = refl
get_or-filled zero (x ∷ xs) ys h = absurd (omega arith)
get_or-filled (suc i) (x ∷ xs) [] h = beyond i xs (omega arith)
get_or-filled (suc i) (x ∷ xs) (y ∷ ys) h = get_or-filled i xs ys (omega arith)

-- The bytes that a call of `read` stores.
abbrev pub stored : ReadResult → List ℕ
stored (got bytes) = bytes
stored failed = []

-- The value of `read` is tested only for being positive as an `unsigned int`: if the first poll
-- fails (which reads as 2 ^ 32 - 1), or stores fewer than five bytes but some, the instruction
-- still returns, with any fuel. The bytes that are missing, the byte of cycles among them, are
-- those of the answer before.
pub issue_stale :
    (op : NiceOp) (fuel : ℕ) (device : Device) (n : Nice) (r : ReadResult)
    → 0 < fuel
    → device (request op) 0 ≡ r
    → 0 < read_count r
    → length (stored r) < 5
    → (n' : Nice) × (issue op device fuel n
        ≡ some (word_of (stored r ++ drop (length (stored r)) n.read_buff), n'))
      × (n'.cycles ≡ get_or n.read_buff 4 0)
unfolding filled
issue_stale op fuel device n r h answers some_read few =
    let buff = stored r ++ drop (length (stored r)) n.read_buff in
    (
      record { nread = 0; write_buff = request op; read_buff = buff; cycles = get_or buff 4 0 },
      issue-exchange op device fuel n
          ∙ exchange_lem 0 fuel device (request op) n h (λ j hj. absurd (omega arith))
              (rw answers some_read)
          ∙ rw answers (same r n.read_buff),
      get_or-filled 4 (stored r) n.read_buff (omega arith),
    )
  where
    result : List ℕ → Option (ℕ × Nice)
    result buff = some (
      word_of buff,
      record { nread = 0; write_buff = request op; read_buff = buff; cycles = get_or buff 4 0 },
    )

    same :
        (r : ReadResult) (old : List ℕ)
        → result (filled r old) ≡ result (stored r ++ drop (length (stored r)) old)
    same (got bytes) old = refl
    same failed old = refl

-- The instruction that a device reads from ten bytes: the code and the two operands.
pub parse : List ℕ → Option NiceOp
parse (a ∷ b ∷ rest) =
    if a == 0x7b
    then (if b == 0x71
        then some (p0 (word_of rest))
        else (if b == 0x72
            then some (p1 (word_of rest))
            else (if b == 0x73
                then some (ks (word_of rest) (word_of (drop 4 rest)))
                else (if b == 0x74
                    then some (ed (word_of rest) (word_of (drop 4 rest)))
                    else none))))
    else none
parse _ = none

abbrev pub IsOperands : NiceOp → Type 0
IsOperands (p0 x) = x < 2 ^ 32
IsOperands (p1 x) = x < 2 ^ 32
IsOperands (ks x y) = (x < 2 ^ 32) × (y < 2 ^ 32)
IsOperands (ed x y) = (x < 2 ^ 32) × (y < 2 ^ 32)

word_of-second : (x y : ℕ) → y < 2 ^ 32 → word_of (drop 4 (bytes_of x ++ bytes_of y)) ≡ y
word_of-second x y h =
    rw (bytes_of_lem x) (ap word_of (append_nil (bytes_of y)) ∙ word_of-bytes_of y [] h)
  where
    append_nil : (xs : List ℕ) → xs ≡ xs ++ []
    append_nil [] = refl
    append_nil (x ∷ xs) = ap (◌∷◌ x) (append_nil xs)

-- The ten bytes that an instruction with 32-bit operands sends tell a device which instruction it is
-- and what its operands are.
pub parse-request : (op : NiceOp) → IsOperands op → parse (request op) ≡ some op
unfolding parse request
parse-request (p0 x) h = rw (word_of-bytes_of x (bytes_of 0) h)
parse-request (p1 x) h = rw (word_of-bytes_of x (bytes_of 0) h)
parse-request (ks x y) h = rw (word_of-bytes_of x (bytes_of y) h.0, word_of-second x y h.1)
parse-request (ed x y) h = rw (word_of-bytes_of x (bytes_of y) h.0, word_of-second x y h.1)
