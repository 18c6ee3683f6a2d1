-- ===== src/Iss/Exec/Alu/Signed.antt =====
-- The results of the integer instructions of RISCV-VP/iss.cpp as words and as signed numbers.
use vcil.Prelude.{ℕ, zero, suc, ◌+◌, ◌-◌, ◌*◌, ◌/◌, ◌%◌, ◌^◌, ◌<◌, ◌≤◌, ◌≡◌, ap, ◌∙◌, u32, arith}
use native.Mathlib.Nat.{pow-suc, div-eq_of_lt-le, one-le-pow, div-le_self}
use vcil.Prelude.Int.{ℤ, pos, negsuc, ◌+ℤ◌, ◌-ℤ◌}
use vcil.Iss.Exec.Alu.{add, sub, sll, sra, int32, shift_right, reg_value}

-- 2 ^ 32 split at a number of places.
pow_split : (n d : ℕ) → 2 ^ n * 2 ^ d ≡ 2 ^ (n + d)
pow_split zero d = let e : 0 + d ≡ d = omega arith in rw e (omega arith)
pow_split (suc n) d =
    let e : suc n + d ≡ suc (n + d) = omega arith in
    rw (e, pow-suc 2 n, pow-suc 2 (n + d)) (grind (arith, pow_split n d))

expand : (k q d : ℕ) → k * (q + 1 + d) ≡ k * q + k + d * k
expand k q d = grind arith

div_complement : (k m a : ℕ) → 0 < k → a < k * m → (k * m - 1 - a) / k ≡ m - 1 - a / k
div_complement k m a h l =
    let q = a / k in
    let d = m - 1 - q in
    let split : k * q + a % k ≡ a = grind arith in
    let below : a % k < k = grind arith in
    let fits : q < m = grind arith in
    let e : m ≡ q + 1 + d = omega arith in
    let whole : k * m ≡ k * q + k + d * k = ap (λ (t : ℕ). k * t) e ∙ expand k q d in
    div-eq_of_lt-le k (omega arith) (grind arith)

-- The word of an integer, modulo 2 ^ 32.
abbrev pub word_of_int : ℤ → ℕ
word_of_int (pos n) = u32 n
word_of_int (negsuc n) = 2 ^ 32 - 1 - u32 n

-- Division that rounds down, and multiplication by a number.
abbrev pub floor_div : ℤ → ℕ → ℤ
floor_div (pos n) k = pos (n / k)
floor_div (negsuc n) k = negsuc (n / k)

abbrev pub scale : ℤ → ℕ → ℤ
scale (pos n) k = pos (n * k)
scale (negsuc n) k = negsuc (suc n * k - 1)

shift_right-floor :
    (a n : ℕ) → a < 2 ^ 32 → n < 32 → int32 (shift_right a n) ≡ floor_div (int32 a) (2 ^ n)
unfolding shift_right
shift_right-floor a n h l =
    let k = 2 ^ n in
    let m = 2 ^ (32 - n) in
    let positive : 0 < k = one-le-pow n 2 (omega arith) in
    let e : n + (32 - n) ≡ 32 = omega arith in
    let whole : k * m ≡ 2 ^ 32 = pow_split n (32 - n) ∙ ap (λ (t : ℕ). 2 ^ t) e in
    let c : (k * m - 1 - a) / k ≡ m - 1 - a / k = div_complement k m a positive (omega arith) in
    let c' : (2 ^ 32 - 1 - a) / k ≡ m - 1 - a / k = rw whole at c in
    let quotient : a / k < m = grind arith in
    let below : a / k ≤ a = div-le_self a k in
    let below' : (2 ^ 32 - 1 - a) / k ≤ 2 ^ 32 - 1 - a = div-le_self (2 ^ 32 - 1 - a) k in
    ground arith

together : (x a k : ℕ) → x * k + a * k ≡ (x + a) * k
together x a k = grind arith

-- ADD, SUB and SLL compute on signed numbers modulo 2 ^ 32; SRA divides by the power of two and
-- rounds down. The shifts take the low five bits of the second operand.
pub reg_value-signed :
    (a b : ℕ)
    → a < 2 ^ 32
    → b < 2 ^ 32
    → (reg_value add a b ≡ word_of_int (int32 a +ℤ int32 b))
      × (reg_value sub a b ≡ word_of_int (int32 a -ℤ int32 b))
      × (reg_value sll a b ≡ word_of_int (scale (int32 a) (2 ^ (b % 32))))
      × (int32 (reg_value sra a b) ≡ floor_div (int32 a) (2 ^ (b % 32)))
unfolding reg_value
reg_value-signed a b ha hb =
    let k = 2 ^ (b % 32) in
    let positive : 0 < k = one-le-pow (b % 32) 2 (omega arith) in
    let x : ℕ = suc (2 ^ 32 - 1 - a) in
    let whole : x + a ≡ 2 ^ 32 = omega arith in
    let t : x * k + a * k ≡ 2 ^ 32 * k = together x a k ∙ ap (λ (t : ℕ). t * k) whole in
    let above : 0 < x * k = grind arith in
    (ground arith, ground arith, ground arith, shift_right-floor a (b % 32) ha (omega arith))
