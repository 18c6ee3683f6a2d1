-- ===== src/Iss/Exec/Order.antt =====
-- The comparisons of BLT to BGEU and of AMOMIN.W to AMOMAXU.W in RISCV-VP/iss.cpp.
use vcil.Prelude.{ℕ, ◌+◌, ◌^◌, ◌<◌, ◌≤◌, ◌≡◌, ◌⊎◌, false, ◌&&◌, ltb, u32, arith}
use vcil.Iss.Exec.Alu.{less}
use vcil.Iss.Exec.Branch.{beq, bne, blt, bge, bltu, bgeu, holds}
use vcil.Iss.Exec.Amo.{amomin, amominu, amomax, amomaxu, amo_value}

-- The word with its sign bit turned over.
abbrev pub flip_sign : ℕ → ℕ
flip_sign a = u32 (a + 2 ^ 31)

less-flip : (a b : ℕ) → a < 2 ^ 32 → b < 2 ^ 32 → less a b ≡ ltb (flip_sign a) (flip_sign b)
less-flip a b ha hb = ground arith

-- BLT and BGE decide on two words as BLTU and BGEU do on the words with the sign bits turned over.
-- For each pair of words exactly one of BLTU, BEQ and BLTU the other way round holds.
pub holds-flip :
    (a b : ℕ)
    → a < 2 ^ 32
    → b < 2 ^ 32
    → (holds blt a b ≡ holds bltu (flip_sign a) (flip_sign b))
      × (holds bge a b ≡ holds bgeu (flip_sign a) (flip_sign b))
      × (holds beq a b ≡ holds beq (flip_sign a) (flip_sign b))
      × (holds bltu b a ≡ (holds bgeu a b && holds bne a b))
unfolding holds
holds-flip a b ha hb = ground (arith, less-flip a b ha hb)

-- The two words that AMOMIN.W and AMOMAX.W choose are the two that they are given, in signed order;
-- so for AMOMINU.W and AMOMAXU.W, in unsigned order.
pub amo_value-ordered :
    (a b : ℕ)
    → a < 2 ^ 32
    → b < 2 ^ 32
    → (less (amo_value amomax a b) (amo_value amomin a b) ≡ false)
      × (amo_value amomin a b + amo_value amomax a b ≡ a + b)
      × (amo_value amominu a b ≤ amo_value amomaxu a b)
      × (amo_value amominu a b + amo_value amomaxu a b ≡ a + b)
      × ((amo_value amomin a b ≡ a) ⊎ (amo_value amomin a b ≡ b))
      × ((amo_value amominu a b ≡ a) ⊎ (amo_value amominu a b ≡ b))
unfolding amo_value
amo_value-ordered a b ha hb = ground arith
