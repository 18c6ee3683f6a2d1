-- ===== src/Iss/Exec/Alu/Examples.antt =====
-- Values of integer instructions on negative words.
use vcil.Prelude.{ℕ, ◌+◌, ◌%◌, ◌^◌, ◌≤◌, ◌≡◌, ◌⊎◌, false, ◌&&◌, arith}
use vcil.Prelude.Int.{◌+ℤ◌, ◌-ℤ◌}
use vcil.Iss.Exec.Alu.{add, sub, sll, sra, int32, less, reg_value}
use vcil.Iss.Exec.Alu.Signed.{word_of_int, floor_div, scale, reg_value-signed}
use vcil.Iss.Exec.Branch.{beq, bne, blt, bge, bltu, bgeu, holds}
use vcil.Iss.Exec.Amo.{amomin, amomax, amominu, amomaxu, amo_value}
use vcil.Iss.Exec.Order.{flip_sign, holds-flip, amo_value-ordered}

-- The word of -7.
abbrev minus_seven : ℕ
minus_seven = 0xffff_fff9

reg_value-signed_example :
    (reg_value add minus_seven 2 ≡ word_of_int (int32 minus_seven +ℤ int32 2))
    × (reg_value sub minus_seven 2 ≡ word_of_int (int32 minus_seven -ℤ int32 2))
    × (reg_value sll minus_seven 2 ≡ word_of_int (scale (int32 minus_seven) (2 ^ (2 % 32))))
    × (int32 (reg_value sra minus_seven 2) ≡ floor_div (int32 minus_seven) (2 ^ (2 % 32)))
reg_value-signed_example = reg_value-signed minus_seven 2 (omega arith) (omega arith)

holds-flip_example :
    (holds blt minus_seven 5 ≡ holds bltu (flip_sign minus_seven) (flip_sign 5))
    × (holds bge minus_seven 5 ≡ holds bgeu (flip_sign minus_seven) (flip_sign 5))
    × (holds beq minus_seven 5 ≡ holds beq (flip_sign minus_seven) (flip_sign 5))
    × (holds bltu 5 minus_seven ≡ (holds bgeu minus_seven 5 && holds bne minus_seven 5))
holds-flip_example = holds-flip minus_seven 5 (omega arith) (omega arith)

amo_value-ordered_example :
    (less (amo_value amomax minus_seven 5) (amo_value amomin minus_seven 5) ≡ false)
    × (amo_value amomin minus_seven 5 + amo_value amomax minus_seven 5 ≡ minus_seven + 5)
    × (amo_value amominu minus_seven 5 ≤ amo_value amomaxu minus_seven 5)
    × (amo_value amominu minus_seven 5 + amo_value amomaxu minus_seven 5 ≡ minus_seven + 5)
    × ((amo_value amomin minus_seven 5 ≡ minus_seven) ⊎ (amo_value amomin minus_seven 5 ≡ 5))
    × ((amo_value amominu minus_seven 5 ≡ minus_seven) ⊎ (amo_value amominu minus_seven 5 ≡ 5))
amo_value-ordered_example = amo_value-ordered minus_seven 5 (omega arith) (omega arith)
