-- ===== src/Iss/Arith/Examples.antt =====
-- Products and quotients of words with signs.
use vcil.Prelude.{ℕ, ◌<◌, ◌⊎◌, ◌+◌, ◌-◌, ◌*◌, ◌^◌, ◌≡◌, if◌then◌else◌, u32, refl, arith}
use vcil.Iss.Arith.{is_negative, magnitude, minus_one, mulh, mulhu, mulhsu, div, rem}
use vcil.Iss.Arith.Division.{div-rem}
use vcil.Iss.Arith.Product.{mulh-mulhu}

-- -7 / 2 is -3, and -7 % 2 is -1.
div_test : div 0xfffffff9 2 ≡ 0xfffffffd
unfolding div
div_test = refl

rem_test : rem 0xfffffff9 2 ≡ 0xffffffff
unfolding rem
rem_test = refl

-- -1 * -1 is 1.
mulh_test : mulh 0xffffffff 0xffffffff ≡ 0
unfolding mulh
mulh_test = refl

div-rem_example :
    let a : ℕ = 0xfffffff9 in
    let b : ℕ = 2 in
    (u32 (div a b * b + rem a b) ≡ a)
    × (((b ≡ 0) × (div a b ≡ minus_one))
        ⊎ ((magnitude (rem a b) < magnitude b)
            × ((rem a b ≡ 0) ⊎ (is_negative (rem a b) ≡ is_negative a))))
div-rem_example = div-rem 0xfffffff9 2 (omega arith) (omega arith)

mulh-mulhu_example :
    (mulh 0xffffffff 5
      ≡ u32 (
          mulhu 0xffffffff 5
          + (if is_negative 0xffffffff then 2 ^ 32 - 5 else 0)
          + (if is_negative 5 then 2 ^ 32 - 0xffffffff else 0)))
    × (mulhsu 0xffffffff 5
        ≡ u32 (mulhu 0xffffffff 5 + (if is_negative 0xffffffff then 2 ^ 32 - 5 else 0)))
mulh-mulhu_example = mulh-mulhu 0xffffffff 5 (omega arith) (omega arith)
