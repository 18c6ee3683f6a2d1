-- ===== src/Timing/Cache/Index.antt =====
-- `TAG` and `HEAD` of the cache of RISCV-VP/timing.h, as arithmetic.
use vcil.Prelude.{ℕ, ◌*◌, ◌/◌, ◌%◌, ◌^◌, ◌<◌, ◌≡◌, ◌↔◌, arith}
use vcil.Prelude.Bits.{and-mask, and-shift}
use vcil.Timing.Cache.{tag, head}

pub tag_lem : (pc : ℕ) → tag pc ≡ pc / 32 % 512
unfolding tag
tag_lem pc = omega (arith, and-shift 5 pc 511, and-mask 9 (pc / 32))

pub head_lem : (pc : ℕ) → pc < 2 ^ 32 → head pc ≡ pc / 16384 * 16384
unfolding head
head_lem pc h = omega (arith, and-shift 14 pc 262143, and-mask 18 (pc / 16384))

-- Two 32-bit addresses are cached together, in the same set and under the same tag, exactly when
-- they lie in the same block of 32 bytes.
pub tag-head_iff :
    (pc pc' : ℕ)
    → pc < 2 ^ 32
    → pc' < 2 ^ 32
    → ((tag pc ≡ tag pc') × (head pc ≡ head pc')) ↔ (pc / 32 ≡ pc' / 32)
tag-head_iff pc pc' h h' = (
  λ e. omega (arith, e.0, e.1, tag_lem pc, tag_lem pc', head_lem pc h, head_lem pc' h'),
  λ e. (omega (arith, tag_lem pc, tag_lem pc'), omega (arith, head_lem pc h, head_lem pc' h')),
)

pub tag-lt : (pc : ℕ) → tag pc < 512
tag-lt pc = omega (arith, tag_lem pc)
