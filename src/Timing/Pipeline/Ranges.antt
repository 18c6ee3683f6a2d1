-- ===== src/Timing/Pipeline/Ranges.antt =====
-- `Range` of the pipeline of RISCV-VP/timing.h.
use vcil.Prelude.{ℕ, ◌<◌, ◌≡◌, ◌↔◌, true, some, arith, ltb, if◌then◌else◌}
use vcil.Timing.Pipeline.{Range, contains, overlaps}

-- Two ranges that are not empty overlap exactly when both contain some address.
pub overlaps_iff :
    (r s : Range)
    → r.start < r.end
    → s.start < s.end
    → (overlaps r s ≡ true)
      ↔ ((addr : ℕ) × (contains r addr ≡ some true) × (contains s addr ≡ some true))
unfolding overlaps contains
overlaps_iff r s hr hs = (
  λ h. (if ltb s.start r.start then r.start else s.start, ground arith, ground arith),
  λ h. ground (arith, h.1, h.2),
)
