-- ===== src/Timing.antt =====
-- RISCV-VP/timing.h: the timing models that the instruction set simulator stalls and consults.
-- `Pipeline` counts cycles, `Predictor` is the branch predictor, `Cache` the instruction cache.
pub mod Assert
pub mod Pipeline
pub mod Predictor
pub mod Cache
