-- ===== src/Prelude/Bits.antt =====
-- The laws of `^`, `|` and `&` on unsigned words: algebra, bounds, masks and disjoint fields.
mod Digit
pub mod Xor
pub mod Fields
pub mod Merge
pub mod Positions
pub use Xor.*
pub use Fields.*
pub use Merge.*
pub use Positions.*
