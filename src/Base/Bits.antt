-- ===== src/Base/Bits.antt =====
-- Bits
mod Step
mod Fields
mod Masks
mod Round
mod Single
pub use Step.*
pub use Fields.*
pub use Masks.*
pub use Single.*
pub use Round.*
