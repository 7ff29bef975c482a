-- ===== src/Base/Bits.antt =====
-- Laws of the bit operations at variables, for every width.
mod Step
mod Xor
mod Fields
mod Rotate
pub mod Split
pub mod Lanes
pub mod Weight
pub use Step.{or_digit, and_digit, xor_digit}
pub use Xor.*
pub use Fields.*
pub use Rotate.*
