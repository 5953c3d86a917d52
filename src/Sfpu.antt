-- ===== src/Sfpu.antt =====
-- The vector unit of tt_cop/tt_insn.c: 17 registers of 32 lanes. The instructions on integers and
-- bit patterns, the moves, and the predication of the lanes with its stack.
mod Tests
mod Lanes
mod Integers
mod Moves
mod Arithmetic
mod Tables
mod Curves
mod Words
mod Rounding
mod Reciprocal
mod Predication
pub mod Disabled
pub mod Views
pub mod Blocks
pub mod Branches
unfoldable pub use Lanes.*
unfoldable pub use Integers.*
unfoldable pub use Moves.*
unfoldable pub use Arithmetic.*
unfoldable pub use Curves.*
unfoldable pub use Predication.*
