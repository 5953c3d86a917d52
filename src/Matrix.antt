-- ===== src/Matrix.antt =====
-- The matrix unit of tt_cop/tt_insn.c: the registers SrcA, SrcB and Dest, rows of 16 floats, and the
-- instructions that move, clear, transpose, multiply and add them. Words are the bit patterns of the
-- floats; the arithmetic on them is a parameter.
pub mod Tests
mod Grid
mod Moves
mod Clears
mod Math
mod Products
pub mod Elementwise
pub mod Product
mod Transposed
mod Copies
mod Handover
unfoldable pub use Moves.*
unfoldable pub use Clears.*
unfoldable pub use Math.*
unfoldable pub use Products.*
