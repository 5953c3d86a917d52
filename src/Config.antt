-- ===== src/Config.antt =====
-- The configuration registers, which stand in high memory, and the instructions that move words
-- between them, the scalar registers and the memory-mapped registers (tt_cop/tt_insn.c, tensix.h).
mod Tests
mod Defs
mod Transfers
pub mod Copies
pub mod Masked
unfoldable pub use Defs.*
unfoldable pub use Transfers.*
