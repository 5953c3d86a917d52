-- ===== src/Fifo.antt =====
-- The per-thread instruction FIFO: tensix_fifo_* of tt_cop/tensix_cop.c.
mod Tests
mod Defs
pub mod Refine
unfoldable pub use Defs.*
