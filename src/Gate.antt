-- ===== src/Gate.antt =====
-- The wait gate of a thread: which instructions a wait instruction holds back, and until when
-- (insn_get_block_bits and wait_gate_* of tt_cop/tensix_cop.c).
mod Tests
mod Defs
pub mod Conditions
pub mod Units
unfoldable pub use Defs.*
