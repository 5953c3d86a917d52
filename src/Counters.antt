-- ===== src/Counters.antt =====
-- The address counters of the unpackers and the packer, and the read-write counters of the matrix
-- and vector units, as instructions move them (tt_cop/tt_insn.c).
mod Tests
mod Defs
pub mod Restart
unfoldable pub use Defs.*
