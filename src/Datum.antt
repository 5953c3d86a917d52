-- ===== src/Datum.antt =====
-- The data formats of UNPACR and PACR in tt_cop/tt_insn.c: how many bytes a datum has in memory, and
-- its conversion to a float and back. UNPACR and PACR themselves are not modelled.
mod Tests
mod Defs
pub mod Halves
unfoldable pub use Defs.*
