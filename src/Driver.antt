-- ===== src/Driver.antt =====
-- The coroutine of rv32sim.c that runs a processor core beside the others. The emulator of rv32emu/
-- is a parameter.
mod Tests
mod Defs
pub mod Slices
unfoldable pub use Defs.*
