-- ===== src/Front.antt =====
-- The interface of the coprocessor to the processor cores: the memory-mapped registers
-- (tt_cop/tensix_impl.c).
mod Tests
mod Defs
mod Routes
mod Zero
pub mod Reset
pub mod Buffers
pub mod Registers
pub mod Streams
unfoldable pub use Defs.*
unfoldable pub use Routes.*
