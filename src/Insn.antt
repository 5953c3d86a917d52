-- ===== src/Insn.antt =====
-- The instructions: the handlers of tt_cop/tt_insn.c and the table that dispatches to them.
mod Tests
mod Sync
pub mod Banks
mod Thread
mod Dma
mod Compute
mod Dispatch
pub mod Semaphores
pub mod Mutexes
pub mod Handover
pub mod Registers
pub mod Recording
pub mod Instance
pub mod Held
unfoldable pub use Sync.*
unfoldable pub use Banks.*
unfoldable pub use Thread.*
unfoldable pub use Dma.*
unfoldable pub use Compute.*
unfoldable pub use Dispatch.*
