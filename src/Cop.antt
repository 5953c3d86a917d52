-- ===== src/Cop.antt =====
-- The coprocessor: three threads, each with its FIFO, wait gate and MOP state, over one shared core
-- (tt_cop/tensix_cop.h and the step functions of tt_cop/tensix_cop.c).
pub mod Tests
mod State
pub mod Executor
mod Step
mod Direct
pub mod Pending
pub mod Order
pub mod Ready
pub mod Guards
pub mod Trace
pub mod Drain
unfoldable pub use State.*
unfoldable pub use Step.*
unfoldable pub use Direct.*
