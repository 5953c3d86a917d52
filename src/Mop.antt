-- ===== src/Mop.antt =====
-- The MOP expander: from the nine MOP registers of a thread to the instructions a MOP stands for,
-- one at a time (mop_* and tensix_cop_mop_expand of tt_cop/tensix_cop.c).
mod Tests
mod Defs
pub mod Template0
pub mod Template1
pub mod Turns
pub mod Loops
pub mod Collect
unfoldable pub use Defs.*
