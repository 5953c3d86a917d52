-- ===== src/Mailbox.antt =====
-- The mailboxes between the cores of a tile: tt_cop/mailbox.c and tt_cop/mailbox.h.
mod Tests
mod Defs
pub mod Channel
pub mod Routing
unfoldable pub use Defs.*
