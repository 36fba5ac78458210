-- ===== src/Remote.antt =====
-- src/remote_connection.*: a connection that the program opens to a remote player.
mod Transaction
mod Connection
mod Thread
pub mod Holdings
pub mod Closing
pub mod Sending
pub mod Queues
pub mod Confirmation
unfoldable pub use Transaction.*
unfoldable pub use Connection.*
unfoldable pub use Thread.*
