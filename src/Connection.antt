-- ===== src/Connection.antt =====
-- src/connection_client.*, src/connection_transaction.h and src/connection_server.*: the TCP server,
-- its clients and the request-response transactions that it runs with them.
mod Requests
mod Clients
mod Transactions
mod Servers
mod Thread
pub mod Exchanges
pub mod Rtt
pub mod Membership
pub mod Registry
pub mod Runs
pub mod Scheduling
pub mod References
pub mod Dangling
pub mod Waiting
pub mod Completion
pub mod Draining
pub mod Lifetime
pub mod Hubs
pub mod Accepting
pub mod Retiring
pub mod Orderly
pub mod Handing
pub mod Rounds
pub mod Turns
pub mod Group
pub mod Talking
pub mod Sitting
pub mod Postbox
pub mod Single
pub mod Asking
pub mod Listening
pub mod Telling
pub mod Hearing
unfoldable pub use Requests.*
unfoldable pub use Clients.*
unfoldable pub use Transactions.*
unfoldable pub use Thread.*
unfoldable pub use Servers.*
