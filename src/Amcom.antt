-- ===== src/Amcom.antt =====
-- src/amcom.*, src/amcom_packets.h and src/amcom_transactions.h: the packet library, the payloads and
-- the transactions that carry them.
mod Library
mod Packets
mod Transactions
pub mod RoundTrip
pub mod Validation
pub mod Crc
pub mod Answers
pub mod Requests
pub mod Reading
unfoldable pub use Library.*
unfoldable pub use Packets.*
unfoldable pub use Transactions.*
