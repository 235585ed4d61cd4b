-- ===== src/Polls.antt =====
-- Provider-independent actionable polls: custom_components/waha_whatsapp/polls.py.
pub mod Identity
pub mod Timestamp
pub mod Types
pub mod Build
pub mod Vote
pub mod Receipts
pub mod Registry
pub mod Storage
pub mod Load
pub mod Invariant
pub mod Settlement
pub mod Journal
pub mod Paging
pub mod RoundTrip
pub mod Restored
pub mod Options
mod Tests
