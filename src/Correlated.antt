-- ===== src/Correlated.antt =====
-- Bounded durable idempotency of correlated sends:
-- custom_components/waha_whatsapp/correlated.py.
pub mod Types
pub mod Media
pub mod Outcome
pub mod Ledger
pub mod Claim
pub mod Finish
pub mod Start
pub mod Retention
pub mod Fence
pub mod Admission
pub mod System
pub mod Coverage
pub mod InFlight
pub mod Interleaving
pub mod AtMostOnce
pub mod Replay
pub mod Restart
mod Tests
mod StoredTests
