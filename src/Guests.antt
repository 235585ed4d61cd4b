-- ===== src/Guests.antt =====
-- The managed guest group: custom_components/waha_whatsapp/guest_registry.py.
pub mod Identity
pub mod Types
pub mod Provision
pub mod Roster
pub mod Sets
pub mod Aliases
pub mod Hints
pub mod Reconcile
pub mod Load
pub mod Loaded
pub mod Validated
pub mod Routes
pub mod Members
pub mod Book
pub mod Rows
pub mod Linked
pub mod Turns
pub mod Growth
pub mod Admission
pub mod Departures
pub mod Retention
pub mod Matching
pub mod Gate
pub mod Life
pub mod Evolution
pub mod Permanence
pub mod Lifetime
pub mod Completion
pub mod Sample
pub mod Tests
pub mod LifeTests
pub mod SnapshotTests
