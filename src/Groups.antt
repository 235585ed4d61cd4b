-- ===== src/Groups.antt =====
-- The general groups: custom_components/waha_whatsapp/general_groups.py.
pub mod Identity
pub mod Routes
pub mod Review
pub mod Roster
pub mod Verified
pub mod Tests
