-- ===== src/Admins.antt =====
-- The administrators that a guest group is set up with:
-- custom_components/waha_whatsapp/guest_admins.py.
pub mod Preview
pub mod Distinct
mod Tests
