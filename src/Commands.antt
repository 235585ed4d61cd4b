-- ===== src/Commands.antt =====
-- Slash commands declared by an administrator: custom_components/waha_whatsapp/commands.py.
pub mod Definition
pub mod Registry
pub mod Publish
pub mod Unambiguous
pub mod Loaded
pub mod Gate
pub mod RoundTrip
pub mod Declared
mod Tests
