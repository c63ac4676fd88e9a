-- ===== src/WhatsApp.antt =====
-- connectors/whatsapp: message events are staged once each, and drained by their row identifier.
pub mod Staging
pub mod Once
pub mod Tests
