-- ===== src/Bakalari.antt =====
-- connectors/bakalari_client.py: access to a school's server.
pub mod Client
pub mod Budget
pub mod Requests
pub mod Recovery
mod Tests
