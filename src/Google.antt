-- ===== src/Google.antt =====
-- connectors/google_calendar: the accounts, the client, the connector and the writes.
pub mod Models
pub mod Identity
pub mod Mapping
pub mod Bodies
pub mod Merge
pub mod Http
pub mod Client
pub mod Tokens
pub mod Accounts
pub mod Connector
pub mod Writes
pub mod Pages
pub mod Landing
pub mod Resume
mod CursorText
pub mod Atomic
pub mod Steps
pub mod Writing
mod Tests
mod WriteTests
pub mod Echo
