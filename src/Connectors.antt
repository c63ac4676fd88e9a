-- ===== src/Connectors.antt =====
-- The connector framework, src/nidaro/connectors: stored cursors, configs and credentials, the sync
-- of one connector, and the sweep that lands its records in the calendar.
pub mod Store
pub mod Service
pub mod Cursors
pub mod Sync
pub mod Due
pub mod Intake
pub mod Credentials
pub mod Secrets
pub mod Pending
pub mod Rotation
pub mod Runner
pub mod Counts
pub mod Sweep
pub mod Jobs
pub mod Dispatch
mod RunnerTests
pub mod Cipher
pub mod Tests
