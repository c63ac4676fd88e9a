-- ===== src/Calendar.antt =====
-- The calendar domain, src/nidaro/calendar.
pub mod Zones
pub mod Models
pub mod Recurrence
pub mod Anchor
pub mod Expansion
pub mod Repository
pub mod Service
pub mod Range
pub mod Mirror
pub mod Tests
