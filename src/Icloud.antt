-- ===== src/Icloud.antt =====
-- connectors/icloud_calendar.py and connectors/icloud_ics.py: the CalDAV connector.
pub mod Ics
pub mod Events
pub mod Session
pub mod Connector
pub mod Memory
pub mod Weekdays
pub mod Accepting
mod Tests
