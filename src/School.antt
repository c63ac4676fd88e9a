-- ===== src/School.antt =====
-- school/: what the gatherer lands for each child, and the packing list that is derived from it.
pub mod Models
pub mod Repository
pub mod Service
pub mod Subjects
pub mod Resolving
pub mod Days
pub mod PackList
pub mod Tests
