-- ===== src/Calendar/Mirror.antt =====
-- What `apply_external_records` of service.py does to the mirrors of a household.
pub mod Record
pub mod Outcome
pub mod Effects
pub mod Batch
pub mod Scope
