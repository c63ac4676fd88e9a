-- ===== src/Household.antt =====
-- The small tables of a household: its members (household/), open tasks (tasks/), commitments
-- (commitments/), remembered facts (memory/), the assistant's conversations (conversations/) and the
-- log of jobs (jobs/service.py).
pub mod Members
pub mod Tasks
pub mod Commitments
pub mod Facts
pub mod Conversations
pub mod Jobs
pub mod Laws
pub mod Tests
