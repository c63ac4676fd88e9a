-- ===== src/Meals.antt =====
-- meals/: the dishes of a household and the meals that are planned.
pub mod Kitchen
pub mod Service
pub mod Rows
pub mod Invariant
pub mod Plans
pub mod Tests
