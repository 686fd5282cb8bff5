-- ===== src/Planner.antt =====
-- The planner of internal/planner and its candidate pool, internal/filter.
pub mod Pool
pub mod Plan
pub mod Members
pub mod Partition
pub mod Answers
pub mod Ordering
