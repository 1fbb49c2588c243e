-- ===== src/Scheduling.antt =====
-- services/runner-control/src/scheduling: which gates run, and what is recorded of each.
pub mod Dispositions
pub mod Plan
