-- ===== src/CfsCore/Tests.antt =====
-- Runs of the theorems about cfs_core_app on concrete sessions.
pub mod Data
pub mod Cycles
pub mod Sessions
