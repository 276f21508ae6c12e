-- ===== src/CfsCore.antt =====
-- cfs_core_app, which watches the other applications and the flight state.
pub mod Health
pub mod State
pub mod Cache
pub mod Restarts
pub mod Persist
pub mod Publish
pub mod Config
pub mod Commands
pub mod Main
pub mod Tests
