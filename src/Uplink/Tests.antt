-- ===== src/Uplink/Tests.antt =====
-- Test inputs of uplink_app, and runs of its theorems on them.
pub mod Data
pub mod Commands
pub mod Payloads
pub mod Sessions
