-- ===== src/Uplink.antt =====
-- uplink_app: the ground uplink. Each child models a group of functions of
-- uplink_app/fsw/src, and holds its theorems in children of its own.
pub mod Messages
pub mod State
pub mod Crc
pub mod Admission
pub mod Payload
pub mod Telemetry
pub mod Persist
pub mod Forward
pub mod Process
pub mod Main
pub mod Tests
