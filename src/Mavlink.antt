-- ===== src/Mavlink.antt =====
-- The modules of mavlink_bridge_app (mavlink_bridge_app/fsw/src/).
pub mod Commands
pub mod Config
pub mod Frame
pub mod Items
pub mod Mission
pub mod Parser
pub mod Publish
pub mod State
pub mod Steps
pub mod Quiet
pub mod Readback
pub mod Receive
pub mod Send
pub mod Upload
pub mod Tests
