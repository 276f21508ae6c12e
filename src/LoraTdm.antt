-- ===== src/LoraTdm.antt =====
-- lora_tdm_app, which exchanges frames with the ground over the radio.
pub mod Receiver
pub mod Frames
pub mod Tests
