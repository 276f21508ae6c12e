-- ===== src/Mavlink/Frame.antt =====
-- The frames that the bridge sends: the bytes that MAVLINK_BRIDGE_APP_SendMavlinkV2
-- (mavlink_bridge_app/fsw/src/mavlink_bridge_app_utils.c) puts together.
pub mod RoundTrip
use cfs_telemetry_app.Common.{ℕ, ◌+◌, ◌/◌, ◌%◌, List, [], ◌∷◌, ◌++◌, length}
use cfs_telemetry_app.Mavlink.Parser.{stx_v2, crc_accumulate_all}

-- MAVLINK_BRIDGE_APP_SYSTEM_ID and MAVLINK_BRIDGE_APP_COMPONENT_ID
abbrev pub system_id : ℕ
system_id = 255

abbrev pub component_id : ℕ
component_id = 190

-- Frame[1] up to the end of the payload.
abbrev pub frame_body : ℕ → ℕ → List ℕ → List ℕ
frame_body seq msg_id payload =
    length payload
    ∷ 0
    ∷ 0
    ∷ seq
    ∷ system_id
    ∷ component_id
    ∷ msg_id % 256
    ∷ msg_id / 256 % 256
    ∷ msg_id / 65536 % 256
    ∷ payload

-- The checksum of the body and of the extra byte of the message.
unfoldable pub frame_crc : ℕ → ℕ → List ℕ → ℕ → ℕ
frame_crc seq msg_id payload crc_extra =
    crc_accumulate_all (frame_body seq msg_id payload ++ (crc_extra ∷ [])) 0xffff

unfoldable pub mavlink_frame : ℕ → ℕ → List ℕ → ℕ → List ℕ
mavlink_frame seq msg_id payload crc_extra =
    let crc = frame_crc seq msg_id payload crc_extra in
    stx_v2 ∷ (frame_body seq msg_id payload ++ (crc % 256 ∷ crc / 256 % 256 ∷ []))
