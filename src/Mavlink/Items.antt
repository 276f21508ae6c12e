-- ===== src/Mavlink/Items.antt =====
-- The items of a mission on the wire: what MAVLINK_BRIDGE_APP_SendMissionItemInt writes, the parser
-- and the readback read (mavlink_bridge_app/fsw/src/mavlink_bridge_app_utils.c).
pub mod Stream
pub mod Stored
pub mod Restored
use cfs_telemetry_app.Mavlink.Publish.{u16_at}
use cfs_telemetry_app.Common.{
  ℕ, ◌/◌, ◌%◌, ◌<◌, ◌≡◌, refl, ap, ◌∙◌, List, ◌∷◌, ◌++◌, le16, le32_bytes, u8, arith,
}
use cfs_telemetry_app.Uplink.Messages.{Waypoint}
use cfs_telemetry_app.Mavlink.Parser.{
  Parser, wait_stx, reset_parser, frames_of, compute_frame_crc, received_crc,
}
use cfs_telemetry_app.Mavlink.Frame.{frame_crc, mavlink_frame}
use cfs_telemetry_app.Mavlink.Frame.RoundTrip.{parsed, frames_of-mavlink_frame, parsed-crc}
use cfs_telemetry_app.Mavlink.State.{Bridge}
use cfs_telemetry_app.Mavlink.Send.{mission_item_int_id, item_int_payload}
use cfs_telemetry_app.Mavlink.Mission.{item_of}

-- The fields have the widths of ROUTE_WAYPOINT_t.
pub record IsWireWaypoint (w : Waypoint) : Type 0 where
  pub cmd_type : w.cmd_type < 256
  pub param1 : w.param1 < 4294967296
  pub param2 : w.param2 < 4294967296
  pub param3 : w.param3 < 4294967296
  pub param4 : w.param4 < 4294967296
  pub lat_e7 : w.lat_e7 < 4294967296
  pub lon_e7 : w.lon_e7 < 4294967296
  pub z : w.z < 4294967296

byte_back : (b : ℕ) → b < 256 → u8 (le16 (b % 256) (b / 256 % 256)) ≡ b
byte_back b h = omega arith

pub item_of-payload :
    (s : Bridge) (seq : ℕ) (w : Waypoint)
    → IsWireWaypoint w
    → item_of (item_int_payload s seq w) ≡ w
item_of-payload s seq w k =
    rw
      (
        byte_back w.cmd_type k.cmd_type,
        le32_bytes w.param1 k.param1,
        le32_bytes w.param2 k.param2,
        le32_bytes w.param3 k.param3,
        le32_bytes w.param4 k.param4,
        le32_bytes w.lat_e7 k.lat_e7,
        le32_bytes w.lon_e7 k.lon_e7,
        le32_bytes w.z k.z,
      )
      refl

-- Where the readers of an item look for its number.
pub number-payload :
    (s : Bridge) (seq : ℕ) (w : Waypoint) → seq < 65536 → u16_at (item_int_payload s seq w) 28 ≡ seq
number-payload s seq w h = omega arith

-- The frame that the parser makes of an item of the bridge.
abbrev pub item_parsed : Bridge → ℕ → Waypoint → Parser
item_parsed s seq w =
    let payload = item_int_payload s seq w in
    parsed s.tx_sequence mission_item_int_id payload
      (frame_crc s.tx_sequence mission_item_int_id payload 38)

pub frames_of-item :
    (s : Bridge) (seq : ℕ) (w : Waypoint) (rest : List ℕ) (p : Parser)
    → p.state ≡ wait_stx
    → frames_of
        (mavlink_frame s.tx_sequence mission_item_int_id (item_int_payload s seq w) 38 ++ rest)
        p
      ≡ item_parsed s seq w ∷ frames_of rest reset_parser
frames_of-item s seq w rest p e =
    frames_of-mavlink_frame s.tx_sequence mission_item_int_id 38 (item_int_payload s seq w) rest p e
      (omega arith) (omega arith)

pub item_parsed-crc :
    (s : Bridge) (seq : ℕ) (w : Waypoint)
    → compute_frame_crc (item_parsed s seq w) 38 ≡ received_crc (item_parsed s seq w)
item_parsed-crc s seq w = parsed-crc s.tx_sequence mission_item_int_id 38 (item_int_payload s seq w)
