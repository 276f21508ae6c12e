-- ===== src/Mavlink/Mission.antt =====
-- What the bridge does with the frames of the mission protocol, each with a checksum that fits: the
-- branches of MAVLINK_BRIDGE_APP_HandleFrameComplete for MISSION_REQUEST_INT, MISSION_REQUEST,
-- MISSION_ACK, MISSION_COUNT, MISSION_ITEM_INT and MISSION_CURRENT
-- (mavlink_bridge_app/fsw/src/mavlink_bridge_app_utils.c).
use cfs_telemetry_app.Common.{
  ℕ, ◌+◌, Bool, not, ◌&&◌, List, ◌==◌, ltb, leb, if◌then◌else◌, byte_at, u8, u32, u32_at,
}
use cfs_telemetry_app.Uplink.Messages.{Waypoint, route_max_waypoints}
use cfs_telemetry_app.Mavlink.Parser.{Parser}
use cfs_telemetry_app.Mavlink.State.{
  Download, Bridge, BridgeEnv, error_none, link_connected, upload_idle, upload_active,
  download_idle, wait_item, result_success, result_nak,
}
use cfs_telemetry_app.Mavlink.Send.{
  waypoint_at, send_mission_item_int, send_mission_item, send_mission_request_int,
  send_mission_ack_accepted,
}
use cfs_telemetry_app.Mavlink.Readback.{
  download_timeout_ms, start_fc_mission_readback, publish_fc_mission_readback, set_link_state,
}
use cfs_telemetry_app.Mavlink.Upload.{upload_timeout_ms, set_at, copy_loop}
use cfs_telemetry_app.Mavlink.Publish.{u16_at}

-- Whether the flight controller asks for an item of the upload that is under way.
abbrev pub is_wanted : ℕ → Bridge → Bool
is_wanted seq s = s.upload.state == upload_active && ltb seq s.upload.wp_count

abbrev pub extend_upload : ℕ → Bridge → Bridge
extend_upload now s = record s {
  upload = record s.upload { timeout_ms = u32 (now + upload_timeout_ms) };
}

unfoldable pub take_mission_request_int : BridgeEnv → ℕ → Parser → Bridge → Bridge
take_mission_request_int env now p s =
    let seq = u16_at p.payload 0 in
    if is_wanted seq s then send_mission_item_int env (u8 seq) (extend_upload now s) else s

unfoldable pub take_mission_request : BridgeEnv → ℕ → Parser → Bridge → Bridge
take_mission_request env now p s =
    let seq = u16_at p.payload 0 in
    if is_wanted seq s then send_mission_item env (u8 seq) (extend_upload now s) else s

-- The assignments of an upload that the flight controller has accepted.
unfoldable pub confirm_upload : ℕ → Bridge → Bridge
confirm_upload now s =
    let count = s.upload.wp_count in
    record s {
      upload = record s.upload {
        state = upload_idle;
        success_count = u32 (s.upload.success_count + 1);
        last_result = result_success;
        last_timestamp_ms = now;
        last_wp_count = count;
      };
      active = record s.active {
        count = count;
        waypoints = copy_loop count 0 (waypoint_at s.upload.pending) s.active.waypoints;
      };
    }

abbrev pub refuse_upload : Bridge → Bridge
refuse_upload s = record s {
  upload = record s.upload {
    state = upload_idle;
    fail_count = u32 (s.upload.fail_count + 1);
    last_result = result_nak;
  };
}

-- The result; MAVLINK_MISSION_ACCEPTED is 0, which MAVLink cuts from the end of a frame.
abbrev pub ack_result : Parser → ℕ
ack_result p = if leb 3 p.payload_len then byte_at p.payload 2 else 0

unfoldable pub take_mission_ack : BridgeEnv → ℕ → Parser → Bridge → Bridge
take_mission_ack env now p s =
    let s' : Bridge = confirm_upload now s in
    if not (s.upload.state == upload_active)
    then s
    else if ack_result p == 0
    then if s.download.state == download_idle then start_fc_mission_readback env s' else s'
    else refuse_upload s

unfoldable pub take_mission_count : BridgeEnv → ℕ → Parser → Bridge → Bridge
take_mission_count env now p s =
    let count = u16_at p.payload 0 in
    let d : Download = record s.download {
      expected_count = if ltb 255 count then 255 else count;
    } in
    if count == 0
    then publish_fc_mission_readback env
        (send_mission_ack_accepted env (record s { download = record d { state = download_idle } }))
    else send_mission_request_int env 0 (record s {
      download = record d {
        state = wait_item;
        seq = 0;
        timeout_ms = u32 (now + download_timeout_ms);
      };
    })

-- The waypoint of an item.
abbrev pub item_of : List ℕ → Waypoint
item_of payload = record {
  cmd_type = u8 (u16_at payload 30);
  param1 = u32_at payload 0;
  param2 = u32_at payload 4;
  param3 = u32_at payload 8;
  param4 = u32_at payload 12;
  lat_e7 = u32_at payload 16;
  lon_e7 = u32_at payload 20;
  z = u32_at payload 24;
}

-- The entry that is stored, beyond the buffer none, and the next number.
unfoldable pub store_item : Parser → Download → Download
store_item p d = record d {
  waypoints =
      if ltb d.seq route_max_waypoints
      then set_at d.waypoints d.seq (item_of p.payload)
      else d.waypoints;
  seq = u8 (d.seq + 1);
}

unfoldable pub take_mission_item_int : BridgeEnv → ℕ → Parser → Bridge → Bridge
take_mission_item_int env now p s =
    let d : Download = store_item p s.download in
    if leb d.expected_count d.seq
    then publish_fc_mission_readback env (
        let s' : Bridge = send_mission_ack_accepted env (record s { download = d }) in
        record s' { download = record s'.download { state = download_idle } })
    else send_mission_request_int env d.seq
        (record s { download = record d { timeout_ms = u32 (now + download_timeout_ms) } })

-- The assignments of each frame that shows that the flight controller is there.
abbrev pub note_frame : BridgeEnv → ℕ → Bridge → Bridge
note_frame env now s =
    set_link_state env link_connected
      (record s { last_error_code = error_none; last_rx_timestamp_ms = now })

unfoldable pub take_mission_current : BridgeEnv → ℕ → Parser → Bridge → Bridge
take_mission_current env now p s =
    let seq = u16_at p.payload 0 in
    let s' : Bridge = note_frame env now s in
    record s' { active = record s'.active { resume_index = if ltb 255 seq then 255 else seq } }
