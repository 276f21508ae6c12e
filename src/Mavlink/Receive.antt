-- ===== src/Mavlink/Receive.antt =====
-- MAVLINK_BRIDGE_APP_HandleFrameComplete and HandleReceivedBytes (mavlink_bridge_app/fsw/src/
-- mavlink_bridge_app_utils.c): what the bytes of the flight controller do.
pub mod Cases
use cfs_telemetry_app.Common.{
  ℕ, ◌+◌, ◌/◌, ◌%◌, Bool, true, false, not, ◌&&◌, ◌||◌, List, [], ◌∷◌, ◌==◌, ltb, leb,
  if◌then◌else◌, byte_at, u8, u32, length,
}
use cfs_telemetry_app.Mavlink.Parser.{
  Parser, ParseEvent, no_event, length_error, frame_complete, process_received_byte,
  compute_frame_crc, received_crc,
}
use cfs_telemetry_app.Mavlink.State.{
  Bridge, BridgeEnv, error_none, error_parse_fail, link_connected, wait_count, wait_item,
  record_parse_error,
}
use cfs_telemetry_app.Mavlink.Send.{
  mission_request_id, mission_request_int_id, mission_ack_id, mission_count_id, mission_item_int_id,
  mission_current_id,
}
use cfs_telemetry_app.Mavlink.Readback.{set_link_state}
use cfs_telemetry_app.Mavlink.Publish.{
  publish_attitude, publish_ekf_local, publish_global_position_as_local, publish_gps_raw,
  publish_ekf_status, handle_sys_time, u16_at,
}
use cfs_telemetry_app.Mavlink.Mission.{
  note_frame, take_mission_request_int, take_mission_request, take_mission_ack, take_mission_count,
  take_mission_item_int, take_mission_current,
}

-- A branch: its handler if the checksum fits and the payload has at least the given length.
unfoldable pub when_valid : ℕ → ℕ → Parser → (Bridge → Bridge) → Bridge → Bridge
when_valid crc_extra min_len p handler s =
    if compute_frame_crc p crc_extra == received_crc p && leb min_len p.payload_len
    then handler s
    else record_parse_error error_parse_fail s

-- The first heartbeat of an ArduPilot or PX4 names the target; MAVLINK_BRIDGE_APP_UpdateFromHeartbeat
-- takes the mode of the target.
abbrev pub lock_target : Parser → Bridge → Bridge
lock_target p s =
    if s.target_system_id == 0 && (byte_at p.payload 5 == 3 || byte_at p.payload 5 == 12)
    then record s { target_system_id = p.sys_id; target_component_id = p.comp_id }
    else s

abbrev pub update_from_heartbeat : ℕ → ℕ → Bridge → Bridge
update_from_heartbeat base_mode system_status s = record s {
  base_mode = base_mode;
  system_status = system_status;
  is_armed = not (base_mode / 128 % 2 == 0);
}

unfoldable pub take_heartbeat : BridgeEnv → ℕ → Parser → Bridge → Bridge
take_heartbeat env now p s =
    let s' : Bridge = lock_target p s in
    if p.sys_id == s'.target_system_id
    then update_from_heartbeat (byte_at p.payload 6) (byte_at p.payload 7)
        (set_link_state env link_connected (record s' { last_rx_timestamp_ms = now }))
    else s'

-- MAVLINK_CMD_SET_MESSAGE_INTERVAL is 511, and MAVLINK_RESULT_ACCEPTED is 0.
unfoldable pub take_command_ack : Parser → Bridge → Bridge
take_command_ack p s =
    if u16_at p.payload 0 == 511 && byte_at p.payload 2 == 0
    then record s { stream_request_ack_count = u8 (s.stream_request_ack_count + 1) }
    else s

-- The chain of branches over the message id.
unfoldable pub handle_frame_complete : BridgeEnv → ℕ → Parser → Bridge → Bridge
handle_frame_complete env now p s =
    if p.msg_id == 0 && leb 9 p.payload_len
    then when_valid 50 0 p (take_heartbeat env now p) s
    else if p.msg_id == 77
    then when_valid 143 3 p (take_command_ack p) s
    else if p.msg_id == 30
    then when_valid 39 0 p (λ s. publish_attitude env p (note_frame env now s)) s
    else if p.msg_id == 32
    then when_valid 185 0 p (λ s. publish_ekf_local env p (note_frame env now s)) s
    else if p.msg_id == 33
    then when_valid 104 0 p (λ s. publish_global_position_as_local env p (note_frame env now s)) s
    else if p.msg_id == 24
    then when_valid 24 0 p (λ s. publish_gps_raw env p (note_frame env now s)) s
    else if p.msg_id == 193
    then when_valid 71 0 p (λ s. publish_ekf_status env now p (note_frame env now s)) s
    else if p.msg_id == 2
    then when_valid 137 0 p (λ s. handle_sys_time env now p (note_frame env now s)) s
    else if p.msg_id == mission_request_int_id
    then when_valid 196 2 p (take_mission_request_int env now p) s
    else if p.msg_id == mission_request_id
    then when_valid 230 2 p (take_mission_request env now p) s
    else if p.msg_id == mission_ack_id
    then when_valid 153 2 p (take_mission_ack env now p) s
    else if p.msg_id == mission_count_id && s.download.state == wait_count
    then when_valid 221 2 p (take_mission_count env now p) s
    else if p.msg_id == mission_item_int_id && s.download.state == wait_item
    then when_valid 38 32 p (take_mission_item_int env now p) s
    else if p.msg_id == mission_current_id
    then when_valid 28 2 p (take_mission_current env now p) s
    else s

abbrev pub handle_event : BridgeEnv → ℕ → ParseEvent → Bridge → Bridge
handle_event env now no_event s = s
handle_event env now length_error s = record_parse_error error_parse_fail s
handle_event env now (frame_complete p) s = handle_frame_complete env now p s

-- The loop over the bytes of a read, with the parser beside the state.
unfoldable pub receive_bytes : BridgeEnv → ℕ → List ℕ → Parser × Bridge → Parser × Bridge
receive_bytes env now [] (p, s) = (p, s)
receive_bytes env now (byte ∷ rest) (p, s) =
    let (p', event) = process_received_byte byte p in
    receive_bytes env now rest (p', handle_event env now event s)

unfoldable pub handle_received_bytes : BridgeEnv → ℕ → List ℕ → Parser × Bridge → Parser × Bridge
handle_received_bytes env now bytes (p, s) = receive_bytes env now bytes (
  p,
  record s {
    last_rx_timestamp_ms = now;
    bytes_received = u32 (s.bytes_received + length bytes);
    last_error_code = error_none;
  },
)
