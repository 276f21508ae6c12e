-- ===== src/Mavlink/Send.antt =====
-- MAVLINK_BRIDGE_APP_SendMavlinkV2 and the frames of the mission protocol that go through it
-- (mavlink_bridge_app/fsw/src/mavlink_bridge_app_utils.c). A write that stops inside a frame is a
-- failure: `written` holds the frames that went out whole.
use cfs_telemetry_app.Common.{
  ℕ, ◌+◌, Bool, true, false, not, ◌||◌, List, [], ◌∷◌, ◌++◌, ◌==◌, ltb, if◌then◌else◌, length,
  get_or, replicate, u8, bytes16, bytes32,
}
use cfs_telemetry_app.Uplink.Messages.{Waypoint}
use cfs_telemetry_app.CfsCore.Main.{empty_waypoint}
use cfs_telemetry_app.Mavlink.Parser.{max_payload_len}
use cfs_telemetry_app.Mavlink.Frame.{mavlink_frame}
use cfs_telemetry_app.Mavlink.State.{Bridge, BridgeEnv}

-- MAVLINK_MSG_ID_... and the CRC_EXTRA of each message.
abbrev pub mission_item_id : ℕ
mission_item_id = 39

abbrev pub mission_request_id : ℕ
mission_request_id = 40

abbrev pub mission_current_id : ℕ
mission_current_id = 42

abbrev pub mission_request_list_id : ℕ
mission_request_list_id = 43

abbrev pub mission_count_id : ℕ
mission_count_id = 44

abbrev pub mission_clear_all_id : ℕ
mission_clear_all_id = 45

abbrev pub mission_ack_id : ℕ
mission_ack_id = 47

abbrev pub mission_request_int_id : ℕ
mission_request_int_id = 51

abbrev pub mission_item_int_id : ℕ
mission_item_int_id = 73

-- MAVLINK_MAX_FRAME_LEN
abbrev pub max_frame_len : ℕ
max_frame_len = 64

-- The answer is whether the status is CFE_SUCCESS.
unfoldable pub send_mavlink_v2 : BridgeEnv → ℕ → List ℕ → ℕ → Bridge → Bridge × Bool
send_mavlink_v2 env msg_id payload crc_extra s =
    let frame = mavlink_frame s.tx_sequence msg_id payload crc_extra in
    let s' : Bridge = record s { tx_sequence = u8 (s.tx_sequence + 1) } in
    if not s.is_serial_open
    then (s, false)
    else if ltb max_payload_len (length payload) || ltb max_frame_len (10 + length payload + 2)
    then (s, false)
    else if env.writes frame
    then (record s' { written = frame ∷ s.written }, true)
    else (s', false)

-- The calls that ignore the status.
abbrev pub send_frame : BridgeEnv → ℕ → List ℕ → ℕ → Bridge → Bridge
send_frame env msg_id payload crc_extra s = (send_mavlink_v2 env msg_id payload crc_extra s).0

-- The addressee; MAVLINK_MISSION_TYPE_MISSION and MAVLINK_MISSION_ACCEPTED are 0.
abbrev pub addressed : Bridge → List ℕ → List ℕ
addressed s rest = s.target_system_id ∷ s.target_component_id ∷ rest

unfoldable pub send_mission_clear_all : BridgeEnv → Bridge → Bridge
send_mission_clear_all env s = send_frame env mission_clear_all_id (addressed s (0 ∷ [])) 232 s

unfoldable pub send_mission_count : BridgeEnv → ℕ → Bridge → Bridge
send_mission_count env count s =
    send_frame env mission_count_id (bytes16 count ++ addressed s (0 ∷ [])) 221 s

abbrev pub waypoint_at : List Waypoint → ℕ → Waypoint
waypoint_at waypoints i = get_or waypoints i empty_waypoint

-- The 38 bytes; `current` is set at the index where the flight controller resumes.
abbrev pub item_int_payload : Bridge → ℕ → Waypoint → List ℕ
item_int_payload s seq w =
    bytes32 w.param1
    ++ bytes32 w.param2
    ++ bytes32 w.param3
    ++ bytes32 w.param4
    ++ bytes32 w.lat_e7
    ++ bytes32 w.lon_e7
    ++ bytes32 w.z
    ++ bytes16 seq
    ++ bytes16 w.cmd_type
    ++ addressed s (3 ∷ (if seq == s.active.resume_index then 1 else 0) ∷ 1 ∷ 0 ∷ [])

unfoldable pub send_mission_item_int : BridgeEnv → ℕ → Bridge → Bridge
send_mission_item_int env seq s =
    send_frame env mission_item_int_id (item_int_payload s seq (waypoint_at s.upload.pending seq))
      38 s

-- The 37 bytes of the legacy item, with the position as floats.
abbrev pub item_payload : BridgeEnv → Bridge → ℕ → Waypoint → List ℕ
item_payload env s seq w =
    replicate 16 0
    ++ bytes32 (env.to_degrees w.lat_e7)
    ++ bytes32 (env.to_degrees w.lon_e7)
    ++ bytes32 w.z
    ++ bytes16 seq
    ++ bytes16 w.cmd_type
    ++ addressed s (3 ∷ 0 ∷ 1 ∷ [])

unfoldable pub send_mission_item : BridgeEnv → ℕ → Bridge → Bridge
send_mission_item env seq s =
    send_frame env mission_item_id (item_payload env s seq (waypoint_at s.upload.pending seq)) 254 s

unfoldable pub send_mission_request_list : BridgeEnv → Bridge → Bridge
send_mission_request_list env s =
    send_frame env mission_request_list_id (addressed s (0 ∷ [])) 132 s

unfoldable pub send_mission_request_int : BridgeEnv → ℕ → Bridge → Bridge
send_mission_request_int env seq s =
    send_frame env mission_request_int_id (bytes16 seq ++ addressed s (0 ∷ [])) 196 s

unfoldable pub send_mission_ack_accepted : BridgeEnv → Bridge → Bridge
send_mission_ack_accepted env s = send_frame env mission_ack_id (addressed s (0 ∷ [])) 153 s
