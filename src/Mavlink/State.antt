-- ===== src/Mavlink/State.antt =====
-- The state of mavlink_bridge_app: MAVLINK_BRIDGE_APP_Data_t (mavlink_bridge_app/fsw/src/
-- mavlink_bridge_app.h) without its message buffers and the times that nothing reads, the bytes on the
-- serial port, and what the executive and the port answer.
use cfs_telemetry_app.Common.{ℕ, ◌+◌, Bool, List, ◌∷◌, if◌then◌else◌, u32, Float32, Option}
use cfs_telemetry_app.Common.Time.{SysTime}
use cfs_telemetry_app.Common.Executive.{SaveOutcome}
use cfs_telemetry_app.Uplink.Messages.{Waypoint}
use cfs_telemetry_app.CfsCore.State.{RouteTlm, ExecResult}

-- MAVLINK_BRIDGE_APP_LinkState_t
abbrev pub link_disconnected : ℕ
link_disconnected = 0

abbrev pub link_degraded : ℕ
link_degraded = 1

abbrev pub link_connected : ℕ
link_connected = 2

-- MAVLINK_BRIDGE_APP_ErrorCode_t, the codes that the model sets.
abbrev pub error_none : ℕ
error_none = 0

abbrev pub error_parse_fail : ℕ
error_parse_fail = 4

abbrev pub error_ekf_unhealthy : ℕ
error_ekf_unhealthy = 7

abbrev pub error_gps_no_fix : ℕ
error_gps_no_fix = 8

abbrev pub error_invalid_value : ℕ
error_invalid_value = 9

-- MAVLINK_BRIDGE_APP_MissionUploadState_t
abbrev pub upload_idle : ℕ
upload_idle = 0

abbrev pub upload_clearing : ℕ
upload_clearing = 1

abbrev pub upload_active : ℕ
upload_active = 2

-- MAVLINK_BRIDGE_APP_MissionDownloadState_t
abbrev pub download_idle : ℕ
download_idle = 0

abbrev pub wait_count : ℕ
wait_count = 1

abbrev pub wait_item : ℕ
wait_item = 2

-- MAVLINK_BRIDGE_APP_UploadResult_t
abbrev pub result_success : ℕ
result_success = 1

abbrev pub result_timeout : ℕ
result_timeout = 2

abbrev pub result_nak : ℕ
result_nak = 3

-- The fields of an upload. The arrays MissionPending... are one list of 37 entries.
pub record Upload : Type 0 where
  pub state : ℕ
  pub retry : ℕ
  pub wp_count : ℕ
  pub timeout_ms : ℕ
  pub success_count : ℕ
  pub fail_count : ℕ
  pub last_timestamp_ms : ℕ
  pub last_wp_count : ℕ
  pub last_result : ℕ
  pub pending : List Waypoint

-- The route that the flight controller has confirmed: the arrays ActiveWaypoint..., their count, and
-- ActiveResumeIndex.
pub record ActiveRoute : Type 0 where
  pub waypoints : List Waypoint
  pub count : ℕ
  pub resume_index : ℕ

-- The fields of a download and of the readback that repeats it.
pub record Download : Type 0 where
  pub state : ℕ
  pub seq : ℕ
  pub expected_count : ℕ
  pub timeout_ms : ℕ
  pub waypoints : List Waypoint
  pub is_pending : Bool
  pub backoff_ms : ℕ
  pub next_retry_ms : ℕ
  pub readback_seq : ℕ

-- MAVLINK_BRIDGE_APP_ConfigParams_t
pub record StreamParams : Type 0 where
  pub attitude_interval_us : ℕ
  pub local_position_interval_us : ℕ
  pub global_position_interval_us : ℕ
  pub gps_raw_interval_us : ℕ
  pub ekf_status_interval_us : ℕ
  pub reconnect_interval_ms : ℕ
  pub heartbeat_interval_ms : ℕ

-- The fields of the configuration.
pub record BridgeConfig : Type 0 where
  pub pending_state : ℕ
  pub last_result : ℕ
  pub generation : ℕ  -- uint32
  pub active : StreamParams
  pub pending : StreamParams
  pub previous : StreamParams

-- The messages that the bridge publishes: the readback of the mission, the result of a command, and
-- the state messages with their time, sequence, Valid and ErrorCode (Stale is 0) and their values.
pub data BridgeMessage : Type 0 where
  fc_mission_readback_tlm : RouteTlm → BridgeMessage
  bridge_exec_result : ExecResult → BridgeMessage
  attitude_tlm ekf_local_tlm : ℕ → ℕ → List Float32 → BridgeMessage
  gps_raw_tlm ekf_status_tlm : ℕ → ℕ → ℕ → ℕ → List ℕ → BridgeMessage
  sys_time_tlm : ℕ → ℕ → ℕ → BridgeMessage

-- MAVLINK_BRIDGE_APP_Data_t and MAVLINK_BRIDGE_APP_TxSequence.
pub record Bridge : Type 0 where
  pub cmd_counter : ℕ  -- uint8
  pub err_counter : ℕ  -- uint8
  pub sequence_counter : ℕ
  pub last_rx_timestamp_ms : ℕ
  pub parse_error_count : ℕ
  pub non_finite_value_count : ℕ
  pub bytes_received : ℕ
  pub is_serial_open : Bool  -- SerialFd is not negative
  pub target_system_id : ℕ
  pub target_component_id : ℕ
  pub stream_request_ack_count : ℕ  -- uint8
  pub link_state : ℕ
  pub last_error_code : ℕ
  pub is_stream_request_pending : Bool
  pub config : BridgeConfig
  pub upload : Upload
  pub active : ActiveRoute
  pub download : Download
  pub base_mode : ℕ
  pub system_status : ℕ
  pub is_armed : Bool
  pub tx_sequence : ℕ  -- uint8
  -- The frames that the serial port took whole, the latest first.
  pub written : List (List ℕ)
  -- The messages that the software bus took, the latest first.
  pub sent : List BridgeMessage
  -- The contents of the state file, if there is one.
  pub state_file : Option (List ℕ)

-- The clock, whether the port takes each frame whole and the bus each message, and the conversions to
-- single precision: of an integer, and of a position in 1e-7 degrees to degrees, and the values that
-- PublishGlobalPositionAsLocal computes of an altitude in mm and of a speed in cm/s; and the fate of a
-- save.
pub record BridgeEnv : Type 0 where
  pub time : SysTime
  pub writes : List ℕ → Bool
  pub delivers : BridgeMessage → Bool
  pub to_degrees : ℕ → Float32
  pub to_depth : ℕ → Float32
  pub to_speed : ℕ → Float32
  pub save_outcome : SaveOutcome

-- CFE_SB_TransmitMsg: the bus takes the message if it answers CFE_SUCCESS.
unfoldable pub transmit_bridge : BridgeEnv → BridgeMessage → Bridge → Bridge
transmit_bridge env m s = if env.delivers m then record s { sent = m ∷ s.sent } else s

-- MAVLINK_BRIDGE_APP_RecordParseError
abbrev pub record_parse_error : ℕ → Bridge → Bridge
record_parse_error code s = record s {
  last_error_code = code;
  parse_error_count = u32 (s.parse_error_count + 1);
}

-- MAVLINK_BRIDGE_APP_RecordLengthError and RecordNonFiniteError
abbrev pub record_length_error : Bridge → Bridge
record_length_error s = record_parse_error error_invalid_value s

abbrev pub record_non_finite_error : Bridge → Bridge
record_non_finite_error s = record s {
  last_error_code = error_invalid_value;
  non_finite_value_count = u32 (s.non_finite_value_count + 1);
}
