-- ===== src/Uplink/Messages.antt =====
-- The codes and messages of uplink_app: uplink_app/config/default_uplink_app_msgdefs.h,
-- default_uplink_app_msgstruct.h, default_uplink_app_internal_cfg_values.h and shared_msgs/.
-- A byte or word from the wire that the code compares with an enumerator stays a number.
use cfs_telemetry_app.Common.{ℕ, List, Float32}

-- UPLINK_APP_Result_t
pub data UplinkResult : Type 0 where
  result_none accept reject routed failed reject_version reject_class reject_length : UplinkResult
  route_miss reject_route reject_sequence reject_state reject_checksum : UplinkResult
  reject_viewpoint duplicate executed_ok executed_failed reject_counter : UplinkResult
  reject_flight_mode : UplinkResult

-- UPLINK_APP_LinkState_t
pub data LinkState : Type 0 where
  link_nominal link_degraded link_lost link_failed : LinkState

-- UPLINK_APP_RouteTarget_t
pub data RouteTarget : Type 0 where
  route_none route_core route_downlink route_counter_mgmt route_flight_mode : RouteTarget

-- UPLINK_APP_ConfigPendingState_t
pub data ConfigPendingState : Type 0 where
  config_idle config_pending config_validating config_rejected : ConfigPendingState

-- UPLINK_APP_CommandClass_t, compared with the byte of a command.
abbrev pub class_none : ℕ
class_none = 0

abbrev pub class_config : ℕ
class_config = 1

abbrev pub class_route_update : ℕ
class_route_update = 2

abbrev pub class_viewpoint : ℕ
class_viewpoint = 3

abbrev pub class_recovery : ℕ
class_recovery = 4

abbrev pub class_mode : ℕ
class_mode = 5

abbrev pub class_diagnostic : ℕ
class_diagnostic = 6

abbrev pub class_counter_mgmt : ℕ
class_counter_mgmt = 7

abbrev pub class_flight_mode : ℕ
class_flight_mode = 8

-- UPLINK_APP_FlightMode_t
abbrev pub flight_mode_hover : ℕ
flight_mode_hover = 0

abbrev pub flight_mode_waypoint : ℕ
flight_mode_waypoint = 1

abbrev pub flight_mode_land : ℕ
flight_mode_land = 2

-- UPLINK_APP_CounterScope_t
abbrev pub scope_mavlink_bridge : ℕ
scope_mavlink_bridge = 1

abbrev pub scope_cfs_core : ℕ
scope_cfs_core = 2

abbrev pub scope_uplink : ℕ
scope_uplink = 3

abbrev pub scope_lora_tdm : ℕ
scope_lora_tdm = 4

-- UPLINK_APP_RouteOpType_t
abbrev pub route_op_replace : ℕ
route_op_replace = 1

abbrev pub route_op_add : ℕ
route_op_add = 2

abbrev pub route_op_delete : ℕ
route_op_delete = 3

abbrev pub route_op_modify : ℕ
route_op_modify = 4

abbrev pub route_version_2 : ℕ
route_version_2 = 2

abbrev pub protocol_version : ℕ
protocol_version = 1

abbrev pub max_payload_length : ℕ
max_payload_length = 196

abbrev pub route_max_waypoints : ℕ
route_max_waypoints = 37

-- UPLINK_FWD_CMD_TLM_t; the array of 196 bytes is a list.
pub record ProcessUplinkCmd : Type 0 where
  pub version : ℕ
  pub command_class : ℕ
  pub payload_length : ℕ
  pub flags : ℕ
  pub sequence : ℕ
  pub checksum : ℕ
  pub payload : List ℕ

-- ROUTE_WAYPOINT_t; the two int32 fields are kept as their bit patterns.
pub record Waypoint : Type 0 where
  pub cmd_type : ℕ
  pub param1 : Float32
  pub param2 : Float32
  pub param3 : Float32
  pub param4 : Float32
  pub lat_e7 : ℕ
  pub lon_e7 : ℕ
  pub z : Float32

-- UPLINK_APP_RouteUpdatePayload_t; `waypoints` holds the entries that the parser fills, and the
-- entries after them are zero.
pub record RouteUpdatePayload : Type 0 where
  pub route_type : ℕ
  pub route_version : ℕ
  pub waypoint_count : ℕ
  pub reserved : ℕ
  pub waypoints : List Waypoint

-- UPLINK_APP_ViewpointPayload_t
pub record ViewpointPayload : Type 0 where
  pub viewpoint_type : ℕ
  pub viewpoint_version : ℕ
  pub position_frame : ℕ
  pub x : Float32
  pub y : Float32
  pub z : Float32
  pub yaw : Float32
  pub pitch : Float32
  pub hold_time_ms : ℕ

-- UPLINK_APP_FlightModePayload_t
pub record FlightModePayload : Type 0 where
  pub flight_mode : ℕ
  pub waypoint_start_index : ℕ
  pub request_token : ℕ

-- UPLINK_APP_FlightModeCtrlCmd_t, with the function code of its header.
pub record FlightModeCtrlCmd : Type 0 where
  pub fcn_code : ℕ
  pub source_sequence : ℕ
  pub flight_mode : ℕ
  pub waypoint_start_index : ℕ

-- The fields that begin each message to another application.
pub record MsgStamp : Type 0 where
  pub seq : ℕ
  pub timestamp_ms : ℕ
  pub source_sequence : ℕ

-- UPLINK_APP_StatusTlm_t
pub record StatusTlm : Type 0 where
  pub seq : ℕ
  pub timestamp_ms : ℕ
  pub last_rx_timestamp_ms : ℕ
  pub accepted_count : ℕ
  pub rejected_count : ℕ
  pub routing_failure_count : ℕ
  pub last_command_code : ℕ
  pub last_command_sequence : ℕ
  pub last_command_result : UplinkResult
  pub link_state : LinkState
  pub valid : ℕ
  pub active_transport_id : ℕ
  pub last_route_target : RouteTarget
  pub config_pending_state : ConfigPendingState
  pub last_config_result : ℕ
  pub last_rollback_reason : ℕ
  pub fc_mission_result : ℕ
  pub fc_mission_upload_state : ℕ
  pub boot_count : ℕ
  pub boot_loop_suspect : ℕ
  pub short_boot_streak : ℕ
  pub last_reset_reason : ℕ
  pub fc_mission_upload_success_count : ℕ
  pub last_accepted_sequence : ℕ

-- UPLINK_APP_HkTlm_t
pub record HkTlm : Type 0 where
  pub command_counter : ℕ
  pub command_error_counter : ℕ
  pub publish_count : ℕ
  pub last_publish_timestamp_ms : ℕ

-- What the application hands to CFE_SB_TransmitMsg, by message id.
pub data SbMessage : Type 0 where
  status_tlm : StatusTlm → SbMessage
  hk_tlm : HkTlm → SbMessage
  route_update : MsgStamp → RouteUpdatePayload → SbMessage
  recovery_cmd : MsgStamp → ℕ → ℕ → ℕ → ℕ → SbMessage
  viewpoint_cmd : MsgStamp → ViewpointPayload → SbMessage
  config_cmd : MsgStamp → ℕ → List ℕ → SbMessage
  mode_cmd : MsgStamp → ℕ → ℕ → ℕ → SbMessage
  diagnostic_cmd : MsgStamp → ℕ → ℕ → ℕ → SbMessage
  reset_counters_cmd : ℕ → SbMessage
  flight_mode_ctrl_cmd : FlightModeCtrlCmd → SbMessage
