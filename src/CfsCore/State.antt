-- ===== src/CfsCore/State.antt =====
-- The state of cfs_core_app (CFS_CORE_APP_Data_t of cfs_core_app/fsw/src/cfs_core_app.h) with the
-- part of the world that it writes, and what the world answers. The housekeeping, result and
-- snapshot buffers are overwritten before each use, so they are messages here and no fields.
use cfs_telemetry_app.Common.{ℕ, List, ◌∷◌, Option, Bool, Float32, if◌then◌else◌}
use cfs_telemetry_app.Common.Time.{SysTime}
use cfs_telemetry_app.Common.Executive.{RunStatus, SaveOutcome}
use cfs_telemetry_app.Uplink.Messages.{Waypoint}
use cfs_telemetry_app.CfsCore.Health.{Health}

-- CFS_CORE_APP_StateCache_t
pub record StateCache : Type 0 where
  pub timestamp_ms : ℕ  -- uint32, as are the next two
  pub arrival_ms : ℕ
  pub seq : ℕ
  pub valid : ℕ  -- uint8, as are the next two
  pub stale : ℕ
  pub error_code : ℕ
  pub received : Bool

-- CFS_CORE_APP_BridgeCache_t
pub record BridgeCache : Type 0 where
  pub link_state : ℕ
  pub last_error_code : ℕ
  pub last_rx_timestamp_ms : ℕ
  pub received : Bool

-- CFS_CORE_APP_AppHkCache_t
pub record AppHkCache : Type 0 where
  pub last_hk_rx_ms : ℕ
  pub received : Bool

-- CFS_CORE_APP_RouteCache_t; the array is the list of its 37 entries.
pub record RouteCache : Type 0 where
  pub timestamp_ms : ℕ
  pub source_sequence : ℕ
  pub update_count : ℕ
  pub route_type : ℕ
  pub route_version : ℕ
  pub waypoint_count : ℕ
  pub valid : Bool
  pub waypoints : List Waypoint

-- CFS_CORE_APP_ViewpointCache_t
pub record ViewpointCache : Type 0 where
  pub timestamp_ms : ℕ
  pub source_sequence : ℕ
  pub viewpoint_type : ℕ
  pub position_frame : ℕ
  pub valid : Bool
  pub x : Float32
  pub y : Float32
  pub z : Float32
  pub yaw : Float32
  pub pitch : Float32
  pub hold_time_ms : ℕ

-- CFS_CORE_APP_ConfigParams_t
pub record ConfigParams : Type 0 where
  pub attitude_timeout_ms : ℕ
  pub local_timeout_ms : ℕ
  pub gps_timeout_ms : ℕ
  pub ekf_timeout_ms : ℕ
  pub bridge_timeout_ms : ℕ
  pub publish_period_ms : ℕ

-- INPUT_STATUS_t
pub record InputStatus : Type 0 where
  pub valid : ℕ
  pub stale : ℕ
  pub error_code : ℕ
  pub timed_out : Bool

-- SYSTEM_HEALTH_TLM_t, which keeps its contents from one report to the next.
pub record SystemHealthTlm : Type 0 where
  pub seq : ℕ
  pub timestamp_ms : ℕ
  pub last_valid_input_timestamp_ms : ℕ
  pub health_state : ℕ
  pub fault_code : ℕ
  pub recovery_requested : ℕ
  pub attitude_status : InputStatus
  pub local_status : InputStatus
  pub gps_status : InputStatus
  pub ekf_status : InputStatus
  pub bridge_link_state : ℕ
  pub bridge_error_code : ℕ
  pub bridge_timed_out : Bool
  pub uplink_timed_out : Bool
  pub lora_timed_out : Bool

-- CFS_CORE_APP_HkTlm_t
pub record CoreHkTlm : Type 0 where
  pub command_counter : ℕ
  pub command_error_counter : ℕ
  pub mission_route_waypoint_count : ℕ
  pub publish_count : ℕ
  pub last_publish_timestamp_ms : ℕ
  pub last_route_update_timestamp_ms : ℕ
  pub route_update_count : ℕ
  pub bridge_restart_count : ℕ
  pub uplink_restart_count : ℕ
  pub lora_restart_count : ℕ
  pub last_fault_code : ℕ
  pub timebase_shift_count : ℕ

-- EXEC_RESULT_TLM_t
pub record ExecResult : Type 0 where
  pub source_sequence : ℕ
  pub source_app : ℕ
  pub command_class : ℕ
  pub generic_result : ℕ
  pub detail_code : ℕ

-- ROUTE_UPDATE_TLM_t, which ROUTE_SNAPSHOT_MID and FC_MISSION_READBACK_MID carry too.
pub record RouteTlm : Type 0 where
  pub seq : ℕ
  pub timestamp_ms : ℕ
  pub source_sequence : ℕ
  pub route_type : ℕ
  pub route_version : ℕ
  pub waypoint_count : ℕ
  pub waypoints : List Waypoint

-- What the application hands to CFE_SB_TransmitMsg, by message id.
pub data CoreMessage : Type 0 where
  core_hk : CoreHkTlm → CoreMessage
  system_health_tlm : SystemHealthTlm → CoreMessage
  exec_result_tlm : ExecResult → CoreMessage
  bridge_ctrl_cmd : ℕ → CoreMessage
  route_snapshot : RouteTlm → CoreMessage

-- The applications that can be restarted, by CFS_CORE_APP_BRIDGE_APP_NAME, UPLINK_APP_NAME and
-- LORA_APP_NAME.
pub data App : Type 0 where
  bridge_app uplink_app lora_app : App

-- The count of the restarts of an application, and the time before which the next one waits; 0 is
-- none.
pub record Cooldown : Type 0 where
  pub restart_count : ℕ
  pub next_restart_ms : ℕ

-- The three cooldowns.
pub record Cooldowns : Type 0 where
  pub bridge : Cooldown
  pub uplink : Cooldown
  pub lora : Cooldown

-- The counters of the caches of the flight state.
pub record CacheCounts : Type 0 where
  pub timestamp_rejected : ℕ  -- uint32, as are the next three
  pub timebase_shift : ℕ
  pub seq_rejected : ℕ
  pub seq_gap : ℕ

-- CFS_CORE_APP_Data_t
pub record CoreApp : Type 0 where
  pub cmd_counter : ℕ  -- uint8
  pub err_counter : ℕ  -- uint8
  pub config_pending_state : ℕ
  pub last_config_result : ℕ
  pub config_generation : ℕ  -- uint32
  pub active_config : ConfigParams
  pub pending_config : ConfigParams
  pub previous_config : ConfigParams
  pub counts : CacheCounts
  pub cooldowns : Cooldowns
  pub health : Health
  pub recovery_requested_count : ℕ
  pub current_mode_state : ℕ
  pub last_mode_request_token : ℕ
  pub run_status : RunStatus
  pub sequence_counter : ℕ
  pub publish_count : ℕ
  pub last_publish_time_ms : ℕ
  pub attitude_state : StateCache
  pub local_state : StateCache
  pub gps_state : StateCache
  pub ekf_state : StateCache
  pub bridge_state : BridgeCache
  pub uplink_app_state : AppHkCache
  pub lora_app_state : AppHkCache
  pub mission_route : RouteCache
  pub viewpoint_cmd : ViewpointCache
  pub health_tlm : SystemHealthTlm
  -- The messages that the software bus took, the latest first.
  pub sent : List CoreMessage
  -- The calls of CFE_ES_RestartApp, the latest first.
  pub restarted : List App
  -- The contents of the state file, if there is one.
  pub state_file : Option (List ℕ)

-- What the executive answers during one call of a handler: the clock, whether each message is
-- taken, whether CFE_MSG_SetFcnCode succeeds, whether CFE_ES_GetAppIDByName finds each application,
-- and the fates of the save after an automatic restart and of the other save.
pub record CoreEnv : Type 0 where
  pub time : SysTime
  pub delivers : CoreMessage → Bool
  pub sets_fcn_code : Bool
  pub finds : App → Bool
  pub restart_save_outcome : SaveOutcome
  pub save_outcome : SaveOutcome

-- CFE_SB_TransmitMsg: the bus takes the message if it answers CFE_SUCCESS.
unfoldable pub transmit_core : CoreEnv → CoreMessage → CoreApp → CoreApp
transmit_core env m s = if env.delivers m then record s { sent = m ∷ s.sent } else s
