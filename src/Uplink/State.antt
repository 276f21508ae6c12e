-- ===== src/Uplink/State.antt =====
-- The state of uplink_app (UPLINK_APP_Data_t of uplink_app/fsw/src/uplink_app.h) with the part of
-- the world that it writes, and what the world answers. Housekeeping and status buffers are
-- overwritten before each use, so they are messages here and no fields.
use cfs_telemetry_app.Common.{ℕ, List, Option, Bool, ◌∷◌, if◌then◌else◌}
use cfs_telemetry_app.Common.Time.{SysTime}
use cfs_telemetry_app.Common.Executive.{RunStatus, SaveOutcome}
use cfs_telemetry_app.Uplink.Messages.{
  UplinkResult, LinkState, RouteTarget, ConfigPendingState, FlightModeCtrlCmd, SbMessage,
}

pub record UplinkApp : Type 0 where
  pub cmd_counter : ℕ  -- uint8
  pub err_counter : ℕ  -- uint8
  pub run_status : RunStatus
  pub sequence_counter : ℕ  -- uint32, as are the next eight
  pub publish_count : ℕ
  pub last_publish_time_ms : ℕ
  pub last_rx_time_ms : ℕ
  pub accepted_count : ℕ
  pub rejected_count : ℕ
  pub duplicate_count : ℕ
  pub routing_failure_count : ℕ
  pub last_accepted_sequence : ℕ
  pub boot_count : ℕ  -- uint8, as are the next five
  pub last_reset_reason : ℕ
  pub survived_mark : ℕ
  pub prev_survived_mark : ℕ
  pub short_boot_streak : ℕ
  pub boot_loop_suspect : ℕ
  pub boot_start_ms : ℕ  -- uint32
  pub last_command_code : ℕ  -- uint16
  pub last_rx_sequence : ℕ  -- uint16
  pub last_command_result : UplinkResult
  pub last_route_target : RouteTarget
  pub link_state : LinkState
  pub valid : ℕ
  pub active_transport_id : ℕ
  pub config_pending_state : ConfigPendingState
  pub last_config_result : ℕ
  pub last_rollback_reason : ℕ
  pub cfs_health_state : ℕ
  pub cfs_health_received : Bool
  pub fc_mission_result : ℕ
  pub fc_mission_upload_state : ℕ
  pub fc_mission_upload_success_count : ℕ
  pub flight_mode_ctrl : FlightModeCtrlCmd
  -- The messages that the software bus took, the latest first.
  pub sent : List SbMessage
  -- The contents of the state file, if there is one.
  pub state_file : Option (List ℕ)

-- What the executive answers during one call of a handler: two readings of the clock, the status
-- that CFE_SB_TransmitMsg gives to each message (true is CFE_SUCCESS), that of
-- CFE_MSG_SetFcnCode, and the fate of a save.
pub record Env : Type 0 where
  pub rx_time : SysTime
  pub tlm_time : SysTime
  pub delivers : SbMessage → Bool
  pub sets_fcn_code : Bool
  pub save_outcome : SaveOutcome

-- CFE_SB_TransmitMsg: the bus takes the message if it answers CFE_SUCCESS.
abbrev pub transmit : Env → SbMessage → UplinkApp → UplinkApp
transmit env m s = if env.delivers m then record s { sent = m ∷ s.sent } else s
