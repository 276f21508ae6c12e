-- ===== src/CfsCore/Commands.antt =====
-- The other commands of cfs_core_app: ProcessViewpointCommand, ProcessRecoveryCommand,
-- ProcessModeCommand, ProcessDiagnosticCommand and SendBridgeCtrlCmd (cfs_core_app/fsw/src/
-- cfs_core_app_utils.c), NOOP and RESET_COUNTERS (cfs_core_app_cmds.c).
pub mod Cases
use cfs_telemetry_app.Common.{
  ℕ, ◌+◌, Bool, true, false, not, ◌&&◌, List, [], ◌∷◌, ◌==◌, if◌then◌else◌, u8, u32, Float32,
}
use cfs_telemetry_app.CfsCore.State.{
  RouteCache, RouteTlm, route_snapshot, bridge_ctrl_cmd, App, bridge_app, uplink_app, lora_app,
  CoreApp, CoreEnv, transmit_core,
}
use cfs_telemetry_app.CfsCore.Persist.{save_core}
use cfs_telemetry_app.CfsCore.Config.{publish_exec_result}

-- VIEWPOINT_CMD_TLM_t
pub record ViewpointCmd : Type 0 where
  pub timestamp_ms : ℕ
  pub source_sequence : ℕ
  pub viewpoint_type : ℕ
  pub position_frame : ℕ
  pub x : Float32
  pub y : Float32
  pub z : Float32
  pub yaw : Float32
  pub pitch : Float32
  pub hold_time_ms : ℕ

-- RECOVERY_CMD_TLM_t, the fields that change the state.
pub record RecoveryCmd : Type 0 where
  pub source_sequence : ℕ
  pub recovery_action : ℕ

-- MODE_CMD_TLM_t
pub record ModeCmd : Type 0 where
  pub source_sequence : ℕ
  pub mode_action : ℕ
  pub requested_state : ℕ
  pub request_token : ℕ

-- DIAGNOSTIC_CMD_TLM_t
pub record DiagnosticCmd : Type 0 where
  pub source_sequence : ℕ
  pub diag_action : ℕ
  pub diag_target : ℕ

-- CFS_CORE_APP_RecoveryAction_t
abbrev pub action_reset_counter : ℕ
action_reset_counter = 0

abbrev pub action_restart_bridge : ℕ
action_restart_bridge = 1

abbrev pub action_parser_reset : ℕ
action_parser_reset = 2

abbrev pub action_serial_reconnect : ℕ
action_serial_reconnect = 3

abbrev pub action_restart_uplink : ℕ
action_restart_uplink = 4

abbrev pub action_restart_lora : ℕ
action_restart_lora = 5

-- CFS_CORE_APP_ModeAction_t and CFS_CORE_APP_ModeState_t
abbrev pub mode_enter : ℕ
mode_enter = 0

abbrev pub mode_exit : ℕ
mode_exit = 1

abbrev pub mode_normal : ℕ
mode_normal = 0

abbrev pub mode_recovery : ℕ
mode_recovery = 1

abbrev pub diag_target_cfs_core : ℕ
diag_target_cfs_core = 1

abbrev pub diag_route_readback_request : ℕ
diag_route_readback_request = 3

abbrev pub count_command : CoreApp → CoreApp
count_command s = record s { cmd_counter = u8 (s.cmd_counter + 1) }

abbrev pub count_core_error : CoreApp → CoreApp
count_core_error s = record s { err_counter = u8 (s.err_counter + 1) }

-- The viewpoint is kept, and answered with a failure: nothing carries it out.
unfoldable pub process_viewpoint_command : CoreEnv → ViewpointCmd → CoreApp → CoreApp
process_viewpoint_command env msg s =
    publish_exec_result env msg.source_sequence 3 false (u8 msg.viewpoint_type) (record s {
      viewpoint_cmd = record {
        timestamp_ms = msg.timestamp_ms;
        source_sequence = msg.source_sequence;
        viewpoint_type = msg.viewpoint_type;
        position_frame = msg.position_frame;
        valid = true;
        x = msg.x;
        y = msg.y;
        z = msg.z;
        yaw = msg.yaw;
        pitch = msg.pitch;
        hold_time_ms = msg.hold_time_ms;
      };
    })

-- The bool that the function returns.
unfoldable pub send_bridge_ctrl_cmd : CoreEnv → ℕ → CoreApp → CoreApp × Bool
send_bridge_ctrl_cmd env fcn_code s =
    if not env.sets_fcn_code
    then (s, false)
    else (transmit_core env (bridge_ctrl_cmd fcn_code) s, env.delivers (bridge_ctrl_cmd fcn_code))

-- The case RESET_COUNTER.
unfoldable pub reset_recovery : CoreEnv → CoreApp → CoreApp
reset_recovery env s = save_core env.save_outcome (record s {
  health = record s.health { recovery_start_ms = 0 };
  cooldowns = record {
    bridge = record { restart_count = 0; next_restart_ms = 0 };
    uplink = record { restart_count = 0; next_restart_ms = 0 };
    lora = record { restart_count = 0; next_restart_ms = 0 };
  };
})

-- A restart that the ground asks for: neither counted nor held back.
abbrev pub restart_on_command : CoreEnv → App → CoreApp → CoreApp × Bool
restart_on_command env app s =
    if env.finds app then (record s { restarted = app ∷ s.restarted }, true) else (s, false)

-- The switch, with the final value of Ok. The function codes are
-- MAVLINK_BRIDGE_APP_PARSER_RESET_CC and MAVLINK_BRIDGE_APP_SERIAL_RECONNECT_CC.
unfoldable pub recover : CoreEnv → ℕ → CoreApp → CoreApp × Bool
recover env action s =
    if action == action_reset_counter
    then (reset_recovery env s, true)
    else if action == action_restart_bridge
    then restart_on_command env bridge_app s
    else if action == action_restart_uplink
    then restart_on_command env uplink_app s
    else if action == action_restart_lora
    then restart_on_command env lora_app s
    else if action == action_parser_reset
    then send_bridge_ctrl_cmd env 3 s
    else if action == action_serial_reconnect
    then send_bridge_ctrl_cmd env 4 s
    else (s, false)

-- RecoveryRequested is set in the buffer of the next report, which the report clears.
unfoldable pub process_recovery_command : CoreEnv → RecoveryCmd → CoreApp → CoreApp
process_recovery_command env msg s =
    let (s', ok) = recover env msg.recovery_action (record (count_command s) {
      recovery_requested_count = u32 (s.recovery_requested_count + 1);
      health_tlm = record s.health_tlm { recovery_requested = 1 };
    }) in
    publish_exec_result env msg.source_sequence 4 ok msg.recovery_action s'

-- The transition that the command asks for, if it is allowed.
unfoldable pub is_transition_allowed : ModeCmd → ℕ → Bool
is_transition_allowed msg current =
    if msg.mode_action == mode_enter
    then msg.requested_state == mode_recovery && current == mode_normal
    else if msg.mode_action == mode_exit
    then msg.requested_state == mode_normal && current == mode_recovery
    else false

unfoldable pub process_mode_command : CoreEnv → ModeCmd → CoreApp → CoreApp
process_mode_command env msg s =
    let allowed = is_transition_allowed msg s.current_mode_state in
    let s' = record (count_command s) { last_mode_request_token = msg.request_token } in
    publish_exec_result env msg.source_sequence 5 allowed msg.requested_state (
      if allowed
      then record s' { current_mode_state = msg.requested_state }
      else count_core_error s')

-- The snapshot of the route for lora_tdm_app; its type is CFS_CORE_APP_ROUTE_SEGMENT_NONE.
abbrev pub snapshot_of : DiagnosticCmd → RouteCache → RouteTlm
snapshot_of msg route = record {
  seq = route.update_count;
  timestamp_ms = route.timestamp_ms;
  source_sequence = msg.source_sequence;
  route_type = 0;
  route_version = route.route_version;
  waypoint_count = route.waypoint_count;
  waypoints = route.waypoints;
}

unfoldable pub process_diagnostic_command : CoreEnv → DiagnosticCmd → CoreApp → CoreApp
process_diagnostic_command env msg s =
    if not (msg.diag_target == diag_target_cfs_core)
    then s
    else if not (msg.diag_action == diag_route_readback_request)
    then s
    else transmit_core env (route_snapshot (snapshot_of msg s.mission_route)) (count_command s)

unfoldable pub core_noop : CoreApp → CoreApp
core_noop s = count_command s

unfoldable pub core_reset_counters : CoreApp → CoreApp
core_reset_counters s = record s { cmd_counter = 0; err_counter = 0 }
