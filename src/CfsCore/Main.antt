-- ===== src/CfsCore/Main.antt =====
-- The dispatcher, the state messages, the initialization and the main loop of cfs_core_app:
-- cfs_core_app/fsw/src/cfs_core_app_dispatch.c, cfs_core_app.c and ProcessStateMessage of
-- cfs_core_app_utils.c.
pub mod Configured
pub mod Bounds
pub mod KeepsRoute
pub mod Route
pub mod Readback
use cfs_telemetry_app.Common.{
  ℕ, ◌+◌, Bool, true, false, not, List, [], ◌∷◌, Option, none, some, ◌==◌, if◌then◌else◌, u32,
  Float32, replicate,
}
use cfs_telemetry_app.Common.Time.{get_time_ms}
use cfs_telemetry_app.Common.Executive.{RunStatus, app_run, app_error}
use cfs_telemetry_app.Uplink.Messages.{Waypoint}
use cfs_telemetry_app.CfsCore.State.{
  StateCache, InputStatus, ConfigParams, RouteTlm, RouteCache, CoreApp, CoreEnv,
}
use cfs_telemetry_app.CfsCore.Cache.{StateTlm, update_state_cache, all_finite}
use cfs_telemetry_app.CfsCore.Publish.{publish_health, service_core, report_core_housekeeping}
use cfs_telemetry_app.CfsCore.Persist.{load_core}
use cfs_telemetry_app.CfsCore.Config.{ConfigCmd, process_config_command}
use cfs_telemetry_app.CfsCore.Commands.{
  ViewpointCmd, RecoveryCmd, ModeCmd, DiagnosticCmd, count_core_error, process_viewpoint_command,
  process_recovery_command, process_mode_command, process_diagnostic_command, core_noop,
  core_reset_counters,
}

-- The messages that ProcessStateMessage takes, by message id; the two with floats carry the prefix
-- and the six floats.
pub data StateMsg : Type 0 where
  no_msg_id uplink_hk lora_hk : StateMsg
  bridge_state_hk : ℕ → ℕ → ℕ → StateMsg
  attitude ekf_local : StateTlm → List Float32 → StateMsg
  gps_raw ekf_status : StateTlm → StateMsg
  fc_mission_readback route_update_msg : RouteTlm → StateMsg

-- Valid is cleared where a float is not finite, also of a cache that kept its old contents.
abbrev pub check_finite : List Float32 → StateCache → StateCache
check_finite floats cache = if not (all_finite floats) then record cache { valid = 0 } else cache

-- CFS_CORE_APP_SetRouteCacheWaypoints, followed by CFS_CORE_APP_BumpRouteCacheCounters.
unfoldable pub set_route_cache : RouteTlm → RouteCache → RouteCache
set_route_cache msg cache = record {
  timestamp_ms = msg.timestamp_ms;
  source_sequence = msg.source_sequence;
  update_count = u32 (cache.update_count + 1);
  route_type = msg.route_type;
  route_version = msg.route_version;
  waypoint_count = msg.waypoint_count;
  valid = true;
  waypoints = msg.waypoints;
}

-- The branches of the function, before the health check that follows them.
unfoldable pub take_state : ℕ → StateMsg → CoreApp → CoreApp
take_state now no_msg_id s = count_core_error s
take_state now (bridge_state_hk link error rx) s = record s {
  bridge_state = record {
    link_state = link;
    last_error_code = error;
    last_rx_timestamp_ms = rx;
    received = true;
  };
}
take_state now uplink_hk s = record s {
  uplink_app_state = record { last_hk_rx_ms = now; received = true };
}
take_state now lora_hk s = record s {
  lora_app_state = record { last_hk_rx_ms = now; received = true };
}
take_state now (attitude msg floats) s =
    let (cache, counts) = update_state_cache msg now s.attitude_state s.counts in
    record s { attitude_state = check_finite floats cache; counts = counts }
take_state now (ekf_local msg floats) s =
    let (cache, counts) = update_state_cache msg now s.local_state s.counts in
    record s { local_state = check_finite floats cache; counts = counts }
take_state now (gps_raw msg) s =
    let (cache, counts) = update_state_cache msg now s.gps_state s.counts in
    record s { gps_state = cache; counts = counts }
take_state now (ekf_status msg) s =
    let (cache, counts) = update_state_cache msg now s.ekf_state s.counts in
    record s { ekf_state = cache; counts = counts }
take_state now (fc_mission_readback msg) s = record s {
  mission_route = set_route_cache msg s.mission_route;
}
take_state now (route_update_msg msg) s =
    if msg.route_type == 1
    then record s { mission_route = set_route_cache msg s.mission_route }
    else s

-- The early return where the message has no id.
abbrev pub has_msg_id : StateMsg → Bool
has_msg_id no_msg_id = false
has_msg_id _ = true

unfoldable pub process_state_message : CoreEnv → StateMsg → CoreApp → CoreApp
process_state_message env msg s =
    let now = get_time_ms env.time in
    let s' = take_state now msg s in if has_msg_id msg then publish_health env now true s' else s'

-- What arrives on the pipe, by its message id.
pub data CorePipeMsg : Type 0 where
  no_id send_hk_msg foreign_mid : CorePipeMsg
  state_msg : StateMsg → CorePipeMsg
  config_msg : ConfigCmd → CorePipeMsg
  viewpoint_msg : ViewpointCmd → CorePipeMsg
  recovery_msg : RecoveryCmd → CorePipeMsg
  mode_msg : ModeCmd → CorePipeMsg
  diagnostic_msg : DiagnosticCmd → CorePipeMsg
  -- A command of the application: what CFE_MSG_GetFcnCode gives, `none` if it fails, and whether
  -- the size is that of a command without parameters.
  core_command : Option ℕ → Bool → CorePipeMsg

-- CFS_CORE_APP_VerifyCmdLength, and the handler behind it.
abbrev pub when_length_fits : Bool → (CoreApp → CoreApp) → CoreApp → CoreApp
when_length_fits fits handler s = if fits then handler s else count_core_error s

unfoldable pub process_core_code : Option ℕ → Bool → CoreApp → CoreApp
process_core_code none fits s = count_core_error s
process_core_code (some code) fits s =
    if code == 0
    then when_length_fits fits core_noop s
    else if code == 1
    then when_length_fits fits core_reset_counters s
    else count_core_error s

unfoldable pub core_task_pipe : CoreEnv → CorePipeMsg → CoreApp → CoreApp
core_task_pipe env no_id s = count_core_error s
core_task_pipe env send_hk_msg s = report_core_housekeeping env s
core_task_pipe env (state_msg msg) s = process_state_message env msg s
core_task_pipe env (config_msg msg) s = process_config_command env msg s
core_task_pipe env (viewpoint_msg msg) s = process_viewpoint_command env msg s
core_task_pipe env (recovery_msg msg) s = process_recovery_command env msg s
core_task_pipe env (mode_msg msg) s = process_mode_command env msg s
core_task_pipe env (diagnostic_msg msg) s = process_diagnostic_command env msg s
core_task_pipe env foreign_mid s = count_core_error s
core_task_pipe env (core_command code fits) s = process_core_code code fits s

-- What CFE_SB_ReceiveBuffer gives.
pub data CoreReceived : Type 0 where
  core_message : CorePipeMsg → CoreReceived
  core_time_out core_pipe_error : CoreReceived

unfoldable pub core_loop_turn : CoreEnv → CoreReceived → CoreApp → CoreApp
core_loop_turn env (core_message msg) s = core_task_pipe env msg s
core_loop_turn env core_time_out s = service_core env s
core_loop_turn env core_pipe_error s = record s { run_status = app_error }

abbrev empty_cache : StateCache
empty_cache = record {
  timestamp_ms = 0;
  arrival_ms = 0;
  seq = 0;
  valid = 0;
  stale = 0;
  error_code = 0;
  received = false;
}

abbrev empty_status : InputStatus
empty_status = record { valid = 0; stale = 0; error_code = 0; timed_out = false }

abbrev pub empty_waypoint : Waypoint
empty_waypoint = record {
  cmd_type = 0;
  param1 = 0;
  param2 = 0;
  param3 = 0;
  param4 = 0;
  lat_e7 = 0;
  lon_e7 = 0;
  z = 0;
}

-- The state that memset and the assignments after it leave; the state file outlives it.
unfoldable pub core_initial : Option (List ℕ) → CoreApp
core_initial file =
    let params : ConfigParams = record {
      attitude_timeout_ms = 2000;
      local_timeout_ms = 2000;
      gps_timeout_ms = 3000;
      ekf_timeout_ms = 2000;
      bridge_timeout_ms = 3000;
      publish_period_ms = 1000;
    } in
    record {
      cmd_counter = 0;
      err_counter = 0;
      config_pending_state = 0;
      last_config_result = 0;
      config_generation = 0;
      active_config = params;
      pending_config = params;
      previous_config = params;
      counts = record { timestamp_rejected = 0; timebase_shift = 0; seq_rejected = 0; seq_gap = 0 };
      cooldowns = record {
        bridge = record { restart_count = 0; next_restart_ms = 0 };
        uplink = record { restart_count = 0; next_restart_ms = 0 };
        lora = record { restart_count = 0; next_restart_ms = 0 };
      };
      health = record {
        recovery_start_ms = 0;
        nominal_eligible_since = 0;
        last_health_state = 0;
        last_fault_code = 0;
      };
      recovery_requested_count = 0;
      current_mode_state = 0;
      last_mode_request_token = 0;
      run_status = app_run;
      sequence_counter = 0;
      publish_count = 0;
      last_publish_time_ms = 0;
      attitude_state = empty_cache;
      local_state = empty_cache;
      gps_state = empty_cache;
      ekf_state = empty_cache;
      bridge_state = record {
        link_state = 0;
        last_error_code = 0;
        last_rx_timestamp_ms = 0;
        received = false;
      };
      uplink_app_state = record { last_hk_rx_ms = 0; received = false };
      lora_app_state = record { last_hk_rx_ms = 0; received = false };
      mission_route = record {
        timestamp_ms = 0;
        source_sequence = 0;
        update_count = 0;
        route_type = 0;
        route_version = 0;
        waypoint_count = 0;
        valid = false;
        waypoints = replicate 37 empty_waypoint;
      };
      viewpoint_cmd = record {
        timestamp_ms = 0;
        source_sequence = 0;
        viewpoint_type = 0;
        position_frame = 0;
        valid = false;
        x = 0;
        y = 0;
        z = 0;
        yaw = 0;
        pitch = 0;
        hold_time_ms = 0;
      };
      health_tlm = record {
        seq = 0;
        timestamp_ms = 0;
        last_valid_input_timestamp_ms = 0;
        health_state = 0;
        fault_code = 0;
        recovery_requested = 0;
        attitude_status = empty_status;
        local_status = empty_status;
        gps_status = empty_status;
        ekf_status = empty_status;
        bridge_link_state = 0;
        bridge_error_code = 0;
        bridge_timed_out = false;
        uplink_timed_out = false;
        lora_timed_out = false;
      };
      sent = [];
      restarted = [];
      state_file = file;
    }

-- CFS_CORE_APP_Init: `registered` is whether each registration of the executive succeeds.
unfoldable pub core_init : Bool → Bool → Option (List ℕ) → CoreApp × Bool
core_init registered opens file =
    if not registered
    then (core_initial file, false)
    else (load_core opens (core_initial file), true)

abbrev pub while_core_runs : RunStatus → CoreApp → CoreApp → CoreApp
while_core_runs app_run next s = next
while_core_runs app_error next s = s

-- A session is its turns, each with what it receives and what the world answers.
unfoldable pub core_run_loop : List (CoreEnv × CoreReceived) → CoreApp → CoreApp
core_run_loop [] s = s
core_run_loop ((env, received) ∷ rest) s =
    let next = core_run_loop rest (core_loop_turn env received s) in
    while_core_runs s.run_status next s

-- What CFS_CORE_APP_Main reaches in the turns, after the initialization or its error.
unfoldable pub core_main : Bool → Bool → Option (List ℕ) → List (CoreEnv × CoreReceived) → CoreApp
core_main registered opens file turns =
    let (s, done) = core_init registered opens file in
    core_run_loop turns (if done then s else record s { run_status = app_error })
