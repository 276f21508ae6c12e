-- ===== src/Uplink/Main.antt =====
-- The dispatcher, the periodic service, the initialization and one turn of the main loop:
-- uplink_app/fsw/src/uplink_app_dispatch.c, uplink_app.c and the service of uplink_app_utils.c.
pub mod Reboot
pub mod SafeMessages
pub mod SafeCommands
pub mod SafeBus
pub mod Service
use cfs_telemetry_app.Common.{
  ℕ, Bool, true, false, not, Option, none, some, List, [], ◌∷◌, ltb, ◌==◌, if◌then◌else◌, sub32,
}
use cfs_telemetry_app.Common.Time.{get_time_ms}
use cfs_telemetry_app.Uplink.Messages.{
  ProcessUplinkCmd, result_none, route_none, link_nominal, config_idle,
}
use cfs_telemetry_app.Uplink.State.{UplinkApp, Env}
use cfs_telemetry_app.Common.Executive.{RunStatus, app_run, app_error}
use cfs_telemetry_app.Uplink.Forward.{count_error}
use cfs_telemetry_app.Uplink.Telemetry.{update_status_telemetry, report_housekeeping}
use cfs_telemetry_app.Uplink.Persist.{
  load_state, increment_boot_count, process_boot_marker, check_boot_survival,
}
use cfs_telemetry_app.Uplink.Process.{
  noop, reset_counters, process_uplink, ExecResultTlm, process_exec_result,
}

-- A message with the command id of the application: what CFE_MSG_GetFcnCode gives, `none` if it
-- fails, and the size and body that the handlers read.
pub record CommandMsg : Type 0 where
  pub fcn_code : Option ℕ
  pub size : ℕ
  pub body : ProcessUplinkCmd

-- What arrives on the pipe, by its message id; `unreadable` where CFE_MSG_GetMsgId fails.
pub data PipeMsg : Type 0 where
  unreadable send_hk other_mid : PipeMsg
  system_health : ℕ → PipeMsg
  bridge_hk : ℕ → ℕ → PipeMsg
  exec_result : ExecResultTlm → PipeMsg
  command : CommandMsg → PipeMsg

-- The sizes of the three commands, with the header that the executive defines.
pub record CommandSizes : Type 0 where
  pub header_only : ℕ
  pub process_uplink_cmd : ℕ

-- UPLINK_APP_VerifyCmdLength
unfoldable pub verify_cmd_length : ℕ → ℕ → UplinkApp → UplinkApp × Bool
verify_cmd_length actual expected s =
    if not (actual == expected) then (count_error s, false) else (s, true)

abbrev pub when_verified : UplinkApp × Bool → (UplinkApp → UplinkApp) → UplinkApp
when_verified (s, true) handler = handler s
when_verified (s, false) handler = s

unfoldable pub process_code : CommandSizes → Env → CommandMsg → UplinkApp → Option ℕ → UplinkApp
unfolding verify_cmd_length
process_code sizes env msg s none = count_error s
process_code sizes env msg s (some code) =
    if code == 0
    then when_verified (verify_cmd_length msg.size sizes.header_only s) noop
    else if code == 1
    then when_verified (verify_cmd_length msg.size sizes.header_only s) reset_counters
    else if code == 2
    then when_verified (verify_cmd_length msg.size sizes.process_uplink_cmd s)
        (process_uplink env msg.body)
    else count_error s

unfoldable pub process_command : CommandSizes → Env → CommandMsg → UplinkApp → UplinkApp
unfolding process_code
process_command sizes env msg s = process_code sizes env msg s msg.fcn_code

unfoldable pub task_pipe : CommandSizes → Env → PipeMsg → UplinkApp → UplinkApp
unfolding process_command
task_pipe sizes env unreadable s = count_error s
task_pipe sizes env send_hk s = report_housekeeping env s
task_pipe sizes env (system_health state) s = record s {
  cfs_health_state = state;
  cfs_health_received = true;
}
task_pipe sizes env (bridge_hk result successes) s = record s {
  fc_mission_result = result;
  fc_mission_upload_state = 1;
  fc_mission_upload_success_count = successes;
}
task_pipe sizes env (exec_result msg) s = process_exec_result env msg s
task_pipe sizes env other_mid s = count_error s
task_pipe sizes env (command msg) s = process_command sizes env msg s

-- UPLINK_APP_ServicePrototype: the first reading of the clock is that of the survival check, the second
-- one is its own.
unfoldable pub service_prototype : Env → UplinkApp → UplinkApp
unfolding check_boot_survival
service_prototype env s =
    let marked = check_boot_survival env s in
    let now = get_time_ms env.tlm_time in
    if ltb (sub32 now marked.last_publish_time_ms) 1000
    then marked
    else update_status_telemetry env now marked

-- What CFE_SB_ReceiveBuffer gives.
pub data Received : Type 0 where
  message : PipeMsg → Received
  time_out pipe_error : Received

-- One turn of the loop of UPLINK_APP_Main.
unfoldable pub run_loop_turn : CommandSizes → Env → Received → UplinkApp → UplinkApp
unfolding task_pipe service_prototype
run_loop_turn sizes env (message msg) s = task_pipe sizes env msg s
run_loop_turn sizes env time_out s = service_prototype env s
run_loop_turn sizes env pipe_error s = record s { run_status = app_error }

-- The state that memset and the assignments after it leave; the state file outlives it.
abbrev pub initial : Option (List ℕ) → UplinkApp
initial file = record {
  cmd_counter = 0;
  err_counter = 0;
  run_status = app_run;
  sequence_counter = 0;
  publish_count = 0;
  last_publish_time_ms = 0;
  last_rx_time_ms = 0;
  accepted_count = 0;
  rejected_count = 0;
  duplicate_count = 0;
  routing_failure_count = 0;
  last_accepted_sequence = 0;
  boot_count = 0;
  last_reset_reason = 0;
  survived_mark = 0;
  prev_survived_mark = 1;
  short_boot_streak = 0;
  boot_loop_suspect = 0;
  boot_start_ms = 0;
  last_command_code = 0;
  last_rx_sequence = 0;
  last_command_result = result_none;
  last_route_target = route_none;
  link_state = link_nominal;
  valid = 0;
  active_transport_id = 0;
  config_pending_state = config_idle;
  last_config_result = 0;
  last_rollback_reason = 0;
  cfs_health_state = 0;
  cfs_health_received = false;
  fc_mission_result = 0;
  fc_mission_upload_state = 0;
  fc_mission_upload_success_count = 0;
  flight_mode_ctrl = record {
    fcn_code = 0;
    source_sequence = 0;
    flight_mode = 0;
    waypoint_start_index = 0;
  };
  sent = [];
  state_file = file;
}

-- UPLINK_APP_Init: `registered` is whether each registration of the executive succeeds; the two
-- environments answer the two saves.
unfoldable pub init : Bool → Bool → Env → Env → ℕ → Option (List ℕ) → UplinkApp × Bool
init registered opens env_count env_marker reset_type file =
    if not registered then (initial file, false) else (
      process_boot_marker env_marker reset_type
          (increment_boot_count env_count (load_state opens (record (initial file) { valid = 1 }))),
      true,
    )

abbrev pub while_running : RunStatus → UplinkApp → UplinkApp → UplinkApp
while_running app_run next s = next
while_running app_error next s = s

-- CFE_ES_RunLoop goes on while the application has set no error. A session is its turns, each
-- with what it receives and what the world answers.
unfoldable pub run_loop : CommandSizes → List (Env × Received) → UplinkApp → UplinkApp
run_loop sizes [] s = s
run_loop sizes ((env, received) ∷ rest) s =
    let next = run_loop sizes rest (run_loop_turn sizes env received s) in
    while_running s.run_status next s

-- What UPLINK_APP_Main reaches in the turns, after the initialization or its error.
unfoldable pub main :
    CommandSizes → Bool → Bool → Env → Env → ℕ → Option (List ℕ) → List (Env × Received) → UplinkApp
unfolding init run_loop
main sizes registered opens env_count env_marker reset_type file turns =
    let (s, done) = init registered opens env_count env_marker reset_type file in
    run_loop sizes turns (if done then s else record s { run_status = app_error })
