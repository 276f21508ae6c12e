-- ===== src/CfsCore/Publish.antt =====
-- CFS_CORE_APP_UpdateHealth as a whole, ReportHousekeeping and ServicePrototype
-- (cfs_core_app/fsw/src/cfs_core_app_utils.c).
pub mod Fresh
use cfs_telemetry_app.Common.{
  ℕ, ◌+◌, Bool, true, false, not, ◌&&◌, ◌||◌, List, [], ◌∷◌, Option, none, some, ltb, ◌==◌,
  if◌then◌else◌, u32, sub32,
}
use cfs_telemetry_app.Common.Time.{get_time_ms}
use cfs_telemetry_app.CfsCore.Health.{TimedOut, Health, Verdict, update_health, is_transition}
use cfs_telemetry_app.CfsCore.State.{
  StateCache, AppHkCache, InputStatus, SystemHealthTlm, system_health_tlm, core_hk, App, Cooldowns,
  CoreApp, CoreEnv, transmit_core,
}
use cfs_telemetry_app.CfsCore.Cache.{state_expired}
use cfs_telemetry_app.CfsCore.Restarts.{check_app_restarts}
use cfs_telemetry_app.CfsCore.Persist.{save_core}

abbrev latest : StateCache → ℕ → ℕ
latest cache best =
    if cache.received && ltb best cache.timestamp_ms then cache.timestamp_ms else best

unfoldable pub last_valid_input : ℕ → CoreApp → ℕ
last_valid_input now s =
    let best =
      latest s.ekf_state (latest s.gps_state (latest s.local_state (latest s.attitude_state 0))) in
    if best == 0 then now else best

-- EkfTimedOut and the three like it.
unfoldable pub input_timed_out : StateCache → ℕ → ℕ → Bool
input_timed_out cache now timeout =
    state_expired cache now timeout || cache.valid == 0 || not (cache.stale == 0)

-- UplinkTimedOut and LoraTimedOut; CFS_CORE_APP_UPLINK_TIMEOUT_MS is LORA_TIMEOUT_MS.
unfoldable pub app_timed_out : AppHkCache → ℕ → Bool
app_timed_out cache now = not cache.received || ltb 5000 (sub32 now cache.last_hk_rx_ms)

unfoldable pub timed_out : ℕ → CoreApp → TimedOut
timed_out now s = record {
  bridge =
      not s.bridge_state.received
      || ltb s.active_config.bridge_timeout_ms (sub32 now s.bridge_state.last_rx_timestamp_ms);
  ekf = input_timed_out s.ekf_state now s.active_config.ekf_timeout_ms;
  local = input_timed_out s.local_state now s.active_config.local_timeout_ms;
  attitude = input_timed_out s.attitude_state now s.active_config.attitude_timeout_ms;
  uplink = app_timed_out s.uplink_app_state now;
  lora = app_timed_out s.lora_app_state now;
}

abbrev fill_input : StateCache → Bool → InputStatus
fill_input cache out = record {
  valid = cache.valid;
  stale = cache.stale;
  error_code = cache.error_code;
  timed_out = out;
}

-- The report, from the state after the counters and the verdict.
unfoldable pub fill_health : ℕ → ℕ → TimedOut → Bool → Verdict → CoreApp → SystemHealthTlm
fill_health now last_valid out gps_unavailable v s = record {
  seq = s.sequence_counter;
  timestamp_ms = now;
  last_valid_input_timestamp_ms = last_valid;
  health_state = v.health_state;
  fault_code = v.fault_code;
  recovery_requested = v.recovery_requested;
  attitude_status = fill_input s.attitude_state out.attitude;
  local_status = fill_input s.local_state out.local;
  gps_status = fill_input s.gps_state gps_unavailable;
  ekf_status = fill_input s.ekf_state out.ekf;
  bridge_link_state = s.bridge_state.link_state;
  bridge_error_code = s.bridge_state.last_error_code;
  bridge_timed_out = out.bridge;
  uplink_timed_out = out.uplink;
  lora_timed_out = out.lora;
}

-- A restart and the save that follows it.
abbrev pub note_restart : CoreEnv → App → CoreApp → CoreApp
note_restart env app s =
    save_core env.restart_save_outcome (record s { restarted = app ∷ s.restarted })

abbrev pub note_restarts : CoreEnv → List App → CoreApp → CoreApp
note_restarts env [] s = s
note_restarts env (app ∷ apps) s = note_restarts env apps (note_restart env app s)

abbrev pub count_publish : ℕ → CoreApp → CoreApp
count_publish now s = record s {
  last_publish_time_ms = now;
  publish_count = u32 (s.publish_count + 1);
  sequence_counter = u32 (s.sequence_counter + 1);
}

-- The save of a transition.
unfoldable pub save_transition : CoreEnv → Bool → CoreApp → CoreApp
save_transition env true s = save_core env.save_outcome s
save_transition env false s = s

-- The verdict on the health, its report, and the save of a transition.
unfoldable pub report_health : CoreEnv → ℕ → ℕ → TimedOut → Bool → CoreApp → CoreApp
report_health env now last_valid out gps_unavailable s =
    let (h, v) = update_health now out s.health in
    let tlm = fill_health now last_valid out gps_unavailable v s in
    transmit_core env (system_health_tlm tlm)
      (save_transition env (is_transition v s.health) (record s { health = h; health_tlm = tlm }))

-- What the function does when it does not return early.
unfoldable pub publish_now : CoreEnv → ℕ → CoreApp → CoreApp
publish_now env now s =
    let out = timed_out now s in
    let (cs, apps) = check_app_restarts now out.bridge out.uplink out.lora env.finds s.cooldowns in
    let restarted = note_restarts env apps (record s { cooldowns = cs }) in
    report_health env now (last_valid_input now s) out
      (input_timed_out s.gps_state now s.active_config.gps_timeout_ms) (count_publish now restarted)

-- `force` is ForcePublish.
unfoldable pub publish_health : CoreEnv → ℕ → Bool → CoreApp → CoreApp
publish_health env now force s =
    if not force && ltb (sub32 now s.last_publish_time_ms) s.active_config.publish_period_ms
    then s
    else publish_now env now s

unfoldable pub service_core : CoreEnv → CoreApp → CoreApp
service_core env s = publish_health env (get_time_ms env.time) false s

unfoldable pub report_core_housekeeping : CoreEnv → CoreApp → CoreApp
report_core_housekeeping env s =
    transmit_core env
      (core_hk (record {
        command_counter = s.cmd_counter;
        command_error_counter = s.err_counter;
        mission_route_waypoint_count = s.mission_route.waypoint_count;
        publish_count = s.publish_count;
        last_publish_timestamp_ms = s.last_publish_time_ms;
        last_route_update_timestamp_ms = s.mission_route.timestamp_ms;
        route_update_count = s.mission_route.update_count;
        bridge_restart_count = s.cooldowns.bridge.restart_count;
        uplink_restart_count = s.cooldowns.uplink.restart_count;
        lora_restart_count = s.cooldowns.lora.restart_count;
        last_fault_code = s.health.last_fault_code;
        timebase_shift_count = s.counts.timebase_shift;
      }))
      s
