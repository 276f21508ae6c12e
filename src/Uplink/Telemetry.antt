-- ===== src/Uplink/Telemetry.antt =====
-- Status and housekeeping telemetry, and the periodic service (uplink_app/fsw/src/
-- uplink_app_utils.c).
use cfs_telemetry_app.Common.{ℕ, ◌+◌, ◌==◌, if◌then◌else◌, u16, u32}
use cfs_telemetry_app.Common.Time.{get_time_ms}
use cfs_telemetry_app.Uplink.Messages.{StatusTlm, status_tlm, hk_tlm}
use cfs_telemetry_app.Uplink.State.{UplinkApp, Env, transmit}

-- The status message that the state gives at a time.
unfoldable pub fill_status : ℕ → UplinkApp → StatusTlm
fill_status now s = record {
  seq = s.sequence_counter;
  timestamp_ms = now;
  last_rx_timestamp_ms = s.last_rx_time_ms;
  accepted_count = s.accepted_count;
  rejected_count = s.rejected_count;
  routing_failure_count = s.routing_failure_count;
  last_command_code = s.last_command_code;
  last_command_sequence = s.last_rx_sequence;
  last_command_result = s.last_command_result;
  link_state = s.link_state;
  valid = s.valid;
  active_transport_id = s.active_transport_id;
  last_route_target = s.last_route_target;
  config_pending_state = s.config_pending_state;
  last_config_result = s.last_config_result;
  last_rollback_reason = s.last_rollback_reason;
  fc_mission_result = s.fc_mission_result;
  fc_mission_upload_state = s.fc_mission_upload_state;
  boot_count = s.boot_count;
  boot_loop_suspect = s.boot_loop_suspect;
  short_boot_streak = s.short_boot_streak;
  last_reset_reason = s.last_reset_reason;
  fc_mission_upload_success_count = s.fc_mission_upload_success_count;
  last_accepted_sequence = u16 s.last_accepted_sequence;
}

-- A time of 0 asks for a reading of the clock. The status of the transmission is ignored.
unfoldable pub update_status_telemetry : Env → ℕ → UplinkApp → UplinkApp
update_status_telemetry env now_ms s =
    let now = if now_ms == 0 then get_time_ms env.tlm_time else now_ms in
    let s' = record s {
      last_publish_time_ms = now;
      publish_count = u32 (s.publish_count + 1);
      sequence_counter = u32 (s.sequence_counter + 1);
    } in
    transmit env (status_tlm (fill_status now s')) s'

unfoldable pub report_housekeeping : Env → UplinkApp → UplinkApp
report_housekeeping env s =
    let hk = hk_tlm (record {
      command_counter = s.cmd_counter;
      command_error_counter = s.err_counter;
      publish_count = s.publish_count;
      last_publish_timestamp_ms = s.last_publish_time_ms;
    }) in
    transmit env hk s
