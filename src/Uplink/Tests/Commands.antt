-- ===== src/Uplink/Tests/Commands.antt =====
-- Runs of the command handler and of the admission policies on the test inputs.
use cfs_telemetry_app.Common.{ℕ, ◌%◌, ◌≡◌, ◌≢◌, ◌⊎◌, ◌↔◌, refl, true, [], ◌∷◌, arith}
use cfs_telemetry_app.Common.Time.{get_time_ms}
use cfs_telemetry_app.Uplink.Crc.{crc16}
use cfs_telemetry_app.Uplink.Messages.{reject_checksum, routed}
use cfs_telemetry_app.Uplink.Admission.{
  seq_new, compare_sequence, check_sequence, compute_proxy_crc, validate_proxy_command,
  resolve_route_target, barred_by_health, blocked_by_health, parse_request_token, is_authorized,
  class_required_level,
}
use cfs_telemetry_app.Uplink.Admission.Sequence.{compare_sequence_window}
use cfs_telemetry_app.Uplink.Admission.Policy.{IsFlightMode, blocked_by_health_iff}
use cfs_telemetry_app.Uplink.Admission.Damage.{validate_proxy_command_damaged}
use cfs_telemetry_app.Uplink.Process.{
  process_uplink, note_reception, process_checked, process_new, process_verdict, process_target,
  apply_policies, route_by_class, settle_parsed, settle, settle_counter_mgmt, finish_routed,
}
use cfs_telemetry_app.Uplink.Telemetry.{update_status_telemetry}
use cfs_telemetry_app.Uplink.Persist.{save_state}
use cfs_telemetry_app.Uplink.Persist.File.{FitsFile}
use cfs_telemetry_app.Uplink.Forward.{publish_route_update, forward_counter_mgmt_command}
use cfs_telemetry_app.Uplink.Payload.{
  parse_route_update_payload, parse_waypoints, is_waypoint_finite, is_waypoint_altitude_valid,
  parse_waypoint_wire, read_float_le, route_header,
}
use cfs_telemetry_app.Uplink.Process.Gates.{IsAdmitted, IsKept, process_uplink_gated}
use cfs_telemetry_app.Uplink.Process.Outcome.{Outcome, process_uplink-Outcome}
use cfs_telemetry_app.Uplink.Process.Answers.{Answers}
use cfs_telemetry_app.Uplink.Process.Retransmit.{own_reset_not_remembered}
use cfs_telemetry_app.Uplink.Tests.Data.{
  env_at, session, deaf_session, route_cmd, own_reset_cmd, waypoint_mode_cmd,
}

abbrev pub route_admitted : IsAdmitted session route_cmd
unfolding check_sequence validate_proxy_command compute_proxy_crc crc16 blocked_by_health
    is_authorized parse_request_token
route_admitted = (refl, refl, refl, refl, refl)

own_reset_admitted : IsAdmitted session own_reset_cmd
unfolding check_sequence validate_proxy_command compute_proxy_crc crc16 blocked_by_health
    is_authorized parse_request_token
own_reset_admitted = (refl, refl, refl, refl, refl)

-- The handler routes the one and carries out the other.
pub route_routed : (process_uplink (env_at 5) route_cmd session).last_command_result ≡ routed
unfolding process_uplink note_reception check_sequence compare_sequence process_checked process_new
    process_verdict validate_proxy_command compute_proxy_crc crc16 process_target
    resolve_route_target apply_policies blocked_by_health barred_by_health is_authorized
    parse_request_token class_required_level route_by_class settle_parsed settle finish_routed
    update_status_telemetry save_state parse_route_update_payload parse_waypoints is_waypoint_finite
    is_waypoint_altitude_valid parse_waypoint_wire read_float_le route_header publish_route_update
    settle_counter_mgmt forward_counter_mgmt_command get_time_ms
route_routed = refl

route_no_duplicate : (process_uplink (env_at 5) route_cmd session).duplicate_count ≡ 0
unfolding process_uplink note_reception check_sequence compare_sequence process_checked process_new
    process_verdict validate_proxy_command compute_proxy_crc crc16 process_target
    resolve_route_target apply_policies blocked_by_health barred_by_health is_authorized
    parse_request_token class_required_level route_by_class settle_parsed settle finish_routed
    update_status_telemetry save_state parse_route_update_payload parse_waypoints is_waypoint_finite
    is_waypoint_altitude_valid parse_waypoint_wire read_float_le route_header publish_route_update
    settle_counter_mgmt forward_counter_mgmt_command get_time_ms
route_no_duplicate = refl

pub route_fits : FitsFile (process_uplink (env_at 5) route_cmd session)
unfolding process_uplink note_reception check_sequence compare_sequence process_checked process_new
    process_verdict validate_proxy_command compute_proxy_crc crc16 process_target
    resolve_route_target apply_policies blocked_by_health barred_by_health is_authorized
    parse_request_token class_required_level route_by_class settle_parsed settle finish_routed
    update_status_telemetry save_state parse_route_update_payload parse_waypoints is_waypoint_finite
    is_waypoint_altitude_valid parse_waypoint_wire read_float_le route_header publish_route_update
    settle_counter_mgmt forward_counter_mgmt_command get_time_ms
route_fits = record {
  sequence = omega arith;
  boots = omega arith;
  mark = omega arith;
  streak = omega arith;
}

own_reset_routed : (process_uplink (env_at 5) own_reset_cmd session).last_command_result ≡ routed
unfolding process_uplink note_reception check_sequence compare_sequence process_checked process_new
    process_verdict validate_proxy_command compute_proxy_crc crc16 process_target
    resolve_route_target apply_policies blocked_by_health barred_by_health is_authorized
    parse_request_token class_required_level route_by_class settle_parsed settle finish_routed
    update_status_telemetry save_state parse_route_update_payload parse_waypoints is_waypoint_finite
    is_waypoint_altitude_valid parse_waypoint_wire read_float_le route_header publish_route_update
    settle_counter_mgmt forward_counter_mgmt_command get_time_ms
own_reset_routed = refl

-- Sequences around the wrap of the 16 bits.
compare_sequence_window_example : compare_sequence 4 65530 ≡ seq_new
compare_sequence_window_example = compare_sequence_window 65530 10 (omega arith) (omega arith)

abbrev recovery_state : ℕ
recovery_state = 2

blocked_by_health_iff_example :
    let cmd = waypoint_mode_cmd in
    (blocked_by_health recovery_state cmd ≡ true) ↔ (
      (cmd.flags % 2 ≡ 0)
      × ¬ (IsFlightMode cmd 0)
      × ¬ (IsFlightMode cmd 2)
      × ((((recovery_state ≡ 2) ⊎ (recovery_state ≡ 3))
            × (cmd.command_class ≢ 4)
            × (cmd.command_class ≢ 6))
          ⊎ ((recovery_state ≡ 1)
              × ((cmd.command_class ≡ 3) ⊎ (cmd.command_class ≡ 1) ⊎ IsFlightMode cmd 1))))
blocked_by_health_iff_example = blocked_by_health_iff recovery_state waypoint_mode_cmd

-- The first byte of the reset command is damaged.
validate_proxy_command_damaged_example :
    validate_proxy_command (record own_reset_cmd { payload = 1 ∷ 0 ∷ 68 ∷ 51 ∷ 34 ∷ 17 ∷ [] })
    ≡ reject_checksum
validate_proxy_command_damaged_example =
    validate_proxy_command_damaged own_reset_cmd [] (0 ∷ 68 ∷ 51 ∷ 34 ∷ 17 ∷ []) 3 1 refl
      (omega arith) (omega arith) (omega arith) (omega arith) own_reset_admitted.1

-- Before the first report of health nothing is admitted.
process_uplink_gated_example :
    IsKept deaf_session (process_uplink (env_at 5) route_cmd deaf_session)
process_uplink_gated_example =
    process_uplink_gated (env_at 5) route_cmd deaf_session (λ h. ground (arith, h.2))

process_uplink-Outcome_example :
    Outcome (env_at 5) route_cmd session (process_uplink (env_at 5) route_cmd session)
process_uplink-Outcome_example = process_uplink-Outcome (env_at 5) route_cmd session route_admitted

own_reset_not_remembered_example :
    IsAdmitted (process_uplink (env_at 5) own_reset_cmd session) own_reset_cmd
own_reset_not_remembered_example =
    own_reset_not_remembered (env_at 5) own_reset_cmd session own_reset_admitted refl refl
      own_reset_routed
