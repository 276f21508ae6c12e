-- ===== src/Uplink/Process.antt =====
-- The command handlers of uplink_app/fsw/src/uplink_app_cmds.c. UPLINK_APP_ProcessUplink is cut
-- into its stages: an early return publishes the status, and the next stage is called else.
pub mod Gates
pub mod Passing
pub mod Branches
pub mod Outcome
pub mod Answers
pub mod Retransmit
use cfs_telemetry_app.Common.{
  ℕ, ◌+◌, Bool, true, false, not, Option, none, some, ◌==◌, if◌then◌else◌, u8, u16, u32, byte_at,
}
use cfs_telemetry_app.Common.Time.{get_time_ms}
use cfs_telemetry_app.Uplink.Messages.{
  UplinkResult, result_none, accept, routed, failed, route_miss, reject_route, reject_sequence,
  reject_state, reject_viewpoint, duplicate, executed_ok, executed_failed, reject_counter,
  reject_flight_mode, RouteTarget, route_none, link_nominal, link_degraded, ProcessUplinkCmd,
  class_config, class_route_update, class_viewpoint, class_recovery, class_mode, class_diagnostic,
  class_counter_mgmt, class_flight_mode, scope_uplink,
}
use cfs_telemetry_app.Uplink.State.{UplinkApp, Env}
use cfs_telemetry_app.Uplink.Admission.{
  SeqCheck, seq_new, seq_duplicate, seq_replay, check_sequence, validate_proxy_command,
  resolve_route_target, blocked_by_health, parse_request_token, is_authorized,
}
use cfs_telemetry_app.Uplink.Payload.{
  parse_route_update_payload, parse_viewpoint_payload, parse_flight_mode_payload,
}
use cfs_telemetry_app.Uplink.Forward.{
  publish_route_update, forward_recovery_command, forward_viewpoint_command, forward_config_command,
  forward_mode_command, forward_diagnostic_command, forward_counter_mgmt_command,
  forward_flight_mode_command,
}
use cfs_telemetry_app.Uplink.Telemetry.{update_status_telemetry}
use cfs_telemetry_app.Uplink.Persist.{save_state}

unfoldable pub noop : UplinkApp → UplinkApp
noop s = record s { cmd_counter = u8 (s.cmd_counter + 1) }

-- AcceptedCount and LastAcceptedSequence, the replay defence, are kept.
unfoldable pub reset_counters : UplinkApp → UplinkApp
reset_counters s = record s {
  cmd_counter = 0;
  err_counter = 0;
  rejected_count = 0;
  duplicate_count = 0;
  routing_failure_count = 0;
  last_command_code = 0;
  last_command_result = result_none;
  last_route_target = route_none;
}

-- The body of each refusal: count it, degrade the link, publish.
unfoldable pub reject : Env → UplinkResult → UplinkApp → UplinkApp
reject env result s = update_status_telemetry env 0 (record s {
  err_counter = u8 (s.err_counter + 1);
  rejected_count = u32 (s.rejected_count + 1);
  last_command_result = result;
  link_state = link_degraded;
})

-- The body of each failure to route.
unfoldable pub fail_routing : Env → UplinkResult → RouteTarget → UplinkApp → UplinkApp
fail_routing env result target s = update_status_telemetry env 0 (record s {
  err_counter = u8 (s.err_counter + 1);
  routing_failure_count = u32 (s.routing_failure_count + 1);
  last_command_result = result;
  last_route_target = target;
  link_state = link_degraded;
})

-- What ends every command that was passed on.
unfoldable pub finish_routed : Env → ProcessUplinkCmd → RouteTarget → UplinkApp → UplinkApp
finish_routed env cmd target s =
    let accepted = record s {
      cmd_counter = u8 (s.cmd_counter + 1);
      accepted_count = u32 (s.accepted_count + 1);
      last_accepted_sequence = cmd.sequence;
    } in
    update_status_telemetry env 0 (record (save_state env accepted) {
      last_command_result = routed;
      last_route_target = target;
      link_state = link_nominal;
    })

-- A forwarding function's answer: go on to the end, or fail.
unfoldable pub settle : Env → ProcessUplinkCmd → RouteTarget → UplinkApp × Bool → UplinkApp
settle env cmd target (s, true) = finish_routed env cmd target s
settle env cmd target (s, false) = fail_routing env failed target s

-- A class whose payload is parsed first: a refusal, or the forwarding function's answer.
unfoldable pub settle_parsed {ℓ} :
    {A : Type ℓ}
    → Env
    → ProcessUplinkCmd
    → RouteTarget
    → UplinkResult
    → (A → UplinkApp → UplinkApp × Bool)
    → UplinkApp
    → Option A
    → UplinkApp
settle_parsed env cmd target refusal forward s none = reject env refusal s
settle_parsed env cmd target refusal forward s (some payload) =
    settle env cmd target (forward payload s)

-- The counter management's answer: its failure is a refusal, and a reset of the application's own
-- counters returns without the common end.
unfoldable pub settle_counter_mgmt :
    Env → ProcessUplinkCmd → RouteTarget → UplinkApp × Bool → UplinkApp
settle_counter_mgmt env cmd target (s, false) = reject env reject_counter s
settle_counter_mgmt env cmd target (s, true) =
    if byte_at cmd.payload 0 == scope_uplink
    then update_status_telemetry env 0 (record s {
      rejected_count = 0;
      duplicate_count = 0;
      routing_failure_count = 0;
      last_command_result = routed;
    })
    else finish_routed env cmd target s

unfoldable pub route_by_class : Env → ProcessUplinkCmd → RouteTarget → UplinkApp → UplinkApp
route_by_class env cmd target s =
    if cmd.command_class == class_route_update
    then settle_parsed env cmd target reject_route (publish_route_update env cmd) s
        (parse_route_update_payload cmd)
    else if cmd.command_class == class_recovery
    then settle env cmd target (forward_recovery_command env cmd s)
    else if cmd.command_class == class_viewpoint
    then settle_parsed env cmd target reject_viewpoint (forward_viewpoint_command env cmd) s
        (parse_viewpoint_payload cmd)
    else if cmd.command_class == class_config
    then settle env cmd target (forward_config_command env cmd s)
    else if cmd.command_class == class_mode
    then settle env cmd target (forward_mode_command env cmd s)
    else if cmd.command_class == class_diagnostic
    then settle env cmd target (forward_diagnostic_command env cmd s)
    else if cmd.command_class == class_counter_mgmt
    then settle_counter_mgmt env cmd target (forward_counter_mgmt_command env cmd s)
    else if cmd.command_class == class_flight_mode
    then settle_parsed env cmd target reject_flight_mode (forward_flight_mode_command env cmd) s
        (parse_flight_mode_payload cmd)
    else finish_routed env cmd target s

-- The policies of health and authorization.
unfoldable pub apply_policies : Env → ProcessUplinkCmd → RouteTarget → UplinkApp → UplinkApp
apply_policies env cmd target s =
    if not s.cfs_health_received
    then reject env reject_state s
    else if blocked_by_health s.cfs_health_state cmd
    then reject env reject_state s
    else if not (is_authorized cmd (parse_request_token cmd))
    then reject env reject_state s
    else route_by_class env cmd target s

-- A command with a new sequence, by its target and by the verdict of the validation.
unfoldable pub process_target : Env → ProcessUplinkCmd → UplinkApp → RouteTarget → UplinkApp
process_target env cmd s route_none = fail_routing env route_miss route_none s
process_target env cmd s target = apply_policies env cmd target s

unfoldable pub process_verdict : Env → ProcessUplinkCmd → UplinkApp → UplinkResult → UplinkApp
process_verdict env cmd s accept = process_target env cmd s (resolve_route_target cmd.command_class)
process_verdict env cmd s result = reject env result s

unfoldable pub process_new : Env → ProcessUplinkCmd → UplinkApp → UplinkApp
process_new env cmd s = process_verdict env cmd s (validate_proxy_command cmd)

-- The reception is noted before any check.
unfoldable pub note_reception : Env → ProcessUplinkCmd → UplinkApp → UplinkApp
note_reception env cmd s = record s {
  last_rx_time_ms = get_time_ms env.rx_time;
  last_command_code = cmd.command_class;
  last_rx_sequence = cmd.sequence;
}

unfoldable pub process_checked : Env → ProcessUplinkCmd → UplinkApp → SeqCheck → UplinkApp
process_checked env cmd s seq_duplicate =
    update_status_telemetry env 0
      (record s { duplicate_count = u32 (s.duplicate_count + 1); last_command_result = duplicate })
process_checked env cmd s seq_replay = reject env reject_sequence s
process_checked env cmd s seq_new = process_new env cmd s

unfoldable pub process_uplink : Env → ProcessUplinkCmd → UplinkApp → UplinkApp
process_uplink env cmd s =
    let noted = note_reception env cmd s in
    process_checked env cmd noted (check_sequence noted cmd.sequence)

-- EXEC_RESULT_TLM_t, the fields that the application reads.
pub record ExecResultTlm : Type 0 where
  pub source_sequence : ℕ
  pub generic_result : ℕ

-- An answer to another command than the latest accepted one is ignored.
unfoldable pub process_exec_result : Env → ExecResultTlm → UplinkApp → UplinkApp
process_exec_result env msg s =
    if not (msg.source_sequence == u16 s.last_accepted_sequence)
    then s
    else update_status_telemetry env 0 (record s {
      last_command_result = if msg.generic_result == 0 then executed_ok else executed_failed;
    })
