-- ===== src/Uplink/Main/SafeCommands.antt =====
-- The log of the bus over the command handler of uplink_app (uplink_app/fsw/src/
-- uplink_app_cmds.c).
use cfs_telemetry_app.Common.{ℕ, ◌<◌, byte_at}
use cfs_telemetry_app.Uplink.Messages.{
  UplinkResult, accept, RouteTarget, route_none, ProcessUplinkCmd,
}
use cfs_telemetry_app.Uplink.State.{UplinkApp, Env}
use cfs_telemetry_app.Uplink.Admission.{
  SeqCheck, seq_new, seq_duplicate, seq_replay, check_sequence, validate_proxy_command,
  resolve_route_target,
}
use cfs_telemetry_app.Uplink.Process.{
  fail_routing, route_by_class, apply_policies, process_target, process_verdict, process_new,
  process_checked, note_reception, process_uplink,
}
use cfs_telemetry_app.Uplink.Process.Branches.{route_by_class_cases, apply_policies_cases}
use cfs_telemetry_app.Uplink.Forward.{
  publish_route_update, forward_recovery_command, forward_viewpoint_command, forward_config_command,
  forward_mode_command, forward_diagnostic_command, forward_counter_mgmt_command,
  forward_flight_mode_command,
}
use cfs_telemetry_app.Uplink.Main.SafeMessages.{
  HasSafeLog, update_status_telemetry-HasSafeLog, reject-HasSafeLog, finish_routed-HasSafeLog,
  settle-HasSafeLog, settle_counter_mgmt-HasSafeLog, settle_parsed-HasSafeLog,
  publish_route_update-HasSafeLog, forward_viewpoint_command-HasSafeLog,
  forward_flight_mode_command-HasSafeLog, forward_recovery_command-HasSafeLog,
  forward_mode_command-HasSafeLog, forward_diagnostic_command-HasSafeLog,
  forward_counter_mgmt_command-HasSafeLog, forward_config_command-HasSafeLog,
}

module _ (env : Env) (cmd : ProcessUplinkCmd) (b : (k : ℕ) → byte_at cmd.payload k < 256) where
  route_by_class-HasSafeLog :
      (target : RouteTarget) (s : UplinkApp)
      → HasSafeLog s
      → HasSafeLog (route_by_class env cmd target s)
  route_by_class-HasSafeLog target s h =
      route_by_class_cases env cmd target HasSafeLog s
        (settle_parsed-HasSafeLog env cmd target _ (publish_route_update env cmd) s _ h
          (λ p e. publish_route_update-HasSafeLog env cmd p s h e))
        (settle-HasSafeLog env cmd target (forward_recovery_command env cmd s)
          (forward_recovery_command-HasSafeLog env cmd s h))
        (settle_parsed-HasSafeLog env cmd target _ (forward_viewpoint_command env cmd) s _ h
          (λ v e. forward_viewpoint_command-HasSafeLog env cmd v s h b e))
        (settle-HasSafeLog env cmd target (forward_config_command env cmd s)
          (forward_config_command-HasSafeLog env cmd s h))
        (settle-HasSafeLog env cmd target (forward_mode_command env cmd s)
          (forward_mode_command-HasSafeLog env cmd s h))
        (settle-HasSafeLog env cmd target (forward_diagnostic_command env cmd s)
          (forward_diagnostic_command-HasSafeLog env cmd s h))
        (settle_counter_mgmt-HasSafeLog env cmd target (forward_counter_mgmt_command env cmd s)
          (forward_counter_mgmt_command-HasSafeLog env cmd s h))
        (settle_parsed-HasSafeLog env cmd target _ (forward_flight_mode_command env cmd) s _ h
          (λ p e. forward_flight_mode_command-HasSafeLog env cmd p s h e))
        (finish_routed-HasSafeLog env cmd target s h)

  apply_policies-HasSafeLog :
      (target : RouteTarget) (s : UplinkApp)
      → HasSafeLog s
      → HasSafeLog (apply_policies env cmd target s)
  apply_policies-HasSafeLog target s h =
      apply_policies_cases env cmd target HasSafeLog s (reject-HasSafeLog env cmd _ s h)
        (route_by_class-HasSafeLog target s h)

  process_target-HasSafeLog :
      (target : RouteTarget) (s : UplinkApp)
      → HasSafeLog s
      → HasSafeLog (process_target env cmd s target)
  unfolding process_target fail_routing
  process_target-HasSafeLog route_none s h = update_status_telemetry-HasSafeLog env 0 _ h
  process_target-HasSafeLog target s h = apply_policies-HasSafeLog target s h

  process_verdict-HasSafeLog :
      (r : UplinkResult) (s : UplinkApp) → HasSafeLog s → HasSafeLog (process_verdict env cmd s r)
  unfolding process_verdict
  process_verdict-HasSafeLog accept s h =
      process_target-HasSafeLog (resolve_route_target cmd.command_class) s h
  process_verdict-HasSafeLog r s h = reject-HasSafeLog env cmd r s h

  process_checked-HasSafeLog :
      (c : SeqCheck) (s : UplinkApp) → HasSafeLog s → HasSafeLog (process_checked env cmd s c)
  unfolding process_checked process_new
  process_checked-HasSafeLog seq_duplicate s h = update_status_telemetry-HasSafeLog env 0 _ h
  process_checked-HasSafeLog seq_replay s h = reject-HasSafeLog env cmd _ s h
  process_checked-HasSafeLog seq_new s h =
      process_verdict-HasSafeLog (validate_proxy_command cmd) s h

  pub process_uplink-HasSafeLog :
      (s : UplinkApp) → HasSafeLog s → HasSafeLog (process_uplink env cmd s)
  unfolding process_uplink note_reception
  process_uplink-HasSafeLog s h =
      process_checked-HasSafeLog (check_sequence (note_reception env cmd s) cmd.sequence)
        (note_reception env cmd s) h
