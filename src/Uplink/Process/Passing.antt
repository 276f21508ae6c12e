-- ===== src/Uplink/Process/Passing.antt =====
-- What each forwarding function of uplink_app hands to the bus, and what it leaves alone.
use cfs_telemetry_app.Common.{
  ℕ, ◌≡◌, ◌≢◌, ◌⊎◌, Bool, true, false, List, [], ◌∷◌, byte_at, arith, suc,
}
use cfs_telemetry_app.Uplink.Messages.{
  SbMessage, status_tlm, hk_tlm, route_update, recovery_cmd, viewpoint_cmd, config_cmd, mode_cmd,
  diagnostic_cmd, reset_counters_cmd, flight_mode_ctrl_cmd, class_none, class_config,
  class_route_update, class_viewpoint, class_recovery, class_mode, class_diagnostic,
  class_counter_mgmt, class_flight_mode, scope_uplink, ProcessUplinkCmd, RouteUpdatePayload,
  ViewpointPayload, FlightModePayload,
}
use cfs_telemetry_app.Uplink.State.{UplinkApp, Env}
use cfs_telemetry_app.Uplink.Forward.{
  publish_route_update, forward_recovery_command, forward_viewpoint_command, forward_config_command,
  forward_mode_command, forward_diagnostic_command, forward_counter_mgmt_command,
  forward_flight_mode_command,
}

-- The class of command that a message carries to another application.
abbrev pub class_of : SbMessage → ℕ
class_of (status_tlm _) = class_none
class_of (hk_tlm _) = class_none
class_of (route_update _ _) = class_route_update
class_of (recovery_cmd _ _ _ _ _) = class_recovery
class_of (viewpoint_cmd _ _) = class_viewpoint
class_of (config_cmd _ _ _) = class_config
class_of (mode_cmd _ _ _ _) = class_mode
class_of (diagnostic_cmd _ _ _ _) = class_diagnostic
class_of (reset_counters_cmd _) = class_counter_mgmt
class_of (flight_mode_ctrl_cmd _) = class_flight_mode

-- The classes of the commands that the bus has taken, the latest first.
abbrev pub passed_classes : List SbMessage → List ℕ
passed_classes [] = []
passed_classes (status_tlm _ ∷ log) = passed_classes log
passed_classes (hk_tlm _ ∷ log) = passed_classes log
passed_classes (m ∷ log) = class_of m ∷ passed_classes log

-- The status messages among them.
abbrev pub status_count : List SbMessage → ℕ
status_count [] = 0
status_count (status_tlm _ ∷ log) = suc (status_count log)
status_count (_ ∷ log) = status_count log

-- The fields that no forwarding function writes.
pub record IsUncounted (s t : UplinkApp) : Type 0 where
  pub same_accepted : t.accepted_count ≡ s.accepted_count
  pub same_sequence : t.last_accepted_sequence ≡ s.last_accepted_sequence
  pub same_file : t.state_file ≡ s.state_file
  pub same_publications : t.sequence_counter ≡ s.sequence_counter
  pub same_publish_count : t.publish_count ≡ s.publish_count
  pub same_statuses : status_count t.sent ≡ status_count s.sent

pub IsUncounted-self : (s : UplinkApp) → IsUncounted s s
IsUncounted-self s = ground arith

-- True is returned with one command of the class on the bus, false with none.
pub record Passes (class : ℕ) (s : UplinkApp) (r : UplinkApp × Bool) : Type 0 where
  pub passed : r.1 ≡ true → passed_classes r.0.sent ≡ class ∷ passed_classes s.sent
  pub stopped : r.1 ≡ false → passed_classes r.0.sent ≡ passed_classes s.sent
  pub uncounted : IsUncounted s r.0

module _ (env : Env) (cmd : ProcessUplinkCmd) where
  pub publish_route_update-Passes :
      (payload : RouteUpdatePayload) (s : UplinkApp)
      → Passes class_route_update s (publish_route_update env cmd payload s)
  unfolding publish_route_update
  publish_route_update-Passes payload s = ground arith

  pub forward_viewpoint_command-Passes :
      (payload : ViewpointPayload) (s : UplinkApp)
      → Passes class_viewpoint s (forward_viewpoint_command env cmd payload s)
  unfolding forward_viewpoint_command
  forward_viewpoint_command-Passes payload s = ground arith

  pub forward_flight_mode_command-Passes :
      (payload : FlightModePayload) (s : UplinkApp)
      → Passes class_flight_mode s (forward_flight_mode_command env cmd payload s)
  unfolding forward_flight_mode_command
  forward_flight_mode_command-Passes payload s = ground arith

  pub forward_recovery_command-Passes :
      (s : UplinkApp) → Passes class_recovery s (forward_recovery_command env cmd s)
  unfolding forward_recovery_command
  forward_recovery_command-Passes s = ground arith

  pub forward_mode_command-Passes :
      (s : UplinkApp) → Passes class_mode s (forward_mode_command env cmd s)
  unfolding forward_mode_command
  forward_mode_command-Passes s = ground arith

  pub forward_diagnostic_command-Passes :
      (s : UplinkApp) → Passes class_diagnostic s (forward_diagnostic_command env cmd s)
  unfolding forward_diagnostic_command
  forward_diagnostic_command-Passes s = ground arith

  pub forward_config_command-Passes :
      (s : UplinkApp) → Passes class_config s (forward_config_command env cmd s)
  unfolding forward_config_command
  forward_config_command-Passes s = ground arith

  -- Unless the scope is the application itself.
  pub forward_counter_mgmt_command-Passes :
      (s : UplinkApp)
      → byte_at cmd.payload 0 ≢ scope_uplink
      → Passes class_counter_mgmt s (forward_counter_mgmt_command env cmd s)
  unfolding forward_counter_mgmt_command
  forward_counter_mgmt_command-Passes s h = ground arith

  -- For that scope the counters are reset, or the command is refused and nothing happens.
  pub forward_counter_mgmt_command_own :
      (s : UplinkApp)
      → byte_at cmd.payload 0 ≡ scope_uplink
      → (forward_counter_mgmt_command env cmd s
          ≡ (record s { cmd_counter = 0; err_counter = 0 }, true))
        ⊎ (forward_counter_mgmt_command env cmd s ≡ (s, false))
  unfolding forward_counter_mgmt_command
  forward_counter_mgmt_command_own s h = ground arith
