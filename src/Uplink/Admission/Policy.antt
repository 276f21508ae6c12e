-- ===== src/Uplink/Admission/Policy.antt =====
-- The validation, health and authorization policies of uplink_app against independent statements
-- of what they admit.
use cfs_telemetry_app.Common.{ℕ, ◌/◌, ◌%◌, ◌≤◌, ◌<◌, ◌≡◌, ◌≢◌, ◌⊎◌, ◌↔◌, true, byte_at, arith}
use cfs_telemetry_app.Uplink.Messages.{
  accept, ProcessUplinkCmd, class_config, class_route_update, class_viewpoint, class_recovery,
  class_diagnostic, class_flight_mode, flight_mode_hover, flight_mode_waypoint, flight_mode_land,
}
use cfs_telemetry_app.Uplink.Admission.{
  compute_proxy_crc, validate_proxy_command, blocked_by_health, parse_request_token, is_authorized,
  class_required_level,
}

-- A command is accepted exactly if its version is 1, its length at most 196, its class one of the
-- eight, its length not 0 where the class is a route or a viewpoint, and its checksum right.
pub validate_proxy_command_iff :
    (cmd : ProcessUplinkCmd)
    → (validate_proxy_command cmd ≡ accept) ↔ (
        (cmd.version ≡ 1)
        × (cmd.payload_length ≤ 196)
        × (1 ≤ cmd.command_class)
        × (cmd.command_class ≤ 8)
        × ((cmd.command_class ≡ class_route_update) ⊎ (cmd.command_class ≡ class_viewpoint)
            → 0 < cmd.payload_length)
        × (compute_proxy_crc cmd ≡ cmd.checksum))
unfolding validate_proxy_command
validate_proxy_command_iff cmd = ground arith

-- A flight mode command whose first payload byte is there and is the mode.
abbrev pub IsFlightMode : ProcessUplinkCmd → ℕ → Type 0
IsFlightMode cmd mode =
    (cmd.command_class ≡ class_flight_mode)
    × (1 ≤ cmd.payload_length)
    × (byte_at cmd.payload 0 ≡ mode)

-- Health blocks a command exactly if its force flag is clear, it is no HOVER and no LAND, and
-- either the state is RECOVERY or FAILED and the class neither recovery nor diagnostic, or the
-- state is DEGRADED and the command a viewpoint, a configuration or a WAYPOINT.
pub blocked_by_health_iff :
    (state : ℕ) (cmd : ProcessUplinkCmd)
    → (blocked_by_health state cmd ≡ true) ↔ (
        (cmd.flags % 2 ≡ 0)
        × ¬ (IsFlightMode cmd flight_mode_hover)
        × ¬ (IsFlightMode cmd flight_mode_land)
        × ((((state ≡ 2) ⊎ (state ≡ 3))
              × (cmd.command_class ≢ class_recovery)
              × (cmd.command_class ≢ class_diagnostic))
            ⊎ ((state ≡ 1)
                × ((cmd.command_class ≡ class_viewpoint)
                    ⊎ (cmd.command_class ≡ class_config)
                    ⊎ IsFlightMode cmd flight_mode_waypoint))))
unfolding blocked_by_health
blocked_by_health_iff state cmd = ground arith

-- An authorized command carries at least the level of its class; where that is 3 (recovery, mode,
-- counter management, flight mode) it carries a token that is not 0, so its payload has at least
-- the 8 bytes of a recovery command or the 6 of another.
pub is_authorized_lem :
    (cmd : ProcessUplinkCmd)
    → is_authorized cmd (parse_request_token cmd) ≡ true
    → (class_required_level cmd.command_class ≤ cmd.flags / 64 % 4)
      × (class_required_level cmd.command_class ≡ 3
          → (parse_request_token cmd ≢ 0)
            × (6 ≤ cmd.payload_length)
            × (cmd.command_class ≡ class_recovery → 8 ≤ cmd.payload_length))
unfolding is_authorized parse_request_token
is_authorized_lem cmd h = (ground arith, λ level. ground arith)
