-- ===== src/Mavlink/Commands.antt =====
-- The commands of mavlink_bridge_app: MAVLINK_BRIDGE_APP_ProcessSetFlightModeCmd and
-- ProcessParserResetCmd (mavlink_bridge_app/fsw/src/mavlink_bridge_app_utils.c), Noop and
-- ResetCountersCmd (mavlink_bridge_app_cmds.c).
pub mod Answers
use cfs_telemetry_app.Common.{
  ℕ, ◌+◌, Bool, true, false, ◌&&◌, List, [], ◌∷◌, ◌++◌, Option, none, some, ◌==◌, if◌then◌else◌, u8,
  Float32, replicate, bytes16, bytes32,
}
use cfs_telemetry_app.Mavlink.Parser.{Parser, reset_parser}
use cfs_telemetry_app.Mavlink.State.{Bridge, BridgeEnv}
use cfs_telemetry_app.Mavlink.Send.{addressed, send_mavlink_v2}
use cfs_telemetry_app.Mavlink.Readback.{when_cmd_fits}
use cfs_telemetry_app.Mavlink.Config.{publish_bridge_result}

-- MAVLINK_BRIDGE_APP_SetFlightModeCmd_t
pub record SetFlightModeCmd : Type 0 where
  pub source_sequence : ℕ
  pub flight_mode : ℕ
  pub waypoint_start_index : ℕ

-- The switch over the mode: the sub mode of PX4 as a float, 3, 4 and 6.
unfoldable pub sub_mode : ℕ → Option Float32
sub_mode mode =
    if mode == 0
    then some 0x40400000
    else if mode == 1
    then some 0x40800000
    else if mode == 2
    then some 0x40c00000
    else none

-- The 33 bytes of MAV_CMD_DO_SET_MODE: the flag 1.0, the main mode 4.0 and the sub mode.
abbrev pub set_mode_payload : Bridge → Float32 → List ℕ
set_mode_payload s sub =
    bytes32 0x3f800000
    ++ bytes32 0x40800000
    ++ bytes32 sub
    ++ replicate 16 0
    ++ bytes16 176
    ++ addressed s (0 ∷ [])

abbrev pub set_current_payload : Bridge → ℕ → List ℕ
set_current_payload s index = bytes16 index ++ addressed s []

-- The mode, and for WAYPOINT the index to start at once the mode is sent.
unfoldable pub send_flight_mode : BridgeEnv → SetFlightModeCmd → Float32 → Bridge → Bridge × Bool
send_flight_mode env cmd sub s =
    let (s', ok) = send_mavlink_v2 env 76 (set_mode_payload s sub) 152 s in
    if ok && cmd.flight_mode == 1
    then send_mavlink_v2 env 41 (set_current_payload s' cmd.waypoint_start_index) 28 s'
    else (s', ok)

abbrev pub count_bridge_error : Bridge → Bridge
count_bridge_error s = record s { err_counter = u8 (s.err_counter + 1) }

abbrev pub count_bridge_command : Bridge → Bridge
count_bridge_command s = record s { cmd_counter = u8 (s.cmd_counter + 1) }

-- A mode that is not known is refused.
abbrev pub set_flight_mode : BridgeEnv → SetFlightModeCmd → Option Float32 → Bridge → Bridge
set_flight_mode env cmd none s =
    publish_bridge_result env cmd.source_sequence 8 false (u8 cmd.flight_mode)
      (count_bridge_error s)
set_flight_mode env cmd (some sub) s =
    let (s', ok) = send_flight_mode env cmd sub s in
    publish_bridge_result env cmd.source_sequence 8 ok (u8 cmd.flight_mode)
      (if ok then count_bridge_command s' else count_bridge_error s')

unfoldable pub process_set_flight_mode : BridgeEnv → Bool → SetFlightModeCmd → Bridge → Bridge
unfolding sub_mode
process_set_flight_mode env fits cmd s =
    when_cmd_fits fits (set_flight_mode env cmd (sub_mode cmd.flight_mode)) s

unfoldable pub process_parser_reset : Bool → Parser × Bridge → Parser × Bridge
process_parser_reset fits (p, s) =
    if fits then (reset_parser, count_bridge_command s) else (p, count_bridge_error s)

unfoldable pub bridge_noop : Bool → Bridge → Bridge
bridge_noop fits s = when_cmd_fits fits (λ s. count_bridge_command s) s

unfoldable pub bridge_reset_counters : Bool → Bridge → Bridge
bridge_reset_counters fits s =
    when_cmd_fits fits (λ s. record s { cmd_counter = 0; err_counter = 0; parse_error_count = 0 }) s
