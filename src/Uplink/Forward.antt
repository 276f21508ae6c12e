-- ===== src/Uplink/Forward.antt =====
-- The functions that pass an accepted command on to another application, each with the bool that
-- it returns (uplink_app/fsw/src/uplink_app_utils.c).
use cfs_telemetry_app.Common.{
  ℕ, ◌+◌, Bool, true, false, not, ◌||◌, ltb, ◌==◌, if◌then◌else◌, u8, u32, byte_at, le16, le32,
  take,
}
use cfs_telemetry_app.Uplink.Messages.{
  ProcessUplinkCmd, RouteUpdatePayload, ViewpointPayload, FlightModePayload, FlightModeCtrlCmd,
  MsgStamp, SbMessage, route_update, recovery_cmd, viewpoint_cmd, config_cmd, mode_cmd,
  diagnostic_cmd, reset_counters_cmd, flight_mode_ctrl_cmd, scope_mavlink_bridge, scope_cfs_core,
  scope_uplink, scope_lora_tdm, config_idle, config_rejected,
}
use cfs_telemetry_app.Uplink.State.{UplinkApp, Env, transmit}
use cfs_telemetry_app.Uplink.Payload.{config_checksum}

-- Seq, TimestampMs and SourceSequence of a message that forwards the command.
abbrev pub stamp : UplinkApp → ProcessUplinkCmd → MsgStamp
stamp s cmd = record {
  seq = u32 (s.sequence_counter + 1);
  timestamp_ms = s.last_rx_time_ms;
  source_sequence = cmd.sequence;
}

-- The transmission that ends each function, and its status.
abbrev pub send : Env → SbMessage → UplinkApp → UplinkApp × Bool
send env m s = (transmit env m s, env.delivers m)

unfoldable pub publish_route_update :
    Env → ProcessUplinkCmd → RouteUpdatePayload → UplinkApp → UplinkApp × Bool
publish_route_update env cmd payload s = send env (route_update (stamp s cmd) payload) s

unfoldable pub forward_recovery_command : Env → ProcessUplinkCmd → UplinkApp → UplinkApp × Bool
forward_recovery_command env cmd s =
    if ltb cmd.payload_length 8
    then (s, false)
    else send env
        (recovery_cmd (stamp s cmd) (byte_at cmd.payload 0) (byte_at cmd.payload 1)
          (le16 (byte_at cmd.payload 2) (byte_at cmd.payload 3))
          (le32 (byte_at cmd.payload 4) (byte_at cmd.payload 5) (byte_at cmd.payload 6)
            (byte_at cmd.payload 7)))
        s

-- A RESET_COUNTERS command to the application that has the command id `target_mid`.
abbrev send_reset : Env → ℕ → UplinkApp → UplinkApp × Bool
send_reset env target_mid s =
    if not env.sets_fcn_code then (s, false) else send env (reset_counters_cmd target_mid) s

unfoldable pub forward_counter_mgmt_command : Env → ProcessUplinkCmd → UplinkApp → UplinkApp × Bool
forward_counter_mgmt_command env cmd s =
    let scope = byte_at cmd.payload 0 in
    if ltb cmd.payload_length 6
    then (s, false)
    else if not (byte_at cmd.payload 1 == 0)
    then (s, false)
    else if scope == scope_uplink
    then (record s { cmd_counter = 0; err_counter = 0 }, true)
    else if scope == scope_mavlink_bridge
    then send_reset env 0x18a0 s
    else if scope == scope_cfs_core
    then send_reset env 0x18c0 s
    else if scope == scope_lora_tdm
    then send_reset env 0x18e0 s
    else (s, false)

-- The command is built in a buffer of the state, which keeps it when the transmission fails.
unfoldable pub forward_flight_mode_command :
    Env → ProcessUplinkCmd → FlightModePayload → UplinkApp → UplinkApp × Bool
forward_flight_mode_command env cmd payload s =
    let ctrl : FlightModeCtrlCmd = record {
      fcn_code = 5;
      source_sequence = cmd.sequence;
      flight_mode = payload.flight_mode;
      waypoint_start_index = payload.waypoint_start_index;
    } in
    if not env.sets_fcn_code
    then (s, false)
    else send env (flight_mode_ctrl_cmd ctrl) (record s { flight_mode_ctrl = ctrl })

-- The state and the result after the transmission of a configuration.
abbrev settle_config : UplinkApp × Bool → UplinkApp × Bool
settle_config (s, true) =
    (record s { config_pending_state = config_idle; last_config_result = 0 }, true)
settle_config (s, false) =
    (record s { config_pending_state = config_rejected; last_config_result = 1 }, false)

abbrev pub count_error : UplinkApp → UplinkApp
count_error s = record s { err_counter = u8 (s.err_counter + 1) }

-- CONFIG_PENDING is set before the transmission and overwritten after it, within the call.
unfoldable pub forward_config_command : Env → ProcessUplinkCmd → UplinkApp → UplinkApp × Bool
forward_config_command env cmd s =
    if ltb cmd.payload_length 8
    then (count_error s, false)
    else if not (byte_at cmd.payload 5 == 4)
        || ltb cmd.payload_length (u8 (8 + byte_at cmd.payload 5))
    then (count_error s, false)
    else if not
        (le16 (byte_at cmd.payload 6) (byte_at cmd.payload 7) == config_checksum cmd.payload)
    then (count_error s, false)
    else settle_config (
        send env (config_cmd (stamp s cmd) cmd.payload_length (take cmd.payload_length cmd.payload))
          s)

unfoldable pub forward_mode_command : Env → ProcessUplinkCmd → UplinkApp → UplinkApp × Bool
forward_mode_command env cmd s =
    if ltb cmd.payload_length 6
    then (s, false)
    else send env
        (mode_cmd (stamp s cmd) (byte_at cmd.payload 0) (byte_at cmd.payload 1) (
          le32 (byte_at cmd.payload 2) (byte_at cmd.payload 3) (byte_at cmd.payload 4)
            (byte_at cmd.payload 5)))
        s

unfoldable pub forward_diagnostic_command : Env → ProcessUplinkCmd → UplinkApp → UplinkApp × Bool
forward_diagnostic_command env cmd s =
    if ltb cmd.payload_length 6
    then (s, false)
    else send env
        (diagnostic_cmd (stamp s cmd) (byte_at cmd.payload 0) (byte_at cmd.payload 1) (
          le32 (byte_at cmd.payload 2) (byte_at cmd.payload 3) (byte_at cmd.payload 4)
            (byte_at cmd.payload 5)))
        s

unfoldable pub forward_viewpoint_command :
    Env → ProcessUplinkCmd → ViewpointPayload → UplinkApp → UplinkApp × Bool
forward_viewpoint_command env cmd payload s = send env (viewpoint_cmd (stamp s cmd) payload) s
