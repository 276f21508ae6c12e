-- ===== src/System.antt =====
-- The software bus between uplink_app and cfs_core_app: which of the messages that uplink_app
-- publishes cfs_core_app subscribes to, as the fields of shared_msgs/ that its handlers read, and
-- the result that goes back.
pub mod Answers
pub mod Tests
use cfs_telemetry_app.Common.{
  ℕ, Bool, true, false, List, ◌++◌, Option, none, some, ◌==◌, if◌then◌else◌,
}
use cfs_telemetry_app.Uplink.Messages.{
  MsgStamp, SbMessage, status_tlm, hk_tlm, route_update, recovery_cmd, viewpoint_cmd, config_cmd,
  mode_cmd, diagnostic_cmd, reset_counters_cmd, flight_mode_ctrl_cmd,
}
use cfs_telemetry_app.Uplink.Process.{ExecResultTlm}
use cfs_telemetry_app.CfsCore.State.{ExecResult, CoreApp, CoreEnv}
use cfs_telemetry_app.CfsCore.Main.{
  CorePipeMsg, config_msg, viewpoint_msg, recovery_msg, mode_msg, diagnostic_msg, core_command,
  state_msg, route_update_msg, core_task_pipe,
}

-- What cfs_core_app finds on its pipe of a message of uplink_app; the array of a route is padded
-- by the sender.
unfoldable pub core_input : SbMessage → Option CorePipeMsg
core_input (recovery_cmd st action target reason token) =
    some (recovery_msg (record { source_sequence = st.source_sequence; recovery_action = action }))
core_input (mode_cmd st action state token) = some (
    mode_msg (record {
      source_sequence = st.source_sequence;
      mode_action = action;
      requested_state = state;
      request_token = token;
    }))
core_input (viewpoint_cmd st v) = some (
    viewpoint_msg (record {
      timestamp_ms = st.timestamp_ms;
      source_sequence = st.source_sequence;
      viewpoint_type = v.viewpoint_type;
      position_frame = v.position_frame;
      x = v.x;
      y = v.y;
      z = v.z;
      yaw = v.yaw;
      pitch = v.pitch;
      hold_time_ms = v.hold_time_ms;
    }))
core_input (config_cmd st len payload) = some (
    config_msg
      (record { source_sequence = st.source_sequence; payload_length = len; payload = payload }))
core_input (diagnostic_cmd st action target token) = some (
    diagnostic_msg
      (record { source_sequence = st.source_sequence; diag_action = action; diag_target = target }))
core_input (route_update st r) = some (
    state_msg (
      route_update_msg (record {
        seq = st.seq;
        timestamp_ms = st.timestamp_ms;
        source_sequence = st.source_sequence;
        route_type = r.route_type;
        route_version = r.route_version;
        waypoint_count = r.waypoint_count;
        waypoints = r.waypoints;
      })))
core_input (reset_counters_cmd mid) =
    if mid == 0x18c0 then some (core_command (some 1) true) else none
core_input (status_tlm m) = none
core_input (hk_tlm m) = none
core_input (flight_mode_ctrl_cmd m) = none

-- cfs_core_app takes the message if it subscribes to it.
abbrev pub when_input : CoreEnv → Option CorePipeMsg → CoreApp → CoreApp
when_input env none s = s
when_input env (some msg) s = core_task_pipe env msg s

unfoldable pub core_receive : CoreEnv → SbMessage → CoreApp → CoreApp
unfolding core_input
core_receive env m s = when_input env (core_input m) s

-- What uplink_app reads of a result.
abbrev pub uplink_input : ExecResult → ExecResultTlm
uplink_input r = record { source_sequence = r.source_sequence; generic_result = r.generic_result }
