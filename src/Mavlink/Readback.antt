-- ===== src/Mavlink/Readback.antt =====
-- The readback of the mission from the flight controller: MAVLINK_BRIDGE_APP_StartFcMissionReadback,
-- PublishFcMissionReadback, MissionQuery, CheckMissionDownloadTimeout and SetLinkState
-- (mavlink_bridge_app/fsw/src/mavlink_bridge_app_utils.c).
use cfs_telemetry_app.Common.{
  ℕ, ◌+◌, ◌*◌, Bool, true, false, not, ◌&&◌, ◌==◌, ltb, if◌then◌else◌, u8, u32, sub32, take,
}
use cfs_telemetry_app.Common.Time.{get_time_ms}
use cfs_telemetry_app.CfsCore.State.{RouteTlm}
use cfs_telemetry_app.Uplink.Messages.{route_max_waypoints}
use cfs_telemetry_app.Mavlink.State.{
  Download, Bridge, BridgeEnv, fc_mission_readback_tlm, transmit_bridge, link_disconnected,
  link_connected, upload_idle, download_idle, wait_count,
}
use cfs_telemetry_app.Mavlink.Send.{send_mission_request_list}

-- MAVLINK_BRIDGE_APP_MISSION_DOWNLOAD_TIMEOUT_MS
abbrev pub download_timeout_ms : ℕ
download_timeout_ms = 3000

abbrev pub backoff_initial_ms : ℕ
backoff_initial_ms = 1000

abbrev pub backoff_cap_ms : ℕ
backoff_cap_ms = 5000

-- (int32)(NowMs - Time) >= 0
abbrev pub is_reached : ℕ → ℕ → Bool
is_reached now time = ltb (sub32 now time) 2147483648

-- The assignments that a download starts with.
abbrev pub start_download : ℕ → Download → Download
start_download now d = record d {
  state = wait_count;
  seq = 0;
  expected_count = 0;
  timeout_ms = u32 (now + download_timeout_ms);
}

unfoldable pub start_fc_mission_readback : BridgeEnv → Bridge → Bridge
start_fc_mission_readback env s = send_mission_request_list env (record s {
  download = record (start_download (get_time_ms env.time) s.download) { is_pending = false };
})

-- The route that is published: at most the entries that the buffer holds.
abbrev pub readback_tlm : ℕ → Download → RouteTlm
readback_tlm now d =
    let count =
      if ltb route_max_waypoints d.expected_count then route_max_waypoints else d.expected_count in
    record {
      seq = u32 (d.readback_seq + 1);
      timestamp_ms = now;
      source_sequence = 0;
      route_type = 1;
      route_version = 0;
      waypoint_count = count;
      waypoints = take count d.waypoints;
    }

-- The entries of the message after the count keep what they had: they are left out here.
unfoldable pub publish_fc_mission_readback : BridgeEnv → Bridge → Bridge
publish_fc_mission_readback env s =
    transmit_bridge env (fc_mission_readback_tlm (readback_tlm (get_time_ms env.time) s.download))
      (record s {
        download = record s.download { readback_seq = u32 (s.download.readback_seq + 1) };
      })

-- MAVLINK_BRIDGE_APP_VerifyCmdLength, and the handler behind it.
abbrev pub when_cmd_fits : Bool → (Bridge → Bridge) → Bridge → Bridge
when_cmd_fits fits handler s =
    if fits then handler s else record s { err_counter = u8 (s.err_counter + 1) }

abbrev pub query : BridgeEnv → Bridge → Bridge
query env s =
    if not (s.link_state == link_connected)
    then record s { err_counter = u8 (s.err_counter + 1) }
    else send_mission_request_list env (record s {
      download = start_download (get_time_ms env.time) s.download;
      cmd_counter = u8 (s.cmd_counter + 1);
    })

unfoldable pub mission_query : BridgeEnv → Bool → Bridge → Bridge
mission_query env fits s = when_cmd_fits fits (query env) s

-- The wait before the next try, and the one after it.
abbrev pub schedule_retry : ℕ → Download → Download
schedule_retry now d =
    let backoff =
      if ltb d.backoff_ms backoff_initial_ms then backoff_initial_ms else d.backoff_ms in
    let doubled = u32 (backoff * 2) in
    record d {
      is_pending = true;
      next_retry_ms = u32 (now + backoff);
      backoff_ms = if ltb backoff_cap_ms doubled then backoff_cap_ms else doubled;
    }

unfoldable pub check_mission_download_timeout : ℕ → Bridge → Bridge
check_mission_download_timeout now s =
    let idle : Download = record s.download { state = download_idle } in
    if s.download.state == download_idle
    then s
    else if not (is_reached now s.download.timeout_ms)
    then s
    else if s.link_state == link_connected
    then record s { download = schedule_retry now idle }
    else record s { download = idle }

-- The link comes up: the first wait again, and a readback unless the mission protocol is busy.
unfoldable pub on_connected : BridgeEnv → Bridge → Bridge
on_connected env s =
    let s' : Bridge = record s {
      download = record s.download { backoff_ms = backoff_initial_ms; is_pending = false };
    } in
    if s.upload.state == upload_idle && s.download.state == download_idle
    then start_fc_mission_readback env s'
    else s'

unfoldable pub set_link_state : BridgeEnv → ℕ → Bridge → Bridge
set_link_state env new_state s =
    let s' : Bridge = record s { link_state = new_state } in
    if new_state == link_connected && not (s.link_state == link_connected)
    then on_connected env s'
    else if new_state == link_disconnected
    then record s' { download = record s.download { is_pending = false } }
    else s'

-- The block of MAVLINK_BRIDGE_APP_ServiceSerial that repeats a readback.
unfoldable pub retry_readback : BridgeEnv → ℕ → Bridge → Bridge
retry_readback env now s =
    if s.download.is_pending
      && is_reached now s.download.next_retry_ms
      && s.link_state == link_connected
      && s.upload.state == upload_idle
      && s.download.state == download_idle
    then start_fc_mission_readback env s
    else s
