-- ===== src/Mavlink/Upload.antt =====
-- The upload of a route to the flight controller: MAVLINK_BRIDGE_APP_StartMissionUpload and
-- CheckMissionUploadTimeout (mavlink_bridge_app/fsw/src/mavlink_bridge_app_utils.c).
pub mod Edits
pub mod Loop
use cfs_telemetry_app.Common.{
  ℕ, zero, suc, ◌+◌, ◌-◌, Bool, true, false, not, List, [], ◌∷◌, ◌==◌, ltb, if◌then◌else◌, u8, u32,
  Option, none, some,
}
use cfs_telemetry_app.Common.Time.{get_time_ms}
use cfs_telemetry_app.Uplink.Messages.{Waypoint, route_max_waypoints}
use cfs_telemetry_app.CfsCore.State.{RouteTlm}
use cfs_telemetry_app.Mavlink.State.{
  Upload, ActiveRoute, Bridge, BridgeEnv, link_connected, upload_idle, upload_clearing,
  upload_active, download_idle, result_timeout,
}
use cfs_telemetry_app.Mavlink.Send.{waypoint_at, send_mission_clear_all, send_mission_count}
use cfs_telemetry_app.Mavlink.Readback.{is_reached}

-- MAVLINK_BRIDGE_APP_MISSION_UPLOAD_TIMEOUT_MS, MISSION_CLEAR_DELAY_MS and MISSION_MAX_RETRIES.
abbrev pub upload_timeout_ms : ℕ
upload_timeout_ms = 2000

abbrev pub clear_delay_ms : ℕ
clear_delay_ms = 300

abbrev pub max_retries : ℕ
max_retries = 3

-- MAVLINK_BRIDGE_ROUTE_OP_ADD, DELETE and MODIFY; any other value replaces the route.
abbrev pub op_add : ℕ
op_add = 2

abbrev pub op_delete : ℕ
op_delete = 3

abbrev pub op_modify : ℕ
op_modify = 4

-- A write to an array; one past its end changes nothing here, and Upload/Edits shows that none is.
abbrev pub set_at : List Waypoint → ℕ → Waypoint → List Waypoint
set_at [] i w = []
set_at (x ∷ xs) zero w = w ∷ xs
set_at (x ∷ xs) (suc i) w = x ∷ set_at xs i w

-- A loop that copies `source i` to the entries from i on, n of them.
unfoldable pub copy_loop : ℕ → ℕ → (ℕ → Waypoint) → List Waypoint → List Waypoint
copy_loop zero i source pending = pending
copy_loop (suc n) i source pending = copy_loop n (suc i) source (set_at pending i (source i))

-- What an operation leaves: the pending route, its length, and the index to resume at.
pub record Edit : Type 0 where
  pub pending : List Waypoint
  pub count : ℕ
  pub resume_index : ℕ

-- ADD: the loop over the active route, and the loop over the new waypoints from where that stopped.
unfoldable pub add_route : RouteTlm → ActiveRoute → List Waypoint → Edit
add_route msg a pending =
    let wide = a.count + msg.waypoint_count in
    let count = if ltb route_max_waypoints wide then route_max_waypoints else wide in
    let kept = if ltb count a.count then count else a.count in
    record {
      pending =
          copy_loop (count - kept) kept (λ i. waypoint_at msg.waypoints (i - a.count))
            (copy_loop kept 0 (waypoint_at a.waypoints) pending);
      count = count;
      resume_index = a.resume_index;
    }

-- DELETE is refused for an index past the route and for the current target.
unfoldable pub delete_waypoint : RouteTlm → ActiveRoute → List Waypoint → Option Edit
delete_waypoint msg a pending =
    let index = msg.waypoint_count in
    if not (ltb index a.count)
    then none
    else if index == a.resume_index
    then none
    else some (record {
      pending =
          copy_loop (a.count - 1) 0
            (λ i. waypoint_at a.waypoints (if ltb i index then i else i + 1)) pending;
      count = a.count - 1;
      resume_index = if ltb index a.resume_index then a.resume_index - 1 else a.resume_index;
    })

unfoldable pub modify_waypoint : RouteTlm → ActiveRoute → List Waypoint → Option Edit
modify_waypoint msg a pending =
    let index = msg.waypoint_count in
    if not (ltb index a.count)
    then none
    else some (record {
      pending =
          copy_loop a.count 0
            (λ i. if i == index then waypoint_at msg.waypoints 0 else waypoint_at a.waypoints i)
            pending;
      count = a.count;
      resume_index = a.resume_index;
    })

unfoldable pub replace_route : RouteTlm → ActiveRoute → List Waypoint → Edit
replace_route msg a pending =
    let count =
      if ltb route_max_waypoints msg.waypoint_count
      then route_max_waypoints
      else msg.waypoint_count in
    record {
      pending = copy_loop count 0 (waypoint_at msg.waypoints) pending;
      count = count;
      resume_index = a.resume_index;
    }

-- The four branches over the type of the route; `none` is a return.
unfoldable pub edit_route : RouteTlm → ActiveRoute → List Waypoint → Option Edit
edit_route msg a pending =
    if msg.route_type == op_add
    then some (add_route msg a pending)
    else if msg.route_type == op_delete
    then delete_waypoint msg a pending
    else if msg.route_type == op_modify
    then modify_waypoint msg a pending
    else some (replace_route msg a pending)

-- The end of the function.
abbrev pub begin_upload : BridgeEnv → Option Edit → Bridge → Bridge
begin_upload env none s = s
begin_upload env (some e) s = send_mission_clear_all env (record s {
  upload = record s.upload {
    pending = e.pending;
    wp_count = e.count;
    state = upload_clearing;
    retry = 0;
    timeout_ms = u32 (get_time_ms env.time + clear_delay_ms);
  };
  active = record s.active { resume_index = e.resume_index };
})

unfoldable pub start_mission_upload : BridgeEnv → RouteTlm → Bridge → Bridge
start_mission_upload env msg s =
    if not (s.link_state == link_connected)
    then s
    else if not (s.download.state == download_idle)
    then s
    else begin_upload env (edit_route msg s.active s.upload.pending) s

-- The end of the wait for the flight controller to clear its mission.
abbrev pub announce_count : BridgeEnv → ℕ → Bridge → Bridge
announce_count env now s = send_mission_count env s.upload.wp_count (record s {
  upload = record s.upload { state = upload_active; timeout_ms = u32 (now + upload_timeout_ms) };
})

abbrev pub retry_upload : BridgeEnv → ℕ → Bridge → Bridge
retry_upload env now s = send_mission_count env s.upload.wp_count (
    send_mission_clear_all env (record s {
      upload = record s.upload {
        retry = u8 (s.upload.retry + 1);
        timeout_ms = u32 (now + upload_timeout_ms);
      };
    }))

abbrev pub give_up_upload : Bridge → Bridge
give_up_upload s = record s {
  upload = record s.upload {
    state = upload_idle;
    fail_count = u32 (s.upload.fail_count + 1);
    last_result = result_timeout;
  };
}

unfoldable pub check_mission_upload_timeout : BridgeEnv → ℕ → Bridge → Bridge
check_mission_upload_timeout env now s =
    if s.upload.state == upload_clearing
    then if is_reached now s.upload.timeout_ms then announce_count env now s else s
    else if not (s.upload.state == upload_active)
    then s
    else if not (is_reached now s.upload.timeout_ms)
    then s
    else if ltb s.upload.retry max_retries
    then retry_upload env now s
    else give_up_upload s
