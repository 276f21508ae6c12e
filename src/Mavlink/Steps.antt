-- ===== src/Mavlink/Steps.antt =====
-- A run of the mission protocol: the frames and commands that mavlink_bridge_app gets and the checks
-- of its timers, as MAVLINK_BRIDGE_APP_TaskPipe and ServiceSerial (mavlink_bridge_app/fsw/src/) call
-- them, in any order.
pub mod Uploads
pub mod Confirmed
pub mod Exclusive
pub mod Settles
use cfs_telemetry_app.Common.{ℕ, ◌+◌, Bool, true, false, List, [], ◌∷◌, if◌then◌else◌}
use cfs_telemetry_app.CfsCore.State.{RouteTlm}
use cfs_telemetry_app.Mavlink.Parser.{Parser}
use cfs_telemetry_app.Mavlink.State.{Bridge, BridgeEnv}
use cfs_telemetry_app.Mavlink.Readback.{
  is_reached, mission_query, check_mission_download_timeout, set_link_state, retry_readback,
}
use cfs_telemetry_app.Mavlink.Upload.{start_mission_upload, check_mission_upload_timeout}
use cfs_telemetry_app.Mavlink.Receive.{handle_frame_complete}

pub data BridgeEvent : Type 0 where
  -- A frame that the parser has completed, at a time.
  frame_received : ℕ → Parser → BridgeEvent
  -- The checks of ServiceSerial, at a time.
  upload_timer download_timer readback_timer : ℕ → BridgeEvent
  -- SetLinkState where the port opens, falls silent or fails.
  link_changed : ℕ → BridgeEvent
  route_update_received : RouteTlm → BridgeEvent
  -- The command, and whether its length is right.
  mission_query_received : Bool → BridgeEvent

unfoldable pub bridge_step : BridgeEnv → BridgeEvent → Bridge → Bridge
bridge_step env (frame_received now p) s = handle_frame_complete env now p s
bridge_step env (upload_timer now) s = check_mission_upload_timeout env now s
bridge_step env (download_timer now) s = check_mission_download_timeout now s
bridge_step env (readback_timer now) s = retry_readback env now s
bridge_step env (link_changed state) s = set_link_state env state s
bridge_step env (route_update_received msg) s = start_mission_upload env msg s
bridge_step env (mission_query_received fits) s = mission_query env fits s

unfoldable pub run_bridge : List (BridgeEnv × BridgeEvent) → Bridge → Bridge
run_bridge [] s = s
run_bridge ((env, e) ∷ rest) s = run_bridge rest (bridge_step env e s)

-- How many checks of the upload timer in a run find its time reached.
abbrev pub is_expiry : BridgeEvent → Bridge → Bool
is_expiry (upload_timer now) s = is_reached now s.upload.timeout_ms
is_expiry _ s = false

unfoldable pub expiries : List (BridgeEnv × BridgeEvent) → Bridge → ℕ
expiries [] s = 0
expiries ((env, e) ∷ rest) s =
    let later = expiries rest (bridge_step env e s) in if is_expiry e s then later + 1 else later
