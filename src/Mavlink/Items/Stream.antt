-- ===== src/Mavlink/Items/Stream.antt =====
-- The items of a route as the bridge sends them (MAVLINK_BRIDGE_APP_SendMissionItemInt in
-- mavlink_bridge_app/fsw/src/mavlink_bridge_app_utils.c), and the frames that the parser makes of them.
use cfs_telemetry_app.Common.{
  ℕ, zero, suc, ◌+◌, ◌<◌, ◌≡◌, refl, ap, ◌∙◌, true, List, [], ◌∷◌, ◌++◌, All, length, u8, arith,
}
use cfs_telemetry_app.Uplink.Messages.{Waypoint}
use cfs_telemetry_app.CfsCore.Main.{empty_waypoint}
use cfs_telemetry_app.Mavlink.Parser.{Parser, wait_stx, reset_parser, frames_of}
use cfs_telemetry_app.Mavlink.Frame.{mavlink_frame}
use cfs_telemetry_app.Mavlink.State.{Bridge, BridgeEnv}
use cfs_telemetry_app.Mavlink.Send.{
  mission_item_int_id, item_int_payload, waypoint_at, send_mavlink_v2, send_mission_item_int,
}
use cfs_telemetry_app.Mavlink.Publish.{u16_at}
use cfs_telemetry_app.Mavlink.Items.{IsWireWaypoint, number-payload, item_parsed, frames_of-item}

-- The frame that went out last.
abbrev pub latest : List (List ℕ) → List ℕ
latest [] = []
latest (frame ∷ written) = frame

-- The bytes of the items i to i + n - 1, as the bridge writes them one after the other.
unfoldable pub item_stream : BridgeEnv → ℕ → ℕ → Bridge → List ℕ
item_stream env zero i r = []
item_stream env (suc n) i r =
    let r' = send_mission_item_int env i r in latest r'.written ++ item_stream env n (suc i) r'

abbrev pub item_numbers : List Parser → List ℕ
item_numbers [] = []
item_numbers (q ∷ qs) = u16_at q.payload 28 ∷ item_numbers qs

abbrev pub upward : ℕ → ℕ → List ℕ
upward zero i = []
upward (suc n) i = i ∷ upward n (suc i)

-- A bridge whose port takes every frame, with a route in its buffer.
pub record IsSender (env : BridgeEnv) (r : Bridge) : Type 0 where
  pub port : r.is_serial_open ≡ true
  pub writes : (frame : List ℕ) → env.writes frame ≡ true
  pub wire : All IsWireWaypoint r.upload.pending
  pub whole : length r.upload.pending ≡ 37

empty-IsWireWaypoint : IsWireWaypoint empty_waypoint
empty-IsWireWaypoint = record {
  cmd_type = omega arith;
  param1 = omega arith;
  param2 = omega arith;
  param3 = omega arith;
  param4 = omega arith;
  lat_e7 = omega arith;
  lon_e7 = omega arith;
  z = omega arith;
}

pub waypoint_at-IsWireWaypoint :
    (ws : List Waypoint) (i : ℕ) → All IsWireWaypoint ws → IsWireWaypoint (waypoint_at ws i)
waypoint_at-IsWireWaypoint [] i a = empty-IsWireWaypoint
waypoint_at-IsWireWaypoint (w ∷ ws) zero a = a.0
waypoint_at-IsWireWaypoint (w ∷ ws) (suc i) a = waypoint_at-IsWireWaypoint ws i a.1

-- The bridge after it has sent an item.
abbrev pub item_sent : ℕ → Bridge → Bridge
item_sent i r = record r {
  tx_sequence = u8 (r.tx_sequence + 1);
  written =
      mavlink_frame r.tx_sequence mission_item_int_id
        (item_int_payload r i (waypoint_at r.upload.pending i)) 38
      ∷ r.written;
}

send_mission_item_int-sent :
    (env : BridgeEnv) (i : ℕ) (r : Bridge)
    → IsSender env r
    → send_mission_item_int env i r ≡ item_sent i r
unfolding send_mission_item_int send_mavlink_v2
send_mission_item_int-sent env i r k = ground (
  arith,
  k.port,
  k.writes (
      mavlink_frame r.tx_sequence mission_item_int_id
        (item_int_payload r i (waypoint_at r.upload.pending i)) 38),
)

-- The frames that the parser makes of the stream.
abbrev pub items_parsed : ℕ → ℕ → Bridge → List Parser
items_parsed zero i r = []
items_parsed (suc n) i r =
    item_parsed r i (waypoint_at r.upload.pending i) ∷ items_parsed n (suc i) (item_sent i r)

pub item_sent-IsSender :
    (env : BridgeEnv) (i : ℕ) (r : Bridge) → IsSender env r → IsSender env (item_sent i r)
item_sent-IsSender env i r k = record {
  port = k.port;
  writes = k.writes;
  wire = k.wire;
  whole = k.whole;
}

pub frames_of-item_stream :
    (env : BridgeEnv) (n i : ℕ) (r : Bridge) (p : Parser)
    → IsSender env r
    → p.state ≡ wait_stx
    → frames_of (item_stream env n i r) p ≡ items_parsed n i r
unfolding item_stream frames_of
frames_of-item_stream env zero i r p k e = refl
frames_of-item_stream env (suc n) i r p k e =
    ap (λ r'. frames_of (latest r'.written ++ item_stream env n (suc i) r') p)
      (send_mission_item_int-sent env i r k)
    ∙ frames_of-item r i (waypoint_at r.upload.pending i)
        (item_stream env n (suc i) (item_sent i r)) p e
    ∙ ap (λ qs. item_parsed r i (waypoint_at r.upload.pending i) ∷ qs)
        (frames_of-item_stream env n (suc i) (item_sent i r) reset_parser
          (item_sent-IsSender env i r k) refl)

pub item_numbers-items_parsed :
    (n i : ℕ) (r : Bridge) → i + n < 65536 → item_numbers (items_parsed n i r) ≡ upward n i
item_numbers-items_parsed zero i r h = refl
item_numbers-items_parsed (suc n) i r h =
    rw
      (
        number-payload r i (waypoint_at r.upload.pending i) (omega arith),
        item_numbers-items_parsed n (suc i) (item_sent i r) (omega arith),
      )
      refl
