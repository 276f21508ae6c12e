-- ===== src/Uplink/Payload/RoundTrip.antt =====
-- The parsers of uplink_app against the wire format: what the ground encodes comes back.
use cfs_telemetry_app.Common.{
  ℕ, ◌+◌, ◌*◌, ◌≤◌, ◌<◌, ◌≡◌, ◌⊎◌, refl, true, some, List, [], ◌∷◌, ◌++◌, length, All, bytes32,
  arith,
}
use mathlib.Core.List.{append_assoc}
use cfs_telemetry_app.Uplink.Messages.{ProcessUplinkCmd, Waypoint, route_op_replace, route_op_add}
use cfs_telemetry_app.Uplink.Payload.{
  is_waypoint_finite, is_waypoint_altitude_valid, parse_waypoint_wire, parse_waypoints,
  route_header, parse_route_update_payload,
}
use cfs_telemetry_app.Uplink.Payload.Route.{IsFlyable}

-- The 29 bytes of a waypoint on the wire.
abbrev pub encode_waypoint : Waypoint → List ℕ
encode_waypoint w =
    w.cmd_type
    ∷ (bytes32 w.param1
        ++ (bytes32 w.param2
            ++ (bytes32 w.param3
                ++ (bytes32 w.param4 ++ (bytes32 w.lat_e7 ++ (bytes32 w.lon_e7 ++ bytes32 w.z))))))

abbrev pub encode_waypoints : List Waypoint → List ℕ
encode_waypoints [] = []
encode_waypoints (w ∷ ws) = encode_waypoint w ++ encode_waypoints ws

-- The words of the waypoint fit 32 bits.
abbrev pub FitsWire : Waypoint → Type 0
FitsWire w =
    (w.param1 < 4294967296)
    × (w.param2 < 4294967296)
    × (w.param3 < 4294967296)
    × (w.param4 < 4294967296)
    × (w.lat_e7 < 4294967296)
    × (w.lon_e7 < 4294967296)
    × (w.z < 4294967296)

parse_waypoint_wire-encode :
    (w : Waypoint) (rest : List ℕ)
    → FitsWire w
    → parse_waypoint_wire (encode_waypoint w ++ rest) ≡ w
unfolding parse_waypoint_wire
parse_waypoint_wire-encode w rest f = ground arith

IsFlyable-tests :
    (w : Waypoint)
    → IsFlyable w
    → (is_waypoint_finite w ≡ true) × (is_waypoint_altitude_valid w ≡ true)
unfolding is_waypoint_finite is_waypoint_altitude_valid
IsFlyable-tests w f = ground arith

parse_waypoints-encode :
    (ws : List Waypoint) (rest : List ℕ)
    → All FitsWire ws
    → All IsFlyable ws
    → parse_waypoints (length ws) (encode_waypoints ws ++ rest) ≡ some ws
unfolding parse_waypoints
parse_waypoints-encode [] rest f g = refl
parse_waypoints-encode (w ∷ ws) rest f g =
    rw
      (
        append_assoc,
        parse_waypoint_wire-encode w (encode_waypoints ws ++ rest) f.0,
        (IsFlyable-tests w g.0).0,
        (IsFlyable-tests w g.0).1,
        parse_waypoints-encode ws rest f.1 g.1,
      )
      refl

-- The payload of a replacement or an addition, as the ground sends it.
abbrev pub encode_route : ℕ → List Waypoint → List ℕ
encode_route op ws = op ∷ 2 ∷ length ws ∷ 0 ∷ encode_waypoints ws

-- Encoding a replacement or an addition of 1 to 6 waypoints, as many as the payload
-- of 196 bytes holds, with words that fit the wire, finite
-- numbers and altitudes from 2 to 8 metres, and parsing it gives the waypoints back, whatever
-- bytes follow in the buffer.
pub parse_route_update_payload-encode_route :
    (cmd : ProcessUplinkCmd) (op : ℕ) (ws : List Waypoint) (rest : List ℕ)
    → (op ≡ route_op_replace) ⊎ (op ≡ route_op_add)
    → 1 ≤ length ws
    → length ws ≤ 6
    → All FitsWire ws
    → All IsFlyable ws
    → cmd.payload ≡ encode_route op ws ++ rest
    → cmd.payload_length ≡ 4 + length ws * 29
    → parse_route_update_payload cmd
      ≡ some (record {
        route_type = op;
        route_version = 2;
        waypoint_count = length ws;
        reserved = 0;
        waypoints = ws;
      })
unfolding parse_route_update_payload route_header
parse_route_update_payload-encode_route cmd op ws rest o lo hi f g p n =
    rw (p, n, parse_waypoints-encode ws rest f g) (ground arith)
