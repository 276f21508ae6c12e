-- ===== src/Uplink/Payload/Limits.antt =====
-- The viewpoint and flight mode parsers of uplink_app, and the check of a configuration.
use cfs_telemetry_app.Common.{
  ℕ, ◌+◌, ◌%◌, ◌≤◌, ◌<◌, ◌≡◌, ◌≢◌, ◌⊎◌, ◌↔◌, false, none, some, List, byte_at, Float32, arith,
}
use cfs_telemetry_app.Uplink.Messages.{ProcessUplinkCmd, ViewpointPayload}
use cfs_telemetry_app.Uplink.Payload.Route.{IsAltitude}
use cfs_telemetry_app.Uplink.Payload.{
  read_float_le, is_outside, copy_viewpoint, parse_viewpoint_payload, parse_flight_mode_payload,
}

-- A number from -m to m, as a pattern: the sign bit apart, it is at most the pattern of m.
abbrev pub IsWithin : Float32 → Float32 → Type 0
IsWithin m w = w % 2147483648 ≤ m

symmetric_bound :
    (m w : Float32)
    → m < 2139095040
    → w < 4294967296
    → is_outside (m + 2147483648) m w ≡ false
    → IsWithin m w
unfolding is_outside
symmetric_bound m w h f o = ground arith

IsAltitude-bound : (w : Float32) → is_outside 0x40000000 0x41000000 w ≡ false → IsAltitude w
unfolding is_outside
IsAltitude-bound w o = ground arith

-- The tests that a parsed viewpoint has passed.
record PassesTests (cmd : ProcessUplinkCmd) (v : ViewpointPayload) : Type 0 where
  size : cmd.payload_length ≡ 28
  version : v.viewpoint_version ≡ 1
  kind : v.viewpoint_type ≤ 2
  frame : v.position_frame ≡ 0
  x : is_outside 0xc2480000 0x42480000 v.x ≡ false
  y : is_outside 0xc2480000 0x42480000 v.y ≡ false
  z : is_outside 0x40000000 0x41000000 v.z ≡ false
  yaw : is_outside 0xc0490fdb 0x40490fdb v.yaw ≡ false
  pitch : is_outside 0xbfc90fdb 0x3fc90fdb v.pitch ≡ false
  hold : v.hold_time_ms ≤ 30000
  copied : v ≡ copy_viewpoint cmd.payload

parse_viewpoint_payload-PassesTests :
    (cmd : ProcessUplinkCmd) (v : ViewpointPayload)
    → parse_viewpoint_payload cmd ≡ some v
    → PassesTests cmd v
unfolding parse_viewpoint_payload
parse_viewpoint_payload-PassesTests cmd v h = ground arith

word-lt :
    (payload : List ℕ) (i : ℕ)
    → ((k : ℕ) → byte_at payload k < 256)
    → read_float_le payload i < 4294967296
unfolding read_float_le
word-lt payload i b = omega (arith, b i, b (i + 1), b (i + 2), b (i + 3))

-- The fields of a viewpoint that may be sent on: the position within 50 metres, the altitude from
-- 2 to 8 metres, the yaw within pi and the pitch within half of it, as their single-precision
-- patterns give them.
pub record IsViewpointAccepted (cmd : ProcessUplinkCmd) (v : ViewpointPayload) : Type 0 where
  pub size : cmd.payload_length ≡ 28
  pub version : v.viewpoint_version ≡ 1
  pub kind : v.viewpoint_type ≤ 2
  pub frame : v.position_frame ≡ 0
  pub x : IsWithin 0x42480000 v.x
  pub y : IsWithin 0x42480000 v.y
  pub z : IsAltitude v.z
  pub yaw : IsWithin 0x40490fdb v.yaw
  pub pitch : IsWithin 0x3fc90fdb v.pitch
  pub hold : v.hold_time_ms ≤ 30000

-- A viewpoint that the parser accepts has 28 bytes, version 1, a known type, the only frame, and
-- numbers in their ranges. The payload holds bytes.
pub parse_viewpoint_payload-IsViewpointAccepted :
    (cmd : ProcessUplinkCmd) (v : ViewpointPayload)
    → ((k : ℕ) → byte_at cmd.payload k < 256)
    → parse_viewpoint_payload cmd ≡ some v
    → IsViewpointAccepted cmd v
unfolding copy_viewpoint
parse_viewpoint_payload-IsViewpointAccepted cmd v b h =
    let t = parse_viewpoint_payload-PassesTests cmd v h in
    record {
      size = t.size;
      version = t.version;
      kind = t.kind;
      frame = t.frame;
      x = symmetric_bound 0x42480000 v.x (omega arith) (rw t.copied (word-lt cmd.payload 4 b)) t.x;
      y = symmetric_bound 0x42480000 v.y (omega arith) (rw t.copied (word-lt cmd.payload 8 b)) t.y;
      z = IsAltitude-bound v.z t.z;
      yaw =
          symmetric_bound 0x40490fdb v.yaw (omega arith) (rw t.copied (word-lt cmd.payload 16 b))
            t.yaw;
      pitch =
          symmetric_bound 0x3fc90fdb v.pitch (omega arith) (rw t.copied (word-lt cmd.payload 20 b))
            t.pitch;
      hold = t.hold;
    }

-- A flight mode payload is accepted exactly if it has 6 bytes or more, its mode is HOVER, WAYPOINT
-- or LAND, and it gives a start index other than 0 only for WAYPOINT.
pub parse_flight_mode_payload_iff :
    (cmd : ProcessUplinkCmd)
    → (parse_flight_mode_payload cmd ≢ none) ↔ (
        (6 ≤ cmd.payload_length)
        × (byte_at cmd.payload 0 ≤ 2)
        × ((byte_at cmd.payload 0 ≡ 1) ⊎ (byte_at cmd.payload 1 ≡ 0)))
unfolding parse_flight_mode_payload
parse_flight_mode_payload_iff cmd = ground arith
