-- ===== src/Uplink/Payload.antt =====
-- The parsers of command payloads, uplink_app/fsw/src/uplink_app_utils.c.
pub mod Route
pub mod RoundTrip
pub mod Limits
use cfs_telemetry_app.Common.{
  ℕ, zero, suc, ◌+◌, ◌*◌, Bool, not, ◌&&◌, ◌||◌, Option, none, some, List, [], ◌∷◌, drop, ltb, leb,
  ◌==◌, if◌then◌else◌, u16, byte_at, le32, is_finite, float_le, float_lt, Float32,
}
use cfs_telemetry_app.Uplink.Messages.{
  ProcessUplinkCmd, Waypoint, RouteUpdatePayload, ViewpointPayload, FlightModePayload,
  route_op_replace, route_op_add, route_op_delete, route_op_modify, route_version_2,
  route_max_waypoints, flight_mode_waypoint, flight_mode_land,
}

-- ROUTE_WAYPOINT_WIRE_SIZE
abbrev pub waypoint_wire_size : ℕ
waypoint_wire_size = 29

-- The bounds of the altitude, 2.0f and 8.0f.
abbrev pub altitude_min : Float32
altitude_min = 0x40000000

abbrev pub altitude_max : Float32
altitude_max = 0x41000000

unfoldable pub is_waypoint_finite : Waypoint → Bool
is_waypoint_finite w =
    is_finite w.param1
    && is_finite w.param2
    && is_finite w.param3
    && is_finite w.param4
    && is_finite w.z

unfoldable pub is_waypoint_altitude_valid : Waypoint → Bool
is_waypoint_altitude_valid w = float_le altitude_min w.z && float_le w.z altitude_max

-- The word at an offset; a float is its bit pattern.
unfoldable pub read_u32_le : List ℕ → ℕ → ℕ
read_u32_le buf i =
    le32 (byte_at buf i) (byte_at buf (i + 1)) (byte_at buf (i + 2)) (byte_at buf (i + 3))

unfoldable pub read_float_le : List ℕ → ℕ → Float32
unfolding read_u32_le
read_float_le buf i = read_u32_le buf i

unfoldable pub parse_waypoint_wire : List ℕ → Waypoint
unfolding read_u32_le read_float_le
parse_waypoint_wire raw = record {
  cmd_type = byte_at raw 0;
  param1 = read_float_le raw 1;
  param2 = read_float_le raw 5;
  param3 = read_float_le raw 9;
  param4 = read_float_le raw 13;
  lat_e7 = read_u32_le raw 17;
  lon_e7 = read_u32_le raw 21;
  z = read_float_le raw 25;
}

abbrev with_first : Waypoint → Option (List Waypoint) → Option (List Waypoint)
with_first w none = none
with_first w (some ws) = some (w ∷ ws)

-- The loop over the waypoints, with the rounds left and the rest of the payload. `none` is the
-- early return of false.
unfoldable pub parse_waypoints : ℕ → List ℕ → Option (List Waypoint)
parse_waypoints zero raw = some []
parse_waypoints (suc n) raw =
    let w = parse_waypoint_wire raw in
    let rest = parse_waypoints n (drop waypoint_wire_size raw) in
    if not (is_waypoint_finite w)
    then none
    else if not (is_waypoint_altitude_valid w)
    then none
    else with_first w rest

abbrev with_waypoints : RouteUpdatePayload → Option (List Waypoint) → Option RouteUpdatePayload
with_waypoints p none = none
with_waypoints p (some ws) = some (record p { waypoints = ws })

-- The four bytes before the waypoints.
unfoldable pub route_header : List ℕ → RouteUpdatePayload
route_header payload = record {
  route_type = byte_at payload 0;
  route_version = byte_at payload 1;
  waypoint_count = byte_at payload 2;
  reserved = byte_at payload 3;
  waypoints = [];
}

-- The payload that the code fills in, or `none` where it returns false.
unfoldable pub parse_route_update_payload : ProcessUplinkCmd → Option RouteUpdatePayload
parse_route_update_payload cmd =
    let p = route_header cmd.payload in
    if ltb cmd.payload_length 4
    then none
    else if not (p.route_version == route_version_2)
    then none
    else if not (p.route_type == route_op_replace)
        && not (p.route_type == route_op_add)
        && not (p.route_type == route_op_delete)
        && not (p.route_type == route_op_modify)
    then none
    else if p.route_type == route_op_delete
    then if leb route_max_waypoints p.waypoint_count
      then none
      else if not (cmd.payload_length == 4)
      then none
      else some p
    else if p.route_type == route_op_modify
    then if leb route_max_waypoints p.waypoint_count
      then none
      else if not (cmd.payload_length == 4 + waypoint_wire_size)
      then none
      else with_waypoints p (parse_waypoints 1 (drop 4 cmd.payload))
    else if p.waypoint_count == 0 || ltb route_max_waypoints p.waypoint_count
    then none
    else if not (cmd.payload_length == 4 + p.waypoint_count * waypoint_wire_size)
    then none
    else with_waypoints p (parse_waypoints p.waypoint_count (drop 4 cmd.payload))

unfoldable pub parse_flight_mode_payload : ProcessUplinkCmd → Option FlightModePayload
parse_flight_mode_payload cmd =
    if ltb cmd.payload_length 6
    then none
    else if ltb flight_mode_land (byte_at cmd.payload 0)
    then none
    else if not (byte_at cmd.payload 0 == flight_mode_waypoint) && not (byte_at cmd.payload 1 == 0)
    then none
    else some (record {
      flight_mode = byte_at cmd.payload 0;
      waypoint_start_index = byte_at cmd.payload 1;
      request_token =
          le32 (byte_at cmd.payload 2) (byte_at cmd.payload 3) (byte_at cmd.payload 4)
            (byte_at cmd.payload 5);
    })

-- `!isfinite(v) || v < lo || v > hi` of the viewpoint's checks.
unfoldable pub is_outside : Float32 → Float32 → Float32 → Bool
is_outside lo hi v = not (is_finite v) || float_lt v lo || float_lt hi v

-- The structure has 28 bytes and no padding, so the copy reads each field at its offset.
unfoldable pub copy_viewpoint : List ℕ → ViewpointPayload
unfolding read_u32_le read_float_le
copy_viewpoint raw = record {
  viewpoint_type = byte_at raw 0;
  viewpoint_version = byte_at raw 1;
  position_frame = byte_at raw 2;
  x = read_float_le raw 4;
  y = read_float_le raw 8;
  z = read_float_le raw 12;
  yaw = read_float_le raw 16;
  pitch = read_float_le raw 20;
  hold_time_ms = read_u32_le raw 24;
}

-- The bounds are 50.0f, 2.0f and 8.0f, 3.14159265f and 1.57079632f, with their negatives.
unfoldable pub parse_viewpoint_payload : ProcessUplinkCmd → Option ViewpointPayload
parse_viewpoint_payload cmd =
    let v = copy_viewpoint cmd.payload in
    if not (cmd.payload_length == 28)
    then none
    else if not (v.viewpoint_version == 1)
    then none
    else if ltb 2 v.viewpoint_type
    then none
    else if ltb 0 v.position_frame
    then none
    else if is_outside 0xc2480000 0x42480000 v.x
    then none
    else if is_outside 0xc2480000 0x42480000 v.y
    then none
    else if is_outside 0x40000000 0x41000000 v.z
    then none
    else if is_outside 0xc0490fdb 0x40490fdb v.yaw
    then none
    else if is_outside 0xbfc90fdb 0x3fc90fdb v.pitch
    then none
    else if ltb 30000 v.hold_time_ms
    then none
    else some v

-- The sum of UPLINK_APP_ConfigChecksum over the value's bytes, from a running sum.
unfoldable pub sum_bytes : ℕ → List ℕ → ℕ → ℕ
sum_bytes zero bytes sum = sum
sum_bytes (suc n) [] sum = sum_bytes n [] sum
sum_bytes (suc n) (b ∷ bytes) sum = sum_bytes n bytes (u16 (sum + b))

-- UPLINK_APP_ConfigPayloadHdr_t, eight bytes, is read where it stands in the payload.
unfoldable pub config_checksum : List ℕ → ℕ
unfolding sum_bytes
config_checksum payload = sum_bytes (byte_at payload 5) (drop 8 payload) (
    u16 (
      byte_at payload 0
      + byte_at payload 1
      + byte_at payload 2
      + byte_at payload 3
      + byte_at payload 4
      + byte_at payload 5))
