-- ===== src/Uplink/Tests/Payloads.antt =====
-- Runs of the parsers and of the checksum of uplink_app on the test inputs.
use cfs_telemetry_app.Common.{◌≤◌, ◌<◌, ◌≡◌, ◌≢◌, inl, refl, some, [], ◌∷◌, length, All, arith}
use cfs_telemetry_app.Uplink.Crc.{crc16}
use cfs_telemetry_app.Uplink.Crc.Detect.{crc16_detects}
use cfs_telemetry_app.Uplink.Payload.{
  parse_route_update_payload, parse_waypoints, is_waypoint_finite, is_waypoint_altitude_valid,
  parse_waypoint_wire, read_float_le, route_header, parse_viewpoint_payload, is_outside,
  copy_viewpoint,
}
use cfs_telemetry_app.Uplink.Payload.Route.{
  IsRouteAccepted, IsFlyable, parse_route_update_payload-IsRouteAccepted, accepted_route_count,
}
use cfs_telemetry_app.Uplink.Payload.RoundTrip.{parse_route_update_payload-encode_route}
use cfs_telemetry_app.Uplink.Messages.{ViewpointPayload}
use cfs_telemetry_app.Uplink.Tests.Commands.{route_admitted}
use cfs_telemetry_app.Uplink.Tests.Data.{waypoint, route_cmd, route_payload, viewpoint_command}

crc16_detects_example : crc16 (1 ∷ 2 ∷ 3 ∷ []) ≢ crc16 (1 ∷ 130 ∷ 3 ∷ [])
crc16_detects_example =
    crc16_detects (1 ∷ []) (3 ∷ []) 2 130 (omega arith) (omega arith) (omega arith)

route_parses : parse_route_update_payload route_cmd ≡ some route_payload
unfolding parse_route_update_payload route_header parse_waypoints is_waypoint_finite
    is_waypoint_altitude_valid parse_waypoint_wire read_float_le
route_parses = refl

parse_route_update_payload-IsRouteAccepted_example : IsRouteAccepted route_cmd route_payload
parse_route_update_payload-IsRouteAccepted_example =
    parse_route_update_payload-IsRouteAccepted route_cmd route_payload route_parses

accepted_route_count_example : length route_payload.waypoints ≤ 6
accepted_route_count_example =
    accepted_route_count route_cmd route_payload route_parses route_admitted.1

waypoint-IsFlyable : IsFlyable waypoint
waypoint-IsFlyable =
    (omega arith, omega arith, omega arith, omega arith, (omega arith, omega arith))

parse_route_update_payload-encode_route_example :
    parse_route_update_payload route_cmd ≡ some route_payload
parse_route_update_payload-encode_route_example =
    parse_route_update_payload-encode_route route_cmd 1 (waypoint ∷ []) [] (inl refl) (omega arith)
      (omega arith)
      (
        (omega arith, omega arith, omega arith, omega arith, omega arith, omega arith, omega arith),
        tt,
      )
      (waypoint-IsFlyable, tt) refl refl

abbrev viewpoint : ViewpointPayload
viewpoint = record {
  viewpoint_type = 0;
  viewpoint_version = 1;
  position_frame = 0;
  x = 0x41200000;
  y = 0xc1200000;
  z = 0x40a00000;
  yaw = 0;
  pitch = 0;
  hold_time_ms = 5000;
}

viewpoint_parses : parse_viewpoint_payload viewpoint_command ≡ some viewpoint
unfolding parse_viewpoint_payload is_outside copy_viewpoint read_float_le
viewpoint_parses = refl

viewpoint_bytes : All (λ byte. byte < 256) viewpoint_command.payload
viewpoint_bytes = ground arith
