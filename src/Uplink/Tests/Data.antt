-- ===== src/Uplink/Tests/Data.antt =====
-- The inputs of the tests: the executive's answers, a session and the commands of the ground.
use cfs_telemetry_app.Common.{ℕ, true, none, List, [], ◌∷◌}
use cfs_telemetry_app.Uplink.Messages.{ProcessUplinkCmd, Waypoint, RouteUpdatePayload}
use cfs_telemetry_app.Uplink.State.{UplinkApp, Env}
use cfs_telemetry_app.Common.Executive.{saved}
use cfs_telemetry_app.Uplink.Main.{CommandSizes, initial}

abbrev pub env_at : ℕ → Env
env_at seconds = record {
  rx_time = record { seconds = seconds; subseconds = 0 };
  tlm_time = record { seconds = seconds; subseconds = 0 };
  delivers = λ _. true;
  sets_fcn_code = true;
  save_outcome = saved;
}

-- A session without a state file, to which the core application has reported its health.
abbrev pub session : UplinkApp
session = record (initial none) { cfs_health_received = true }

-- The same without that report.
abbrev pub deaf_session : UplinkApp
deaf_session = initial none

abbrev pub sizes : CommandSizes
sizes = record { header_only = 8; process_uplink_cmd = 212 }

-- A waypoint at an altitude of 3 metres, and its 29 bytes.
abbrev pub waypoint : Waypoint
waypoint = record {
  cmd_type = 16;
  param1 = 0;
  param2 = 0x3f800000;
  param3 = 0;
  param4 = 0;
  lat_e7 = 375665350;
  lon_e7 = 1269779690;
  z = 0x40400000;
}

abbrev pub waypoint_bytes : List ℕ
waypoint_bytes =
    16 ∷ 0 ∷ 0 ∷ 0 ∷ 0 ∷ 0 ∷ 0 ∷ 128 ∷ 63 ∷ 0 ∷ 0 ∷ 0 ∷ 0 ∷ 0 ∷ 0 ∷ 0 ∷ 0 ∷ 198 ∷ 50 ∷ 100 ∷ 22
    ∷ 234 ∷ 76 ∷ 175 ∷ 75 ∷ 0 ∷ 0 ∷ 64 ∷ 64 ∷ []

-- A replacement of the route by one waypoint.
abbrev pub route_cmd : ProcessUplinkCmd
route_cmd = record {
  version = 1;
  command_class = 2;
  payload_length = 33;
  flags = 0xc0;
  sequence = 7;
  checksum = 11804;
  payload = 1 ∷ 2 ∷ 1 ∷ 0 ∷ waypoint_bytes;
}

abbrev pub route_payload : RouteUpdatePayload
route_payload = record {
  route_type = 1;
  route_version = 2;
  waypoint_count = 1;
  reserved = 0;
  waypoints = waypoint ∷ [];
}

-- A viewpoint at (10, -10, 5) metres for 5 seconds.
abbrev pub viewpoint_command : ProcessUplinkCmd
viewpoint_command = record {
  version = 1;
  command_class = 3;
  payload_length = 28;
  flags = 0xc0;
  sequence = 8;
  checksum = 7327;
  payload =
      0 ∷ 1 ∷ 0 ∷ 0 ∷ 0 ∷ 0 ∷ 32 ∷ 65 ∷ 0 ∷ 0 ∷ 32 ∷ 193 ∷ 0 ∷ 0 ∷ 160 ∷ 64 ∷ 0 ∷ 0 ∷ 0 ∷ 0 ∷ 0 ∷ 0
      ∷ 0 ∷ 0 ∷ 136 ∷ 19 ∷ 0 ∷ 0 ∷ [];
}

-- A reset of the counters of uplink_app itself.
abbrev pub own_reset_cmd : ProcessUplinkCmd
own_reset_cmd = record {
  version = 1;
  command_class = 7;
  payload_length = 6;
  flags = 0xc0;
  sequence = 9;
  checksum = 61440;
  payload = 3 ∷ 0 ∷ 68 ∷ 51 ∷ 34 ∷ 17 ∷ [];
}

-- The flight mode WAYPOINT from the waypoint 2 on.
abbrev pub waypoint_mode_cmd : ProcessUplinkCmd
waypoint_mode_cmd = record {
  version = 1;
  command_class = 8;
  payload_length = 6;
  flags = 0xc0;
  sequence = 10;
  checksum = 31877;
  payload = 1 ∷ 2 ∷ 68 ∷ 51 ∷ 34 ∷ 17 ∷ [];
}

-- A session that has accepted the sequence 7 in its third boot and has survived.
abbrev pub survivor : UplinkApp
survivor = record session {
  accepted_count = 1;
  last_accepted_sequence = 7;
  boot_count = 3;
  survived_mark = 1;
}

-- The state file of that session: its first four bytes, the low byte 7 of the sequence, the rest.
abbrev pub file_before : List ℕ
file_before = 75 ∷ 76 ∷ 80 ∷ 85 ∷ []

abbrev pub file_after : List ℕ
file_after = 0 ∷ 0 ∷ 0 ∷ 3 ∷ 0 ∷ 0 ∷ 0 ∷ 0 ∷ 1 ∷ 0 ∷ 0 ∷ 248 ∷ 159 ∷ 0 ∷ 0 ∷ []
