-- ===== src/CfsCore/Tests/Data.antt =====
-- Inputs for the runs of cfs_core_app.
use cfs_telemetry_app.Common.{ℕ, true, [], ◌∷◌, none}
use cfs_telemetry_app.Common.Executive.{saved}
use cfs_telemetry_app.CfsCore.State.{StateCache, AppHkCache, RouteTlm, CoreApp, CoreEnv}
use cfs_telemetry_app.CfsCore.Config.{ConfigCmd}
use cfs_telemetry_app.CfsCore.Restarts.Spacing.{Cycle}
use cfs_telemetry_app.CfsCore.Main.{core_initial, empty_waypoint}

-- A world at 20 seconds in which all calls succeed.
abbrev pub world : CoreEnv
world = record {
  time = record { seconds = 20; subseconds = 0 };
  delivers = λ m. true;
  sets_fcn_code = true;
  finds = λ app. true;
  restart_save_outcome = saved;
  save_outcome = saved;
}

-- GPS timeout to 4000 ms: 1 + 1 + 2 + 4 + (0xa0 + 0x0f) is the checksum 183.
abbrev pub set_gps_timeout : ConfigCmd
set_gps_timeout = record {
  source_sequence = 7;
  payload_length = 12;
  payload = 1 ∷ 1 ∷ 2 ∷ 0 ∷ 0 ∷ 4 ∷ 183 ∷ 0 ∷ 160 ∷ 15 ∷ 0 ∷ 0 ∷ [];
}

abbrev pub fresh_cache : StateCache
fresh_cache = record {
  timestamp_ms = 19000;
  arrival_ms = 19500;
  seq = 40;
  valid = 1;
  stale = 0;
  error_code = 0;
  received = true;
}

abbrev pub alive : AppHkCache
alive = record { last_hk_rx_ms = 18000; received = true }

-- All inputs are recent at 20 seconds.
abbrev pub informed : CoreApp
informed = record (core_initial none) {
  attitude_state = fresh_cache;
  local_state = fresh_cache;
  gps_state = fresh_cache;
  ekf_state = fresh_cache;
  bridge_state = record {
    link_state = 1;
    last_error_code = 0;
    last_rx_timestamp_ms = 19900;
    received = true;
  };
  uplink_app_state = alive;
  lora_app_state = alive;
}

abbrev pub replacement : RouteTlm
replacement = record {
  seq = 1;
  timestamp_ms = 15000;
  source_sequence = 9;
  route_type = 1;
  route_version = 2;
  waypoint_count = 1;
  waypoints = record empty_waypoint { cmd_type = 16 } ∷ [];
}

-- A cycle in which all three applications are timed out.
abbrev pub all_out : ℕ → Cycle
all_out now = record {
  now = now;
  bridge_out = true;
  uplink_out = true;
  lora_out = true;
  finds = λ app. true;
}
