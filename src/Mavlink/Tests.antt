-- ===== src/Mavlink/Tests.antt =====
-- Inputs on which the theorems about mavlink_bridge_app are run.
use cfs_telemetry_app.Common.{
  ℕ, zero, suc, ◌+◌, ◌≤◌, ◌<◌, ◌≡◌, ◌⊎◌, refl, true, false, List, [], ◌∷◌, ◌++◌, none, some, All,
  length, take, replicate, arith,
}
use cfs_telemetry_app.Common.Executive.{saved}
use cfs_telemetry_app.Common.Time.{get_time_ms}
use cfs_telemetry_app.Uplink.Messages.{Waypoint}
use cfs_telemetry_app.CfsCore.State.{RouteTlm}
use cfs_telemetry_app.CfsCore.Main.{empty_waypoint}
use cfs_telemetry_app.Mavlink.Parser.{
  wait_stx, got_length, Parser, reset_parser, parse_bytes, frames_of, compute_frame_crc,
  received_crc,
}
use cfs_telemetry_app.Mavlink.Parser.Termination.{parse_bytes-boundary}
use cfs_telemetry_app.Mavlink.Frame.{mavlink_frame}
use cfs_telemetry_app.Mavlink.Frame.RoundTrip.{frames_of-sent}
use cfs_telemetry_app.Mavlink.State.{
  StreamParams, transmit_bridge, Bridge, BridgeEnv, upload_idle, upload_active, upload_clearing,
  link_connected,
}
use cfs_telemetry_app.Mavlink.Send.{send_mavlink_v2, send_mission_clear_all, send_mission_count}
use cfs_telemetry_app.Mavlink.Readback.{mission_query}
use cfs_telemetry_app.Mavlink.Upload.{
  Edit, edit_route, delete_waypoint, copy_loop, start_mission_upload, check_mission_upload_timeout,
}
use cfs_telemetry_app.Mavlink.Upload.Edits.{route_of}
use cfs_telemetry_app.Mavlink.Mission.{take_mission_ack}
use cfs_telemetry_app.Mavlink.Items.{IsWireWaypoint}
use cfs_telemetry_app.Mavlink.Items.Stream.{
  IsSender, item_stream, item_numbers, upward, waypoint_at-IsWireWaypoint,
}
use cfs_telemetry_app.Mavlink.Items.Stored.{IsReader}
use cfs_telemetry_app.Mavlink.Items.Restored.{IsPublished, handle_frames, route_read_back}
use cfs_telemetry_app.CfsCore.Config.{ConfigCmd}
use cfs_telemetry_app.Uplink.Payload.{sum_bytes}
use cfs_telemetry_app.Mavlink.Config.{
  process_bridge_config, bridge_config_checksum, change_param, has_low_param, activate_rates,
  save_bridge, publish_bridge_result,
}
use cfs_telemetry_app.Mavlink.Config.Rates.{
  IsRates, HasRates, of_active, process_bridge_config-HasRates,
}
use cfs_telemetry_app.Mavlink.Steps.{
  BridgeEvent, upload_timer, route_update_received, bridge_step, run_bridge, expiries,
}
use cfs_telemetry_app.Mavlink.Steps.Settles.{run_bridge-settles}
use cfs_telemetry_app.Mavlink.Steps.Exclusive.{
  IsExclusive, IsStarted, IsRefused, downloads_nothing, run_bridge-IsExclusive,
  mission_query_overlaps,
}
use cfs_telemetry_app.Mavlink.Steps.Confirmed.{route_confirmed}

-- A place, 10 m above the start.
abbrev place : ℕ → Waypoint
place n = record {
  cmd_type = 16;
  param1 = 0;
  param2 = 0;
  param3 = 0;
  param4 = 0;
  lat_e7 = 475000000 + n;
  lon_e7 = 85000000;
  z = 0x41200000;
}

abbrev places : List Waypoint
places = place 0 ∷ place 1 ∷ place 2 ∷ replicate 34 empty_waypoint

abbrev good_env : BridgeEnv
good_env = record {
  time = record { seconds = 0; subseconds = 0 };
  writes = λ _. true;
  delivers = λ _. true;
  to_degrees = λ _. 0;
  to_depth = λ _. 0;
  to_speed = λ _. 0;
  save_outcome = saved;
}

abbrev rates : StreamParams
rates = record {
  attitude_interval_us = 200000;
  local_position_interval_us = 200000;
  global_position_interval_us = 200000;
  gps_raw_interval_us = 500000;
  ekf_status_interval_us = 500000;
  reconnect_interval_ms = 1000;
  heartbeat_interval_ms = 1000;
}

-- Connected, with a route of three places of which the second is the target.
abbrev flying : Bridge
flying = record {
  cmd_counter = 0;
  err_counter = 0;
  sequence_counter = 0;
  last_rx_timestamp_ms = 0;
  parse_error_count = 0;
  non_finite_value_count = 0;
  bytes_received = 0;
  is_serial_open = true;
  target_system_id = 1;
  target_component_id = 1;
  stream_request_ack_count = 0;
  link_state = link_connected;
  last_error_code = 0;
  is_stream_request_pending = false;
  config = record {
    pending_state = 0;
    last_result = 0;
    generation = 0;
    active = rates;
    pending = rates;
    previous = rates;
  };
  upload = record {
    state = upload_idle;
    retry = 0;
    wp_count = 0;
    timeout_ms = 0;
    success_count = 0;
    fail_count = 0;
    last_timestamp_ms = 0;
    last_wp_count = 0;
    last_result = 0;
    pending = replicate 37 empty_waypoint;
  };
  active = record { waypoints = places; count = 3; resume_index = 1 };
  download = record {
    state = 0;
    seq = 0;
    expected_count = 0;
    timeout_ms = 0;
    waypoints = replicate 37 empty_waypoint;
    is_pending = false;
    backoff_ms = 1000;
    next_retry_ms = 0;
    readback_seq = 0;
  };
  base_mode = 0;
  system_status = 0;
  is_armed = false;
  tx_sequence = 7;
  written = [];
  sent = [];
  state_file = none;
}

-- A route is being sent.
abbrev sending : Bridge
sending = record flying {
  upload = record flying.upload { state = upload_clearing; wp_count = 2; timeout_ms = 300 };
}

abbrev count_payload : List ℕ
count_payload = 3 ∷ 0 ∷ 1 ∷ 1 ∷ 0 ∷ []

frames_of-sent_example :
    (q : Parser) × (frames_of (mavlink_frame 5 44 count_payload 221 ++ (0xfd ∷ [])) reset_parser
      ≡ q ∷ frames_of (0xfd ∷ []) reset_parser)
    × (q.msg_id ≡ 44)
    × (q.seq ≡ 5)
    × (q.payload ≡ count_payload)
    × (compute_frame_crc q 221 ≡ received_crc q)
frames_of-sent_example =
    frames_of-sent 5 44 221 count_payload (0xfd ∷ []) reset_parser refl (omega arith) (omega arith)

place-IsWireWaypoint : (n : ℕ) → n ≤ 2 → IsWireWaypoint (place n)
place-IsWireWaypoint n h = record {
  cmd_type = omega arith;
  param1 = omega arith;
  param2 = omega arith;
  param3 = omega arith;
  param4 = omega arith;
  lat_e7 = omega arith;
  lon_e7 = omega arith;
  z = omega arith;
}

empty-All : (n : ℕ) → All IsWireWaypoint (replicate n empty_waypoint)
empty-All zero = tt
empty-All (suc n) = (waypoint_at-IsWireWaypoint [] 0 tt, empty-All n)

-- One bridge has the three places to send, another one waits for the first of three.
abbrev sender : Bridge
sender = record flying { upload = record flying.upload { pending = places } }

abbrev reader : Bridge
reader = record flying { download = record flying.download { state = 2; expected_count = 3 } }

sender-IsSender : IsSender good_env sender
sender-IsSender = record {
  port = refl;
  writes = λ frame. refl;
  wire = (
    place-IsWireWaypoint 0 (omega arith),
    (place-IsWireWaypoint 1 (omega arith), (place-IsWireWaypoint 2 (omega arith), empty-All 34)),
  );
  whole = refl;
}

reader-IsReader : IsReader 0 3 reader
reader-IsReader = record { state = refl; next = refl; expected = refl; whole = refl }

route_read_back_example :
    let frames = frames_of (item_stream good_env 3 0 sender) reset_parser in
    (item_numbers frames ≡ upward 3 0)
    × IsPublished sender 3 reader (handle_frames good_env 5000 frames reader)
route_read_back_example =
    route_read_back good_env good_env 5000 3 sender reader reset_parser sender-IsSender
      reader-IsReader (omega arith) (omega arith) (λ m. refl) refl

-- Noise after what looks like the start of a frame.
abbrev inside : Parser
inside = record reset_parser { is_v2 = true; state = got_length }

noise_small : (n : ℕ) → All (λ b. b < 256) (replicate n 255)
noise_small zero = tt
noise_small (suc n) = (omega arith, noise_small n)

parse_bytes-boundary_example :
    (m : ℕ) × (m ≤ 266) × ((parse_bytes (take m (replicate 266 255)) inside).state ≡ wait_stx)
parse_bytes-boundary_example =
    parse_bytes-boundary (replicate 266 255) inside (omega arith, refl, refl) (noise_small 266)
      (omega arith)

-- Five checks of the timer, each when its time has come, and no word from the flight controller.
abbrev silence : List (BridgeEnv × BridgeEvent)
silence =
    (good_env, upload_timer 300)
    ∷ (good_env, upload_timer 2300)
    ∷ (good_env, upload_timer 4300)
    ∷ (good_env, upload_timer 6300)
    ∷ (good_env, upload_timer 8300)
    ∷ []

silence-expiries : 5 ≤ expiries silence sending
unfolding expiries bridge_step check_mission_upload_timeout send_mission_count
    send_mission_clear_all send_mavlink_v2
silence-expiries = omega arith

run_bridge-settles_example : (run_bridge silence sending).upload.state ≡ upload_idle
run_bridge-settles_example =
    run_bridge-settles silence sending (omega arith) (tt, (tt, (tt, (tt, (tt, tt)))))
      silence-expiries

-- The removal of the third place.
abbrev removal : RouteTlm
removal = record {
  seq = 1;
  timestamp_ms = 0;
  source_sequence = 9;
  route_type = 3;
  route_version = 1;
  waypoint_count = 2;
  waypoints = replicate 37 empty_waypoint;
}

abbrev removal_run : List (BridgeEnv × BridgeEvent)
removal_run = (good_env, route_update_received removal) ∷ (good_env, upload_timer 300) ∷ []

run_bridge-IsExclusive_example : IsExclusive (run_bridge removal_run flying)
run_bridge-IsExclusive_example =
    run_bridge-IsExclusive removal_run flying (tt, (tt, tt)) (downloads_nothing flying refl)

mission_query_overlaps_example :
    IsStarted true sending (mission_query good_env true sending)
    ⊎ IsRefused true sending (mission_query good_env true sending)
mission_query_overlaps_example = mission_query_overlaps good_env true sending

abbrev accepting : Parser
accepting = record reset_parser { msg_id = 47; payload_len = 2; payload = 1 ∷ 1 ∷ [] }

abbrev removal_edit : Edit
removal_edit = record {
  pending = place 0 ∷ place 1 ∷ replicate 35 empty_waypoint;
  count = 2;
  resume_index = 1;
}

removal-edit : edit_route removal flying.active flying.upload.pending ≡ some removal_edit
unfolding edit_route delete_waypoint copy_loop
removal-edit = refl

abbrev announced : List (BridgeEnv × BridgeEvent)
announced = (good_env, upload_timer 300) ∷ []

announced-active :
    (run_bridge announced (start_mission_upload good_env removal flying)).upload.state
    ≡ upload_active
unfolding run_bridge bridge_step start_mission_upload edit_route delete_waypoint
    check_mission_upload_timeout send_mission_count send_mission_clear_all send_mavlink_v2
    get_time_ms
announced-active = refl

announced-array :
    length (run_bridge announced (start_mission_upload good_env removal flying)).active.waypoints
    ≡ 37
unfolding run_bridge bridge_step start_mission_upload edit_route delete_waypoint
    check_mission_upload_timeout send_mission_count send_mission_clear_all send_mavlink_v2
    get_time_ms
announced-array = refl

route_confirmed_example :
    route_of
      (take_mission_ack good_env 900 accepting
        (run_bridge announced (start_mission_upload good_env removal flying))).active
    ≡ place 0 ∷ place 1 ∷ []
route_confirmed_example =
    route_confirmed good_env good_env removal flying announced 900 accepting removal_edit refl refl
      (refl, omega arith) refl refl removal-edit (tt, tt) announced-active announced-array refl

rates-IsRates : IsRates rates
rates-IsRates = record {
  attitude = (omega arith, omega arith);
  local = (omega arith, omega arith);
  global = (omega arith, omega arith);
  gps = (omega arith, omega arith);
  ekf = (omega arith, omega arith);
  reconnect = (omega arith, omega arith);
  heartbeat = (omega arith, omega arith);
}

-- The attitude twice a second.
abbrev slower : ConfigCmd
slower = record {
  source_sequence = 3;
  payload_length = 12;
  payload = 2 ∷ 1 ∷ 0 ∷ 0 ∷ 4 ∷ 4 ∷ 0xd3 ∷ 0 ∷ 0x20 ∷ 0xa1 ∷ 7 ∷ 0 ∷ [];
}

process_bridge_config-HasRates_example : HasRates (process_bridge_config good_env slower flying)
process_bridge_config-HasRates_example =
    process_bridge_config-HasRates good_env slower flying (of_active flying rates-IsRates)

-- That command is accepted.
slower-active :
    (process_bridge_config good_env slower flying).config.active.attitude_interval_us ≡ 500000
unfolding process_bridge_config bridge_config_checksum change_param has_low_param activate_rates
    save_bridge publish_bridge_result transmit_bridge sum_bytes
slower-active = refl
