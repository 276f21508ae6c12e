-- ===== src/Uplink/Tests/Sessions.antt =====
-- Runs of the state file, of the restart and of the main loop of uplink_app on the test inputs.
use cfs_telemetry_app.Common.{
  ℕ, ◌<◌, ◌≡◌, refl, true, none, some, List, [], ◌∷◌, ◌++◌, All, get_or-All, byte_at, arith,
}
use cfs_telemetry_app.Uplink.Crc.{crc16}
use cfs_telemetry_app.Uplink.State.{UplinkApp, Env}
use cfs_telemetry_app.Uplink.Admission.{seq_duplicate, check_sequence}
use cfs_telemetry_app.Uplink.Persist.{
  state_body, encode_state, save_state, is_state_intact, load_file, load_state,
}
use cfs_telemetry_app.Uplink.Persist.File.{FitsFile, IsRestored, load_state-save_state}
use cfs_telemetry_app.Uplink.Persist.Damage.{load_file_damaged}
use cfs_telemetry_app.Uplink.Process.{process_uplink}
use cfs_telemetry_app.Uplink.Main.{
  CommandMsg, Received, message, time_out, system_health, command, main,
}
use cfs_telemetry_app.Uplink.Main.Reboot.{reboot, IsSaved, replay_after_reboot}
use cfs_telemetry_app.Uplink.Main.SafeMessages.{HasSafeLog}
use cfs_telemetry_app.Uplink.Main.SafeBus.{main-HasSafeLog}
use cfs_telemetry_app.Uplink.Tests.Commands.{route_admitted, route_routed, route_fits}
use cfs_telemetry_app.Uplink.Tests.Data.{
  env_at, session, survivor, file_before, file_after, sizes, route_cmd,
}

survivor_fits : FitsFile survivor
survivor_fits = record {
  sequence = omega arith;
  boots = omega arith;
  mark = omega arith;
  streak = omega arith;
}

load_state-save_state_example :
    IsRestored survivor
      (save_state (env_at 5) survivor)
      (load_state true (save_state (env_at 5) survivor))
load_state-save_state_example =
    load_state-save_state (env_at 5) survivor (save_state (env_at 5) survivor) survivor_fits refl
      refl

file_bytes : (b : ℕ) → b < 256 → All (λ byte. byte < 256) (file_before ++ b ∷ file_after)
file_bytes b h = ground arith

is_bytes : (b : ℕ) → b < 256 → (i : ℕ) → byte_at (file_before ++ b ∷ file_after) i < 256
is_bytes b h i =
    get_or-All (λ byte. byte < 256) (file_before ++ b ∷ file_after) i 0 (file_bytes b h)
      (omega arith)

-- The sequence 8 in place of 7.
load_file_damaged_example : load_file session (some (file_before ++ 8 ∷ file_after)) ≡ session
load_file_damaged_example =
    load_file_damaged file_before file_after 7 8 session (is_bytes 7 (omega arith))
      (is_bytes 8 (omega arith)) (unfold is_state_intact crc16 in refl) (omega arith)

-- The session with its file.
abbrev stored : UplinkApp
stored = save_state (env_at 5) survivor

stored_fits : FitsFile stored
unfolding save_state
stored_fits = record {
  sequence = omega arith;
  boots = omega arith;
  mark = omega arith;
  streak = omega arith;
}

stored_IsSaved : IsSaved stored
unfolding save_state encode_state state_body
stored_IsSaved = refl

replay_after_reboot_example :
    check_sequence (reboot (env_at 1) 2 (process_uplink (env_at 5) route_cmd session)) 7
    ≡ seq_duplicate
replay_after_reboot_example =
    replay_after_reboot (env_at 5) (env_at 1) 2 route_cmd session route_admitted route_routed
      (λ h. omega (arith, h.0)) refl refl (omega arith) route_fits

-- Five restarts in a row, none of which survives.
abbrev short_session : UplinkApp
short_session = record survivor {
  survived_mark = 0;
  state_file = some (encode_state (record survivor { survived_mark = 0 }));
}

short_fits : FitsFile short_session
short_fits = record {
  sequence = omega arith;
  boots = omega arith;
  mark = omega arith;
  streak = omega arith;
}

short_IsSaved : IsSaved short_session
unfolding encode_state state_body
short_IsSaved = refl

abbrev start : Env × ℕ
start = (env_at 1, 2)

-- A function code that is not known.
abbrev unknown_msg : CommandMsg
unknown_msg = record { fcn_code = some 7; size = 8; body = route_cmd }

-- A report of the health, the route and a turn without a message.
abbrev turns : List (Env × Received)
turns =
    (env_at 4, message (system_health 0))
    ∷ (env_at 5, message (command (record { fcn_code = some 2; size = 212; body = route_cmd })))
    ∷ (env_at 6, time_out)
    ∷ []

route_bytes : All (λ byte. byte < 256) route_cmd.payload
route_bytes = ground arith

main-HasSafeLog_example : HasSafeLog (main sizes true true (env_at 1) (env_at 1) 2 none turns)
main-HasSafeLog_example = main-HasSafeLog sizes true true (env_at 1) (env_at 1) 2 none turns (
  tt,
  (
    (λ k. get_or-All (λ byte. byte < 256) route_cmd.payload k 0 route_bytes (omega arith)),
    (tt, tt),
  ),
)
