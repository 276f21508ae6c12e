-- ===== src/CfsCore/Main/Readback.antt =====
-- The answer of cfs_core_app to a request for the route.
use cfs_telemetry_app.Common.{
  ℕ, ◌≡◌, refl, ap, ◌∙◌, Bool, true, false, List, ◌∷◌, Option, none, some, if_cases, u32, take,
  replicate,
}
use cfs_telemetry_app.CfsCore.State.{RouteTlm, route_snapshot, CoreApp, CoreEnv, transmit_core}
use cfs_telemetry_app.CfsCore.Commands.{DiagnosticCmd, snapshot_of, process_diagnostic_command}
use cfs_telemetry_app.CfsCore.Persist.{load_core, load_core_file, restore_core, is_core_intact}
use cfs_telemetry_app.CfsCore.Main.{
  CoreReceived, core_initial, core_init, core_main, empty_waypoint,
}
use cfs_telemetry_app.CfsCore.Main.Route.{
  RouteStore, store_after, shown, show_store, Shows, run_loop-Shows,
}

abbrev empty_store : RouteStore
empty_store = record { last = none; updates = 0 }

load_core_file-Shows :
    (file : Option (List ℕ)) (st : RouteStore) (s : CoreApp)
    → Shows st s
    → Shows st (load_core_file s file)
unfolding load_core_file restore_core
load_core_file-Shows none st s k = k
load_core_file-Shows (some bytes) st s k =
    if_cases (Shows st) (is_core_intact (take 52 bytes)) (restore_core (take 52 bytes) s) s (λ _. k)
      (λ _. k)

load_core-Shows :
    (opens : Bool) (st : RouteStore) (s : CoreApp) → Shows st s → Shows st (load_core opens s)
unfolding load_core
load_core-Shows false st s k = k
load_core-Shows true st s k = load_core_file-Shows s.state_file st s k

core_initial-Shows : (file : Option (List ℕ)) → Shows empty_store (core_initial file)
unfolding core_initial
core_initial-Shows file = (refl, refl)

core_init-Shows :
    (opens : Bool) (file : Option (List ℕ)) → Shows empty_store (core_init true opens file).0
unfolding core_init
core_init-Shows opens file =
    load_core-Shows opens empty_store (core_initial file) (core_initial-Shows file)

core_main-mission_route :
    (opens : Bool) (file : Option (List ℕ)) (turns : List (CoreEnv × CoreReceived))
    → (core_main true opens file turns).mission_route ≡ show_store (store_after turns empty_store)
unfolding core_main core_init
core_main-mission_route opens file turns =
    run_loop-Shows turns empty_store _ (core_init-Shows opens file)

-- The answer of a store to a request: the last list, with the number of lists as its sequence.
abbrev pub readback : DiagnosticCmd → Option RouteTlm → ℕ → RouteTlm
readback request none updates = record {
  seq = u32 updates;
  timestamp_ms = 0;
  source_sequence = request.source_sequence;
  route_type = 0;
  route_version = 0;
  waypoint_count = 0;
  waypoints = replicate 37 empty_waypoint;
}
readback request (some msg) updates = record {
  seq = u32 updates;
  timestamp_ms = msg.timestamp_ms;
  source_sequence = request.source_sequence;
  route_type = 0;
  route_version = msg.route_version;
  waypoint_count = msg.waypoint_count;
  waypoints = msg.waypoints;
}

snapshot_of-shown :
    (request : DiagnosticCmd) (last : Option RouteTlm) (n : ℕ)
    → snapshot_of request (shown last n) ≡ readback request last n
snapshot_of-shown request none n = refl
snapshot_of-shown request (some msg) n = refl

process_diagnostic_command-sent :
    (env : CoreEnv) (request : DiagnosticCmd) (s : CoreApp) (r : RouteTlm)
    → request.diag_target ≡ 1
    → request.diag_action ≡ 3
    → snapshot_of request s.mission_route ≡ r
    → env.delivers (route_snapshot r) ≡ true
    → (process_diagnostic_command env request s).sent ≡ route_snapshot r ∷ s.sent
unfolding process_diagnostic_command transmit_core
process_diagnostic_command-sent env request s r t a e d = rw (t, a, e, d) refl

-- After any session that was initialized, whatever it received, a request for the route is answered
-- as a store would answer it that holds the last list that came whole, from the flight controller or
-- in a replacement, and the number of such lists: no other message has a part in the answer.
pub core_main-readback :
    (opens : Bool) (file : Option (List ℕ)) (turns : List (CoreEnv × CoreReceived)) (env : CoreEnv)
    (request : DiagnosticCmd)
    → request.diag_target ≡ 1
    → request.diag_action ≡ 3
    → let s = core_main true opens file turns in
      let st = store_after turns empty_store in
      let answer = route_snapshot (readback request st.last st.updates) in
      env.delivers answer ≡ true → (process_diagnostic_command env request s).sent ≡ answer ∷ s.sent
core_main-readback opens file turns env request t a d =
    let st = store_after turns empty_store in
    process_diagnostic_command-sent env request (core_main true opens file turns) _ t a
      (ap (snapshot_of request) (core_main-mission_route opens file turns)
        ∙ snapshot_of-shown request st.last st.updates)
      d
