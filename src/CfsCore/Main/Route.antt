-- ===== src/CfsCore/Main/Route.antt =====
-- The route that cfs_core_app gives out: the refinement of a store of the last full list.
use cfs_telemetry_app.Common.{
  ℕ, ◌+◌, ◌≡◌, refl, ap, ◌∙◌, true, false, List, [], ◌∷◌, Option, none, some, if_cases, Bool-cases,
  inl, inr, if◌then◌else◌, ◌==◌, u32, replicate, arith,
}
use cfs_telemetry_app.Common.Time.{get_time_ms}
use cfs_telemetry_app.Common.Executive.{app_run, app_error}
use cfs_telemetry_app.CfsCore.State.{RouteCache, RouteTlm, CoreApp, CoreEnv}
use cfs_telemetry_app.CfsCore.Publish.{service_core, publish_health}
use cfs_telemetry_app.CfsCore.Main.{
  CorePipeMsg, no_id, send_hk_msg, foreign_mid, state_msg, config_msg, viewpoint_msg, recovery_msg,
  mode_msg, diagnostic_msg, core_command, core_task_pipe, StateMsg, no_msg_id, bridge_state_hk,
  uplink_hk, lora_hk, attitude, ekf_local, gps_raw, ekf_status, fc_mission_readback,
  route_update_msg, set_route_cache, take_state, has_msg_id, process_state_message, CoreReceived,
  core_message, core_time_out, core_pipe_error, core_loop_turn, core_run_loop, while_core_runs,
  empty_waypoint,
}
use cfs_telemetry_app.CfsCore.Main.KeepsRoute.{
  HasRoute, publish_health-HasRoute, core_task_pipe-HasRoute,
}

-- The abstract store: the last list that came whole, and how many have come.
pub record RouteStore : Type 0 where
  pub last : Option RouteTlm
  pub updates : ℕ

-- The full list that a message carries: the readback of the flight controller and a replacement.
abbrev pub full_list : StateMsg → Option RouteTlm
full_list (fc_mission_readback msg) = some msg
full_list (route_update_msg msg) = if msg.route_type == 1 then some msg else none
full_list _ = none

abbrev pub put : Option RouteTlm → RouteStore → RouteStore
put none st = st
put (some msg) st = record { last = some msg; updates = st.updates + 1 }

abbrev pub put_received : CoreReceived → RouteStore → RouteStore
put_received (core_message (state_msg msg)) st = put (full_list msg) st
put_received _ st = st

-- The store after the turns; an error of the pipe is the last turn of a session.
abbrev pub store_after : List (CoreEnv × CoreReceived) → RouteStore → RouteStore
store_after [] st = st
store_after ((env, core_pipe_error) ∷ rest) st = st
store_after ((env, received) ∷ rest) st = store_after rest (put_received received st)

-- What the cache of the application holds of the store.
abbrev pub shown : Option RouteTlm → ℕ → RouteCache
shown none updates = record {
  timestamp_ms = 0;
  source_sequence = 0;
  update_count = u32 updates;
  route_type = 0;
  route_version = 0;
  waypoint_count = 0;
  valid = false;
  waypoints = replicate 37 empty_waypoint;
}
shown (some msg) updates = record {
  timestamp_ms = msg.timestamp_ms;
  source_sequence = msg.source_sequence;
  update_count = u32 updates;
  route_type = msg.route_type;
  route_version = msg.route_version;
  waypoint_count = msg.waypoint_count;
  valid = true;
  waypoints = msg.waypoints;
}

abbrev pub show_store : RouteStore → RouteCache
show_store st = shown st.last st.updates

next_count : (n : ℕ) → u32 (u32 n + 1) ≡ u32 (n + 1)
next_count n = omega arith

set_route_cache-shown :
    (msg : RouteTlm) (last : Option RouteTlm) (n : ℕ)
    → set_route_cache msg (shown last n) ≡ shown (some msg) (n + 1)
unfolding set_route_cache
set_route_cache-shown msg none n = rw (next_count n) refl
set_route_cache-shown msg (some m) n = rw (next_count n) refl

-- The application runs and its cache shows the store.
abbrev pub Shows : RouteStore → CoreApp → Type 0
Shows st s = HasRoute (show_store st) s

replaced_route :
    (msg : RouteTlm) (st : RouteStore) (s : CoreApp)
    → Shows st s
    → Shows (put (some msg) st) (record s { mission_route = set_route_cache msg s.mission_route })
replaced_route msg st s k =
    (ap (set_route_cache msg) k.0 ∙ set_route_cache-shown msg st.last st.updates, k.1)

take_state-Shows :
    (now : ℕ) (msg : StateMsg) (st : RouteStore) (s : CoreApp)
    → Shows st s
    → Shows (put (full_list msg) st) (take_state now msg s)
unfolding take_state
take_state-Shows now no_msg_id st s k = k
take_state-Shows now (bridge_state_hk link error rx) st s k = k
take_state-Shows now uplink_hk st s k = k
take_state-Shows now lora_hk st s k = k
take_state-Shows now (attitude msg floats) st s k = k
take_state-Shows now (ekf_local msg floats) st s k = k
take_state-Shows now (gps_raw msg) st s k = k
take_state-Shows now (ekf_status msg) st s k = k
take_state-Shows now (fc_mission_readback msg) st s k = replaced_route msg st s k
take_state-Shows now (route_update_msg msg) st s k = elim (Bool-cases (msg.route_type == 1)) [
  | inl e ↦ rw e (replaced_route msg st s k)
  | inr e ↦ rw e k
]

process_state_message-Shows :
    (env : CoreEnv) (msg : StateMsg) (st : RouteStore) (s : CoreApp)
    → Shows st s
    → Shows (put (full_list msg) st) (process_state_message env msg s)
unfolding process_state_message
process_state_message-Shows env msg st s k =
    let k' = take_state-Shows (get_time_ms env.time) msg st s k in
    if_cases (Shows (put (full_list msg) st)) (has_msg_id msg)
      (publish_health env (get_time_ms env.time) true (take_state (get_time_ms env.time) msg s))
      (take_state (get_time_ms env.time) msg s)
      (λ _.
        publish_health-HasRoute (show_store (put (full_list msg) st)) env (get_time_ms env.time)
          true _ k')
      (λ _. k')

task_pipe-Shows :
    (env : CoreEnv) (msg : CorePipeMsg) (st : RouteStore) (s : CoreApp)
    → Shows st s
    → Shows (put_received (core_message msg) st) (core_task_pipe env msg s)
unfolding core_task_pipe
task_pipe-Shows env (state_msg msg) st s k = process_state_message-Shows env msg st s k
task_pipe-Shows env no_id st s k = core_task_pipe-HasRoute _ env no_id s refl k
task_pipe-Shows env send_hk_msg st s k = core_task_pipe-HasRoute _ env send_hk_msg s refl k
task_pipe-Shows env foreign_mid st s k = core_task_pipe-HasRoute _ env foreign_mid s refl k
task_pipe-Shows env (config_msg msg) st s k =
    core_task_pipe-HasRoute _ env (config_msg msg) s refl k
task_pipe-Shows env (viewpoint_msg msg) st s k =
    core_task_pipe-HasRoute _ env (viewpoint_msg msg) s refl k
task_pipe-Shows env (recovery_msg msg) st s k =
    core_task_pipe-HasRoute _ env (recovery_msg msg) s refl k
task_pipe-Shows env (mode_msg msg) st s k = core_task_pipe-HasRoute _ env (mode_msg msg) s refl k
task_pipe-Shows env (diagnostic_msg msg) st s k =
    core_task_pipe-HasRoute _ env (diagnostic_msg msg) s refl k
task_pipe-Shows env (core_command code fits) st s k =
    core_task_pipe-HasRoute _ env (core_command code fits) s refl k

while_core_runs-running :
    (next s : CoreApp) → s.run_status ≡ app_run → while_core_runs s.run_status next s ≡ next
while_core_runs-running next s e = rw e refl

stopped :
    (turns : List (CoreEnv × CoreReceived)) (s : CoreApp)
    → s.run_status ≡ app_error
    → core_run_loop turns s ≡ s
unfolding core_run_loop
stopped [] s e = refl
stopped ((env, received) ∷ rest) s e = rw e refl

running :
    (env : CoreEnv) (received : CoreReceived) (rest : List (CoreEnv × CoreReceived)) (s : CoreApp)
    → s.run_status ≡ app_run
    → core_run_loop ((env, received) ∷ rest) s ≡ core_run_loop rest (core_loop_turn env received s)
unfolding core_run_loop
running env received rest s e = while_core_runs-running _ s e

empty_loop : (s : CoreApp) → (core_run_loop [] s).mission_route ≡ s.mission_route
unfolding core_run_loop
empty_loop s = refl

pub run_loop-Shows :
    (turns : List (CoreEnv × CoreReceived)) (st : RouteStore) (s : CoreApp)
    → Shows st s
    → (core_run_loop turns s).mission_route ≡ show_store (store_after turns st)
unfolding core_loop_turn service_core
run_loop-Shows [] st s k = empty_loop s ∙ k.0
run_loop-Shows ((env, core_message msg) ∷ rest) st s k =
    ap (λ t. t.mission_route) (running env (core_message msg) rest s k.1)
    ∙ run_loop-Shows rest (put_received (core_message msg) st) (core_task_pipe env msg s)
        (task_pipe-Shows env msg st s k)
run_loop-Shows ((env, core_time_out) ∷ rest) st s k =
    ap (λ t. t.mission_route) (running env core_time_out rest s k.1)
    ∙ run_loop-Shows rest st (service_core env s)
        (publish_health-HasRoute (show_store st) env (get_time_ms env.time) false s k)
run_loop-Shows ((env, core_pipe_error) ∷ rest) st s k =
    ap (λ t. t.mission_route) (running env core_pipe_error rest s k.1)
    ∙ ap (λ t. t.mission_route) (stopped rest (record s { run_status = app_error }) refl)
    ∙ k.0
