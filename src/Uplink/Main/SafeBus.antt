-- ===== src/Uplink/Main/SafeBus.antt =====
-- The log of the bus over the turns of the main loop of uplink_app
-- (uplink_app/fsw/src/uplink_app_dispatch.c, uplink_app.c).
use cfs_telemetry_app.Common.{
  ◌∙◌, ℕ, ◌<◌, ◌≡◌, inl, inr, refl, Bool, true, false, Option, none, some, List, [], ◌∷◌, All, u16,
  if_cases, Bool-cases, ◌==◌, not, ltb, sub32, if◌then◌else◌, byte_at, arith,
}
use cfs_telemetry_app.Common.Time.{get_time_ms}
use cfs_telemetry_app.Uplink.State.{UplinkApp, Env}
use cfs_telemetry_app.Common.Executive.{RunStatus, app_run, app_error}
use cfs_telemetry_app.Uplink.Telemetry.{report_housekeeping}
use cfs_telemetry_app.Uplink.Persist.{
  load_state, increment_boot_count, process_boot_marker, judge_boot, save_state,
  check_boot_survival,
}
use cfs_telemetry_app.Uplink.Process.{
  process_uplink, process_exec_result, ExecResultTlm, noop, reset_counters,
}
use cfs_telemetry_app.Uplink.Forward.{count_error}
use cfs_telemetry_app.Uplink.Main.{
  when_verified, unreadable, send_hk, other_mid, system_health, bridge_hk, exec_result, CommandMsg,
  PipeMsg, CommandSizes, Received, message, time_out, pipe_error, verify_cmd_length, process_code,
  process_command, task_pipe, service_prototype, run_loop_turn, while_running, run_loop, init, main,
  command,
}
use cfs_telemetry_app.Uplink.Main.SafeMessages.{
  HasSafeLog, update_status_telemetry-HasSafeLog, transmit-HasSafeLog, save_state-sent,
}
use cfs_telemetry_app.Uplink.Main.SafeCommands.{process_uplink-HasSafeLog}

-- The bytes of a command are bytes.
abbrev pub HasBytes : Received → Type 0
HasBytes (message (command msg)) = (k : ℕ) → byte_at msg.body.payload k < 256
HasBytes _ = Unit {0}

while_running-HasSafeLog :
    (r : RunStatus) (next s : UplinkApp)
    → HasSafeLog next
    → HasSafeLog s
    → HasSafeLog (while_running r next s)
while_running-HasSafeLog app_run next s h k = h
while_running-HasSafeLog app_error next s h k = k

count_error-HasSafeLog : (s : UplinkApp) → HasSafeLog s → HasSafeLog (count_error s)
count_error-HasSafeLog s h = h

when_verified-HasSafeLog :
    (r : UplinkApp × Bool) (handler : UplinkApp → UplinkApp)
    → HasSafeLog r.0
    → ((s : UplinkApp) → HasSafeLog s → HasSafeLog (handler s))
    → HasSafeLog (when_verified r handler)
when_verified-HasSafeLog (s, true) handler h k = k s h
when_verified-HasSafeLog (s, false) handler h k = h

verify_cmd_length-HasSafeLog :
    (actual expected : ℕ) (s : UplinkApp)
    → HasSafeLog s
    → HasSafeLog (verify_cmd_length actual expected s).0
unfolding verify_cmd_length
verify_cmd_length-HasSafeLog actual expected s h =
    if_cases (λ (r : UplinkApp × Bool). HasSafeLog r.0) _ _ _ (λ _. h) (λ _. h)

check_boot_survival-sent : (env : Env) (s : UplinkApp) → (check_boot_survival env s).sent ≡ s.sent
unfolding check_boot_survival save_state
check_boot_survival-sent env s = ground arith

report_housekeeping-HasSafeLog :
    (env : Env) (s : UplinkApp) → HasSafeLog s → HasSafeLog (report_housekeeping env s)
unfolding report_housekeeping
report_housekeeping-HasSafeLog env s h = transmit-HasSafeLog env _ s tt h

process_exec_result-HasSafeLog :
    (env : Env) (msg : ExecResultTlm) (s : UplinkApp)
    → HasSafeLog s
    → HasSafeLog (process_exec_result env msg s)
unfolding process_exec_result
process_exec_result-HasSafeLog env msg s h =
    elim (Bool-cases (not (msg.source_sequence == u16 s.last_accepted_sequence))) [
      | inl stale ↦ rw stale h
      | inr current ↦ rw current (update_status_telemetry-HasSafeLog env 0 _ h)
    ]

service_prototype-HasSafeLog :
    (env : Env) (s : UplinkApp) → HasSafeLog s → HasSafeLog (service_prototype env s)
unfolding service_prototype
service_prototype-HasSafeLog env s h =
    let marked : HasSafeLog (check_boot_survival env s) = rw (check_boot_survival-sent env s) h in
    let now = get_time_ms env.tlm_time in
    elim (Bool-cases (ltb (sub32 now (check_boot_survival env s).last_publish_time_ms) 1000)) [
      | inl early ↦ rw early marked
      | inr due ↦ rw due (update_status_telemetry-HasSafeLog env now _ marked)
    ]

module _ (sizes : CommandSizes) (env : Env) where
  process_code-HasSafeLog :
      (msg : CommandMsg) (s : UplinkApp) (fcn : Option ℕ)
      → ((k : ℕ) → byte_at msg.body.payload k < 256)
      → HasSafeLog s
      → HasSafeLog (process_code sizes env msg s fcn)
  unfolding process_code noop reset_counters
  process_code-HasSafeLog msg s none b h = h
  process_code-HasSafeLog msg s (some code) b h =
      let verified = verify_cmd_length-HasSafeLog msg.size sizes.header_only s h in
      elim (Bool-cases (code == 0)) [
        | inl c ↦ rw c (when_verified-HasSafeLog _ noop verified (λ _ k. k))
        | inr c ↦ elim (Bool-cases (code == 1)) [
          | inl d ↦ rw (c, d) (when_verified-HasSafeLog _ reset_counters verified (λ _ k. k))
          | inr d ↦ elim (Bool-cases (code == 2)) [
            | inl e ↦
                rw (c, d, e)
                  (when_verified-HasSafeLog _ (process_uplink env msg.body)
                    (verify_cmd_length-HasSafeLog msg.size sizes.process_uplink_cmd s h)
                    (process_uplink-HasSafeLog env msg.body b))
            | inr e ↦ rw (c, d, e) h
          ]
        ]
      ]

  task_pipe-HasSafeLog :
      (msg : PipeMsg) (s : UplinkApp)
      → HasBytes (message msg)
      → HasSafeLog s
      → HasSafeLog (task_pipe sizes env msg s)
  unfolding task_pipe process_command
  task_pipe-HasSafeLog unreadable s b h = h
  task_pipe-HasSafeLog send_hk s b h = report_housekeeping-HasSafeLog env s h
  task_pipe-HasSafeLog (system_health state) s b h = h
  task_pipe-HasSafeLog (bridge_hk result successes) s b h = h
  task_pipe-HasSafeLog (exec_result msg) s b h = process_exec_result-HasSafeLog env msg s h
  task_pipe-HasSafeLog other_mid s b h = h
  task_pipe-HasSafeLog (command msg) s b h = process_code-HasSafeLog msg s msg.fcn_code b h

  run_loop_turn-HasSafeLog :
      (r : Received) (s : UplinkApp)
      → HasBytes r
      → HasSafeLog s
      → HasSafeLog (run_loop_turn sizes env r s)
  unfolding run_loop_turn
  run_loop_turn-HasSafeLog (message msg) s b h = task_pipe-HasSafeLog msg s b h
  run_loop_turn-HasSafeLog time_out s b h = service_prototype-HasSafeLog env s h
  run_loop_turn-HasSafeLog pipe_error s b h = h

run_loop-HasSafeLog :
    (sizes : CommandSizes) (turns : List (Env × Received)) (s : UplinkApp)
    → All (λ turn. HasBytes turn.1) turns
    → HasSafeLog s
    → HasSafeLog (run_loop sizes turns s)
unfolding run_loop
run_loop-HasSafeLog sizes [] s b h = h
run_loop-HasSafeLog sizes ((env, r) ∷ rest) s b h =
    while_running-HasSafeLog s.run_status (run_loop sizes rest (run_loop_turn sizes env r s)) s
      (run_loop-HasSafeLog sizes rest (run_loop_turn sizes env r s) b.1
        (run_loop_turn-HasSafeLog sizes env r s b.0 h))
      h

load_state-sent : (opens : Bool) (s : UplinkApp) → (load_state opens s).sent ≡ s.sent
unfolding load_state
load_state-sent opens s = ground arith

-- The initialization sends nothing.
init-sent :
    (registered opens : Bool) (env_count env_marker : Env) (reset_type : ℕ) (file : Option (List ℕ))
    → (init registered opens env_count env_marker reset_type file).0.sent ≡ []
unfolding init process_boot_marker increment_boot_count judge_boot
init-sent false opens env_count env_marker reset_type file = refl
init-sent true opens env_count env_marker reset_type file =
    save_state-sent env_marker _ ∙ save_state-sent env_count _ ∙ load_state-sent opens _

started-HasSafeLog :
    (r : UplinkApp × Bool)
    → HasSafeLog r.0
    → HasSafeLog (if r.1 then r.0 else record r.0 { run_status = app_error })
started-HasSafeLog (s, true) h = h
started-HasSafeLog (s, false) h = h

-- From the start of the application on, whatever arrives on its pipe, every message that the bus
-- takes from it is safe: a route has at most 37 waypoints and all of them can be flown, a
-- viewpoint has x and y within 50 metres, an altitude from 2 to 8 metres, a yaw within pi, a pitch
-- within half of it and a hold time of at most 30 seconds, a configuration command has a
-- payload of 12 bytes or more and 4 data bytes, only counters of the three other applications are
-- reset, and a flight mode is known and has a start index only in the waypoint mode. The bytes of
-- each payload are bytes.
pub main-HasSafeLog :
    (sizes : CommandSizes) (registered opens : Bool) (env_count env_marker : Env) (reset_type : ℕ)
    (file : Option (List ℕ)) (turns : List (Env × Received))
    → All (λ turn. HasBytes turn.1) turns
    → HasSafeLog (main sizes registered opens env_count env_marker reset_type file turns)
unfolding main
main-HasSafeLog sizes registered opens env_count env_marker reset_type file turns b =
    run_loop-HasSafeLog sizes turns _ b (
      started-HasSafeLog (init registered opens env_count env_marker reset_type file)
        (rw (init-sent registered opens env_count env_marker reset_type file) tt))
