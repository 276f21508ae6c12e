-- ===== src/CfsCore/Main/Bounds.antt =====
-- The bounds of the configuration of cfs_core_app over its sessions.
use cfs_telemetry_app.Common.{
  ℕ, sym, Bool, true, false, List, [], ◌∷◌, Option, none, some, if_cases, ◌==◌, not, arith,
}
use mathlib.Core.Path.{subst}
use cfs_telemetry_app.Common.Time.{get_time_ms}
use cfs_telemetry_app.Common.Executive.{RunStatus, app_run, app_error}
use cfs_telemetry_app.CfsCore.State.{CoreApp, CoreEnv, bridge_ctrl_cmd}
use cfs_telemetry_app.CfsCore.Persist.{load_core, load_core_file, encode_core}
use cfs_telemetry_app.CfsCore.Persist.File.{FitsCoreFile, load_core_file-IsCoreRestored}
use cfs_telemetry_app.CfsCore.Config.Outcome.{IsInRange}
use cfs_telemetry_app.CfsCore.Publish.{service_core, report_core_housekeeping}
use cfs_telemetry_app.CfsCore.Commands.{
  reset_recovery, recover, process_viewpoint_command, process_recovery_command,
  process_mode_command, is_transition_allowed, process_diagnostic_command, core_noop,
  core_reset_counters,
}
use cfs_telemetry_app.CfsCore.Commands.Cases.{recover_cases}
use cfs_telemetry_app.CfsCore.Main.{
  CorePipeMsg, no_id, send_hk_msg, foreign_mid, state_msg, config_msg, viewpoint_msg, recovery_msg,
  mode_msg, diagnostic_msg, core_command, process_core_code, core_task_pipe, CoreReceived,
  core_message, core_time_out, core_pipe_error, core_loop_turn, core_initial, core_init,
  core_run_loop, core_main, while_core_runs,
}
use cfs_telemetry_app.CfsCore.Main.Configured.{
  IsGoodFile, IsConfigured, save_core-IsConfigured, transmit_core-IsConfigured,
  publish_health-IsConfigured, process_state_message-IsConfigured, publish_exec_result-IsConfigured,
  process_config_command-IsConfigured,
}

reset_recovery-IsConfigured :
    (env : CoreEnv) (s : CoreApp) → IsConfigured s → IsConfigured (reset_recovery env s)
unfolding reset_recovery
reset_recovery-IsConfigured env s k = save_core-IsConfigured env.save_outcome _ (record {
  range = k.range;
  health = record { state = k.health.state; fault = k.health.fault };
  counts = omega arith;
  file = k.file;
})

recover-IsConfigured :
    (env : CoreEnv) (action : ℕ) (s : CoreApp)
    → IsConfigured s
    → IsConfigured (recover env action s).0
recover-IsConfigured env action s k =
    recover_cases env action s (λ r. IsConfigured r.0) (reset_recovery-IsConfigured env s k)
      (λ app. k) (λ code ok. transmit_core-IsConfigured env (bridge_ctrl_cmd code) s k) k

task_pipe-IsConfigured :
    (env : CoreEnv) (msg : CorePipeMsg) (s : CoreApp)
    → IsConfigured s
    → IsConfigured (core_task_pipe env msg s)
unfolding core_task_pipe process_viewpoint_command process_recovery_command process_mode_command
    process_diagnostic_command process_core_code core_noop core_reset_counters
    report_core_housekeeping
task_pipe-IsConfigured env no_id s k = k
task_pipe-IsConfigured env send_hk_msg s k = transmit_core-IsConfigured env _ s k
task_pipe-IsConfigured env (state_msg msg) s k = process_state_message-IsConfigured env msg s k
task_pipe-IsConfigured env (config_msg msg) s k = process_config_command-IsConfigured env msg s k
task_pipe-IsConfigured env (viewpoint_msg msg) s k =
    publish_exec_result-IsConfigured env _ _ _ _ _ k
task_pipe-IsConfigured env (recovery_msg msg) s k =
    publish_exec_result-IsConfigured env _ _ _ _ _
      (recover-IsConfigured env msg.recovery_action _ k)
task_pipe-IsConfigured env (mode_msg msg) s k =
    publish_exec_result-IsConfigured env _ _ _ _ _
      (if_cases IsConfigured (is_transition_allowed msg s.current_mode_state) _ _ (λ _. k) (λ _. k))
task_pipe-IsConfigured env (diagnostic_msg msg) s k =
    if_cases IsConfigured (not (msg.diag_target == 1)) s _ (λ _. k)
      (λ _.
        if_cases IsConfigured (not (msg.diag_action == 3)) s _ (λ _. k)
          (λ _. transmit_core-IsConfigured env _ _ k))
task_pipe-IsConfigured env foreign_mid s k = k
task_pipe-IsConfigured env (core_command none fits) s k = k
task_pipe-IsConfigured env (core_command (some code) fits) s k =
    if_cases IsConfigured (code == 0) _ _ (λ _. if_cases IsConfigured fits _ _ (λ _. k) (λ _. k))
      (λ _.
        if_cases IsConfigured (code == 1) _ _
          (λ _. if_cases IsConfigured fits _ _ (λ _. k) (λ _. k)) (λ _. k))

loop_turn-IsConfigured :
    (env : CoreEnv) (received : CoreReceived) (s : CoreApp)
    → IsConfigured s
    → IsConfigured (core_loop_turn env received s)
unfolding core_loop_turn service_core
loop_turn-IsConfigured env (core_message msg) s k = task_pipe-IsConfigured env msg s k
loop_turn-IsConfigured env core_time_out s k =
    publish_health-IsConfigured env (get_time_ms env.time) false s k
loop_turn-IsConfigured env core_pipe_error s k = k

while_core_runs-IsConfigured :
    (r : RunStatus) (next s : CoreApp)
    → IsConfigured next
    → IsConfigured s
    → IsConfigured (while_core_runs r next s)
while_core_runs-IsConfigured app_run next s n k = n
while_core_runs-IsConfigured app_error next s n k = k

run_loop-IsConfigured :
    (turns : List (CoreEnv × CoreReceived)) (s : CoreApp)
    → IsConfigured s
    → IsConfigured (core_run_loop turns s)
unfolding core_run_loop
run_loop-IsConfigured [] s k = k
run_loop-IsConfigured ((env, received) ∷ rest) s k =
    while_core_runs-IsConfigured s.run_status _ s
      (run_loop-IsConfigured rest (core_loop_turn env received s)
        (loop_turn-IsConfigured env received s k))
      k

core_initial-IsConfigured :
    (file : Option (List ℕ)) → IsGoodFile file → IsConfigured (core_initial file)
unfolding core_initial
core_initial-IsConfigured file g = record {
  range = omega arith;
  health = omega arith;
  counts = omega arith;
  file = g;
}

restored :
    (t s : CoreApp)
    → FitsCoreFile t
    → IsInRange t.active_config
    → IsConfigured s
    → IsConfigured (load_core_file s (some (encode_core t)))
restored t s fits range k =
    let r = load_core_file-IsCoreRestored t s fits in
    let u = load_core_file s (some (encode_core t)) in
    record {
      range = subst IsInRange (sym r.config) range;
      health = ground (arith, r.health, r.fault, fits.health, fits.fault);
      counts = ground (
        arith, r.bridge, r.uplink, r.lora, fits.bridge_restarts, fits.uplink_restarts,
        fits.lora_restarts,
      );
      file = subst IsGoodFile (sym r.file) k.file;
    }

load_core_file-IsConfigured :
    (file : Option (List ℕ)) (s : CoreApp)
    → IsGoodFile file
    → IsConfigured s
    → IsConfigured (load_core_file s file)
unfolding load_core_file
load_core_file-IsConfigured none s g k = k
load_core_file-IsConfigured (some bytes) s (t, e, fits, range) k =
    subst (λ b. IsConfigured (load_core_file s (some b))) (sym e) (restored t s fits range k)

load_core-IsConfigured :
    (opens : Bool) (s : CoreApp) → IsConfigured s → IsConfigured (load_core opens s)
unfolding load_core
load_core-IsConfigured false s k = k
load_core-IsConfigured true s k = load_core_file-IsConfigured s.state_file s k.file k

core_init-IsConfigured :
    (registered opens : Bool) (file : Option (List ℕ))
    → IsGoodFile file
    → IsConfigured (core_init registered opens file).0
unfolding core_init
core_init-IsConfigured true opens file g =
    load_core-IsConfigured opens (core_initial file) (core_initial-IsConfigured file g)
core_init-IsConfigured false opens file g = core_initial-IsConfigured file g

-- In every session, whatever arrives and whatever the executive answers, the six parameters of the
-- active configuration stay between 100 and 60,000 ms, and the state file stays one that a save with
-- such a configuration wrote, so that the next session starts from it. The session starts without a
-- file or with such a file.
pub core_main-IsConfigured :
    (registered opens : Bool) (file : Option (List ℕ)) (turns : List (CoreEnv × CoreReceived))
    → IsGoodFile file
    → let s = core_main registered opens file turns in
      IsInRange s.active_config × IsGoodFile s.state_file
unfolding core_main
core_main-IsConfigured registered opens file turns g =
    let start = core_init-IsConfigured registered opens file g in
    let k =
      run_loop-IsConfigured turns _
        (if_cases IsConfigured (core_init registered opens file).1 _ _ (λ _. start) (λ _. start)) in
    (k.range, k.file)
