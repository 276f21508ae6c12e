-- ===== src/CfsCore/Main/KeepsRoute.antt =====
-- What leaves the route of cfs_core_app alone: all but the messages that carry a full list.
use cfs_telemetry_app.Common.{
  List, [], ◌∷◌, ℕ, ◌≡◌, Bool, true, false, not, ◌∷◌, Option, none, some, if_cases, ◌==◌,
}
use cfs_telemetry_app.Common.Executive.{
  app_run, SaveOutcome, open_failed, write_failed, rename_failed, saved,
}
use cfs_telemetry_app.CfsCore.Health.{TimedOut}
use cfs_telemetry_app.CfsCore.State.{
  ConfigParams, App, CoreMessage, bridge_ctrl_cmd, CoreApp, CoreEnv, RouteCache, transmit_core,
}
use cfs_telemetry_app.CfsCore.Persist.{save_core}
use cfs_telemetry_app.CfsCore.Restarts.{check_app_restarts}
use cfs_telemetry_app.CfsCore.Publish.{
  timed_out, save_transition, report_health, publish_now, publish_health, note_restart,
  note_restarts, report_core_housekeeping,
}
use cfs_telemetry_app.CfsCore.Config.{
  ConfigCmd, has_short_param, activate_config, apply_config, publish_exec_result,
  process_config_command,
}
use cfs_telemetry_app.CfsCore.Config.Cases.{process_config_command_cases}
use cfs_telemetry_app.CfsCore.Commands.{
  reset_recovery, recover, process_recovery_command, process_mode_command, is_transition_allowed,
  process_viewpoint_command, process_diagnostic_command, core_noop, core_reset_counters,
}
use cfs_telemetry_app.CfsCore.Commands.Cases.{recover_cases}
use cfs_telemetry_app.CfsCore.Main.{
  CorePipeMsg, no_id, send_hk_msg, foreign_mid, state_msg, config_msg, viewpoint_msg, recovery_msg,
  mode_msg, diagnostic_msg, core_command, process_core_code, core_task_pipe,
}

-- The application runs and has the route `r`.
abbrev pub HasRoute : RouteCache → CoreApp → Type 0
HasRoute r s = (s.mission_route ≡ r) × (s.run_status ≡ app_run)

abbrev pub is_state : CorePipeMsg → Bool
is_state (state_msg msg) = true
is_state _ = false

module _ (r : RouteCache) where
  save_core-HasRoute : (o : SaveOutcome) (s : CoreApp) → HasRoute r s → HasRoute r (save_core o s)
  unfolding save_core
  save_core-HasRoute open_failed s k = k
  save_core-HasRoute write_failed s k = k
  save_core-HasRoute rename_failed s k = k
  save_core-HasRoute saved s k = k

  pub transmit_core-HasRoute :
      (env : CoreEnv) (m : CoreMessage) (s : CoreApp)
      → HasRoute r s
      → HasRoute r (transmit_core env m s)
  unfolding transmit_core
  transmit_core-HasRoute env m s k =
      if_cases (HasRoute r) (env.delivers m) (record s { sent = m ∷ s.sent }) s (λ _. k) (λ _. k)

  save_transition-HasRoute :
      (env : CoreEnv) (b : Bool) (s : CoreApp) → HasRoute r s → HasRoute r (save_transition env b s)
  unfolding save_transition
  save_transition-HasRoute env true s k = save_core-HasRoute env.save_outcome s k
  save_transition-HasRoute env false s k = k

  report_health-HasRoute :
      (env : CoreEnv) (now last_valid : ℕ) (out : TimedOut) (gps : Bool) (s : CoreApp)
      → HasRoute r s
      → HasRoute r (report_health env now last_valid out gps s)
  unfolding report_health
  report_health-HasRoute env now last_valid out gps s k =
      transmit_core-HasRoute env _ _ (save_transition-HasRoute env _ _ k)

  note_restarts-HasRoute :
      (env : CoreEnv) (apps : List App) (s : CoreApp)
      → HasRoute r s
      → HasRoute r (note_restarts env apps s)
  note_restarts-HasRoute env [] s k = k
  note_restarts-HasRoute env (app ∷ apps) s k =
      note_restarts-HasRoute env apps (note_restart env app s)
        (save_core-HasRoute env.restart_save_outcome _ k)

  pub publish_health-HasRoute :
      (env : CoreEnv) (now : ℕ) (force : Bool) (s : CoreApp)
      → HasRoute r s
      → HasRoute r (publish_health env now force s)
  unfolding publish_health publish_now
  publish_health-HasRoute env now force s k =
      let x =
        check_app_restarts now (timed_out now s).bridge (timed_out now s).uplink
          (timed_out now s).lora env.finds s.cooldowns in
      if_cases (HasRoute r) _ s (publish_now env now s) (λ _. k)
        (λ _.
          report_health-HasRoute env now _ _ _ _
            (note_restarts-HasRoute env x.1 (record s { cooldowns = x.0 }) k))

  publish_exec_result-HasRoute :
      (env : CoreEnv) (sequence class : ℕ) (ok : Bool) (detail : ℕ) (s : CoreApp)
      → HasRoute r s
      → HasRoute r (publish_exec_result env sequence class ok detail s)
  unfolding publish_exec_result
  publish_exec_result-HasRoute env sequence class ok detail s k = transmit_core-HasRoute env _ s k

  apply_config-HasRoute :
      (env : CoreEnv) (msg : ConfigCmd) (pending : Option ConfigParams) (s : CoreApp)
      → HasRoute r s
      → HasRoute r (apply_config env msg pending s)
  unfolding activate_config
  apply_config-HasRoute env msg none s k = publish_exec_result-HasRoute env _ _ _ _ _ k
  apply_config-HasRoute env msg (some c) s k =
      if_cases (HasRoute r) (has_short_param c) _ _
        (λ _. publish_exec_result-HasRoute env _ _ _ _ _ k)
        (λ _. publish_exec_result-HasRoute env _ _ _ _ _ (save_core-HasRoute env.save_outcome _ k))

  process_config_command-HasRoute :
      (env : CoreEnv) (msg : ConfigCmd) (s : CoreApp)
      → HasRoute r s
      → HasRoute r (process_config_command env msg s)
  process_config_command-HasRoute env msg s k =
      process_config_command_cases env msg s (HasRoute r)
        (λ result _. publish_exec_result-HasRoute env _ _ _ _ _ k) (λ _. k)
        (λ _. apply_config-HasRoute env msg _ s k)

  recover-HasRoute :
      (env : CoreEnv) (action : ℕ) (s : CoreApp)
      → HasRoute r s
      → HasRoute r (recover env action s).0
  unfolding reset_recovery
  recover-HasRoute env action s k =
      recover_cases env action s (λ x. HasRoute r x.0) (save_core-HasRoute env.save_outcome _ k)
        (λ app. k) (λ code ok. transmit_core-HasRoute env (bridge_ctrl_cmd code) s k) k

  process_core_code-HasRoute :
      (code : Option ℕ) (fits : Bool) (s : CoreApp)
      → HasRoute r s
      → HasRoute r (process_core_code code fits s)
  unfolding process_core_code core_noop core_reset_counters
  process_core_code-HasRoute none fits s k = k
  process_core_code-HasRoute (some code) fits s k =
      if_cases (HasRoute r) (code == 0) _ _ (λ _. if_cases (HasRoute r) fits _ _ (λ _. k) (λ _. k))
        (λ _.
          if_cases (HasRoute r) (code == 1) _ _
            (λ _. if_cases (HasRoute r) fits _ _ (λ _. k) (λ _. k)) (λ _. k))

  -- Every message but those that carry a state.
  pub core_task_pipe-HasRoute :
      (env : CoreEnv) (msg : CorePipeMsg) (s : CoreApp)
      → is_state msg ≡ false
      → HasRoute r s
      → HasRoute r (core_task_pipe env msg s)
  unfolding core_task_pipe process_viewpoint_command process_recovery_command process_mode_command
      process_diagnostic_command report_core_housekeeping
  core_task_pipe-HasRoute env no_id s n k = k
  core_task_pipe-HasRoute env send_hk_msg s n k = transmit_core-HasRoute env _ s k
  core_task_pipe-HasRoute env (state_msg msg) s n k = cc
  core_task_pipe-HasRoute env (config_msg msg) s n k = process_config_command-HasRoute env msg s k
  core_task_pipe-HasRoute env (viewpoint_msg msg) s n k =
      publish_exec_result-HasRoute env _ _ _ _ _ k
  core_task_pipe-HasRoute env (recovery_msg msg) s n k =
      publish_exec_result-HasRoute env _ _ _ _ _ (recover-HasRoute env msg.recovery_action _ k)
  core_task_pipe-HasRoute env (mode_msg msg) s n k =
      publish_exec_result-HasRoute env _ _ _ _ _ (
        if_cases (HasRoute r) (is_transition_allowed msg s.current_mode_state) _ _ (λ _. k)
          (λ _. k))
  core_task_pipe-HasRoute env (diagnostic_msg msg) s n k =
      if_cases (HasRoute r) (not (msg.diag_target == 1)) s _ (λ _. k)
        (λ _.
          if_cases (HasRoute r) (not (msg.diag_action == 3)) s _ (λ _. k)
            (λ _. transmit_core-HasRoute env _ _ k))
  core_task_pipe-HasRoute env foreign_mid s n k = k
  core_task_pipe-HasRoute env (core_command code fits) s n k =
      process_core_code-HasRoute code fits s k
