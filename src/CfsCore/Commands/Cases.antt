-- ===== src/CfsCore/Commands/Cases.antt =====
-- The branches of CFS_CORE_APP_ProcessRecoveryCommand, as a rule for its proofs.
use cfs_telemetry_app.Common.{ℕ, Bool, true, false, not, ◌==◌, ◌∷◌, if_cases}
use cfs_telemetry_app.CfsCore.State.{
  App, bridge_app, uplink_app, lora_app, bridge_ctrl_cmd, CoreApp, CoreEnv, transmit_core,
}
use cfs_telemetry_app.CfsCore.Commands.{
  restart_on_command, send_bridge_ctrl_cmd, reset_recovery, recover,
}

-- To prove something of the state and the result of the switch, prove it of the reset, of a restart
-- and of a command to the bridge, each with both results, and of an unknown action.
pub recover_cases {ℓ} :
    (env : CoreEnv) (action : ℕ) (s : CoreApp) (P : CoreApp × Bool → Type ℓ)
    → P (reset_recovery env s, true)
    → ((app : App) → P (record s { restarted = app ∷ s.restarted }, true))
    → ((code : ℕ) (ok : Bool) → P (transmit_core env (bridge_ctrl_cmd code) s, ok))
    → P (s, false)
    → P (recover env action s)
unfolding recover send_bridge_ctrl_cmd
recover_cases env action s P reset restart ctrl nothing =
    let restarts : (app : App) → P (restart_on_command env app s) = λ app.
      if_cases P (env.finds app) (record s { restarted = app ∷ s.restarted }, true) (s, false)
        (λ _. restart app) (λ _. nothing) in
    let controls : (code : ℕ) → P (send_bridge_ctrl_cmd env code s) = λ code.
      if_cases P (not env.sets_fcn_code) (s, false)
        (transmit_core env (bridge_ctrl_cmd code) s, env.delivers (bridge_ctrl_cmd code))
        (λ _. nothing) (λ _. ctrl code (env.delivers (bridge_ctrl_cmd code))) in
    if_cases P (action == 0) _ _ (λ _. reset)
      (λ _.
        if_cases P (action == 1) _ _ (λ _. restarts bridge_app)
          (λ _.
            if_cases P (action == 4) _ _ (λ _. restarts uplink_app)
              (λ _.
                if_cases P (action == 5) _ _ (λ _. restarts lora_app)
                  (λ _.
                    if_cases P (action == 2) _ _ (λ _. controls 3)
                      (λ _. if_cases P (action == 3) _ _ (λ _. controls 4) (λ _. nothing))))))
