-- ===== src/System/Answers.antt =====
-- The recovery, mode, viewpoint and configuration commands that uplink_app hands to cfs_core_app: the
-- result that comes back, and what uplink_app does with it.
use cfs_telemetry_app.Common.{
  ℕ, ◌≤◌, ◌≡◌, refl, ◌∙◌, Bool, true, List, ◌∷◌, Option, none, some, if_cases, if◌then◌else◌, ◌==◌,
  byte_at, u16, arith,
}
use mathlib.Core.Path.{subst}
use cfs_telemetry_app.Uplink.Messages.{
  SbMessage, status_tlm, hk_tlm, route_update, recovery_cmd, viewpoint_cmd, config_cmd, mode_cmd,
  diagnostic_cmd, reset_counters_cmd, flight_mode_ctrl_cmd, executed_ok, executed_failed,
}
use cfs_telemetry_app.Uplink.State.{UplinkApp, Env}
use cfs_telemetry_app.Uplink.Telemetry.{update_status_telemetry}
use cfs_telemetry_app.Uplink.Process.{process_exec_result}
use cfs_telemetry_app.CfsCore.State.{
  ConfigParams, ExecResult, exec_result_tlm, CoreMessage, CoreApp, CoreEnv, transmit_core,
}
use cfs_telemetry_app.CfsCore.Config.{
  ConfigCmd, publish_exec_result, apply_config, activate_config, has_short_param,
  process_config_command,
}
use cfs_telemetry_app.CfsCore.Config.Cases.{process_config_command_cases}
use cfs_telemetry_app.CfsCore.Commands.{
  process_viewpoint_command, process_recovery_command, process_mode_command,
}
use cfs_telemetry_app.CfsCore.Main.{core_task_pipe}
use cfs_telemetry_app.System.{core_input, core_receive, uplink_input}

-- A command with the sequence `n` that cfs_core_app carries out or refuses; a configuration is one
-- for its scope.
abbrev pub IsCoreCommand : ℕ → SbMessage → Type 0
IsCoreCommand n (recovery_cmd st action target reason token) = st.source_sequence ≡ n
IsCoreCommand n (mode_cmd st action state token) = st.source_sequence ≡ n
IsCoreCommand n (viewpoint_cmd st v) = st.source_sequence ≡ n
IsCoreCommand n (config_cmd st len payload) =
    (st.source_sequence ≡ n) × (8 ≤ len) × (byte_at payload 0 ≡ 1)
IsCoreCommand n _ = ⊥

-- The latest message on the bus is a result for the sequence `n`.
abbrev pub IsAnswered : ℕ → CoreApp → Type 0
IsAnswered n s =
    (r : ExecResult) × (rest : List CoreMessage) × (s.sent ≡ exec_result_tlm r ∷ rest)
    × (r.source_sequence ≡ n)

module _ (env : CoreEnv)
    (delivers : (r : ExecResult) → env.delivers (exec_result_tlm r) ≡ true) where
  publish_exec_result-IsAnswered :
      (n sequence class : ℕ) (ok : Bool) (detail : ℕ) (s : CoreApp)
      → sequence ≡ n
      → IsAnswered n (publish_exec_result env sequence class ok detail s)
  unfolding publish_exec_result transmit_core
  publish_exec_result-IsAnswered n sequence class ok detail s e =
      let r : ExecResult = record {
        source_sequence = sequence;
        source_app = 1;
        command_class = class;
        generic_result = if ok then 0 else 1;
        detail_code = detail;
      } in
      (r, s.sent, rw (delivers r) refl, e)

  apply_config-IsAnswered :
      (msg : ConfigCmd) (pending : Option ConfigParams) (s : CoreApp)
      → IsAnswered msg.source_sequence (apply_config env msg pending s)
  unfolding activate_config
  apply_config-IsAnswered msg none s =
      publish_exec_result-IsAnswered msg.source_sequence _ _ _ _ _ refl
  apply_config-IsAnswered msg (some c) s =
      if_cases (IsAnswered msg.source_sequence) (has_short_param c) _ _
        (λ _. publish_exec_result-IsAnswered msg.source_sequence _ _ _ _ _ refl)
        (λ _. publish_exec_result-IsAnswered msg.source_sequence _ _ _ _ _ refl)

  process_config_command-IsAnswered :
      (msg : ConfigCmd) (s : CoreApp)
      → byte_at msg.payload 0 ≡ 1
      → IsAnswered msg.source_sequence (process_config_command env msg s)
  process_config_command-IsAnswered msg s e =
      process_config_command_cases env msg s (IsAnswered msg.source_sequence)
        (λ r _. publish_exec_result-IsAnswered msg.source_sequence _ _ _ _ _ refl)
        (λ n. absurd (n e)) (λ _. apply_config-IsAnswered msg _ s)

  -- A command that uplink_app has put on the bus, as cfs_core_app finds it on its pipe.
  core_receive-IsAnswered :
      (n : ℕ) (m : SbMessage) (s : CoreApp)
      → IsCoreCommand n m
      → IsAnswered n (core_receive env m s)
  unfolding core_receive core_input core_task_pipe process_viewpoint_command
      process_recovery_command process_mode_command
  core_receive-IsAnswered n (recovery_cmd st action target reason token) s c =
      publish_exec_result-IsAnswered n _ _ _ _ _ c
  core_receive-IsAnswered n (mode_cmd st action state token) s c =
      publish_exec_result-IsAnswered n _ _ _ _ _ c
  core_receive-IsAnswered n (viewpoint_cmd st v) s c = publish_exec_result-IsAnswered n _ _ _ _ _ c
  core_receive-IsAnswered n (config_cmd st len payload) s c =
      let msg : ConfigCmd = record {
        source_sequence = st.source_sequence;
        payload_length = len;
        payload = payload;
      } in
      subst (λ k. IsAnswered k (process_config_command env msg s)) c.0
        (process_config_command-IsAnswered msg s c.2)
  core_receive-IsAnswered n (status_tlm t) s c = elim c [ ]
  core_receive-IsAnswered n (hk_tlm t) s c = elim c [ ]
  core_receive-IsAnswered n (route_update st r) s c = elim c [ ]
  core_receive-IsAnswered n (diagnostic_cmd st action target token) s c = elim c [ ]
  core_receive-IsAnswered n (reset_counters_cmd mid) s c = elim c [ ]
  core_receive-IsAnswered n (flight_mode_ctrl_cmd ctrl) s c = elim c [ ]

-- The answer to the latest accepted command of uplink_app.
process_exec_result-settled :
    (env : Env) (r : ExecResult) (s : UplinkApp)
    → r.source_sequence ≡ u16 s.last_accepted_sequence
    → (process_exec_result env (uplink_input r) s).last_command_result
      ≡ (if r.generic_result == 0 then executed_ok else executed_failed)
unfolding process_exec_result update_status_telemetry
process_exec_result-settled env r s e = ground arith

-- Each recovery, mode or viewpoint command that uplink_app has put on the bus, and each
-- configuration for the scope of cfs_core_app, is answered by cfs_core_app with a result, whatever
-- its state and whether it accepts the command; and uplink_app, where the command is its latest
-- accepted one, then reports it as executed or as failed, as the result says. The bus takes the
-- results.
pub command_settled :
    (core_env : CoreEnv) (env : Env) (n : ℕ) (m : SbMessage) (core : CoreApp) (s : UplinkApp)
    → ((r : ExecResult) → core_env.delivers (exec_result_tlm r) ≡ true)
    → IsCoreCommand n m
    → n ≡ u16 s.last_accepted_sequence
    → (r : ExecResult) × (rest : List CoreMessage) × ((core_receive core_env m core).sent
        ≡ exec_result_tlm r ∷ rest)
      × ((process_exec_result env (uplink_input r) s).last_command_result
          ≡ (if r.generic_result == 0 then executed_ok else executed_failed))
command_settled core_env env n m core s delivers c e =
    let (r, rest, sent, sequence) = core_receive-IsAnswered core_env delivers n m core c in
    (r, rest, sent, process_exec_result-settled env r s (sequence ∙ e))
