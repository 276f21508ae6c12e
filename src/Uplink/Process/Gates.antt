-- ===== src/Uplink/Process/Gates.antt =====
-- What UPLINK_APP_ProcessUplink does with a command that a check refuses: nothing is passed on,
-- and the replay defence, the state file and the counters of accepted commands stay.
use cfs_telemetry_app.Common.{
  ℕ, ◌≡◌, ◌⊎◌, refl, ◌≢◌, inl, inr, ◌∙◌, Bool, true, false, List, [], ◌∷◌, arith,
}
use cfs_telemetry_app.Uplink.Messages.{
  SbMessage, status_tlm, hk_tlm, UplinkResult, accept, reject_state, reject_sequence, RouteTarget,
  route_none, ProcessUplinkCmd,
}
use cfs_telemetry_app.Uplink.State.{UplinkApp, Env}
use cfs_telemetry_app.Uplink.Admission.{
  SeqCheck, seq_new, seq_duplicate, seq_replay, check_sequence, validate_proxy_command,
  resolve_route_target, blocked_by_health, parse_request_token, is_authorized,
}
use cfs_telemetry_app.Uplink.Telemetry.{update_status_telemetry}
use cfs_telemetry_app.Uplink.Process.{
  reject, fail_routing, route_by_class, apply_policies, process_target, process_verdict,
  process_new, note_reception, process_checked, process_uplink,
}

abbrev pub is_telemetry : SbMessage → Bool
is_telemetry (status_tlm _) = true
is_telemetry (hk_tlm _) = true
is_telemetry _ = false

-- The log without the application's own telemetry: what it has passed on to others.
abbrev pub passed_on : List SbMessage → List SbMessage
passed_on [] = []
passed_on (m ∷ log) = elim (is_telemetry m) [ true ↦ passed_on log | false ↦ m ∷ passed_on log ]

-- Every check lets the command through.
abbrev pub IsAdmitted : UplinkApp → ProcessUplinkCmd → Type 0
IsAdmitted s cmd =
    (check_sequence s cmd.sequence ≡ seq_new)
    × (validate_proxy_command cmd ≡ accept)
    × (s.cfs_health_received ≡ true)
    × (blocked_by_health s.cfs_health_state cmd ≡ false)
    × (is_authorized cmd (parse_request_token cmd) ≡ true)

-- What a refusal leaves alone.
pub record IsKept (s t : UplinkApp) : Type 0 where
  pub nothing_passed_on : passed_on t.sent ≡ passed_on s.sent
  pub same_sequence : t.last_accepted_sequence ≡ s.last_accepted_sequence
  pub same_accepted : t.accepted_count ≡ s.accepted_count
  pub same_file : t.state_file ≡ s.state_file
  pub same_commands : t.cmd_counter ≡ s.cmd_counter
  pub same_flight_mode : t.flight_mode_ctrl ≡ s.flight_mode_ctrl
  pub same_config : t.config_pending_state ≡ s.config_pending_state
  pub same_health : t.cfs_health_state ≡ s.cfs_health_state

pub update_status_telemetry-IsKept :
    (env : Env) (now : ℕ) (s : UplinkApp) → IsKept s (update_status_telemetry env now s)
unfolding update_status_telemetry
update_status_telemetry-IsKept env now s = ground arith

pub reject-IsKept : (env : Env) (r : UplinkResult) (s : UplinkApp) → IsKept s (reject env r s)
unfolding reject update_status_telemetry
reject-IsKept env r s = ground arith

fail_routing-IsKept :
    (env : Env) (r : UplinkResult) (target : RouteTarget) (s : UplinkApp)
    → IsKept s (fail_routing env r target s)
unfolding fail_routing update_status_telemetry
fail_routing-IsKept env r target s = ground arith

abbrev PoliciesAdmit : UplinkApp → ProcessUplinkCmd → Type 0
PoliciesAdmit s cmd =
    (s.cfs_health_received ≡ true)
    × (blocked_by_health s.cfs_health_state cmd ≡ false)
    × (is_authorized cmd (parse_request_token cmd) ≡ true)

accept-cases : (r : UplinkResult) → (r ≡ accept) ⊎ (r ≢ accept)
accept-cases r = ground arith

module _ (env : Env) (cmd : ProcessUplinkCmd) where
  apply_policies-admitted :
      (target : RouteTarget) (s : UplinkApp)
      → PoliciesAdmit s cmd
      → apply_policies env cmd target s ≡ route_by_class env cmd target s
  unfolding apply_policies
  apply_policies-admitted target s h = ground arith

  apply_policies-refused :
      (target : RouteTarget) (s : UplinkApp)
      → ¬ (PoliciesAdmit s cmd)
      → apply_policies env cmd target s ≡ reject env reject_state s
  unfolding apply_policies
  apply_policies-refused target s h = ground arith

  -- A command that passes validation has a target.
  pub accept-resolve_route_target :
      validate_proxy_command cmd ≡ accept → resolve_route_target cmd.command_class ≢ route_none
  unfolding validate_proxy_command resolve_route_target
  accept-resolve_route_target h = ground arith

  process_target-some :
      (s : UplinkApp) (target : RouteTarget)
      → target ≢ route_none
      → process_target env cmd s target ≡ apply_policies env cmd target s
  unfolding process_target
  process_target-some s route_none h = absurd (h refl)
  process_target-some s _ h = refl

  process_verdict-refused :
      (s : UplinkApp) (r : UplinkResult) → r ≢ accept → IsKept s (process_verdict env cmd s r)
  unfolding process_verdict
  process_verdict-refused s accept h = absurd (h refl)
  process_verdict-refused s r h = reject-IsKept env r s

  process_new-accepted :
      (s : UplinkApp)
      → validate_proxy_command cmd ≡ accept
      → process_new env cmd s ≡ apply_policies env cmd (resolve_route_target cmd.command_class) s
  unfolding process_new process_verdict
  process_new-accepted s v =
      rw (v, process_verdict)
        (process_target-some s (resolve_route_target cmd.command_class)
          (accept-resolve_route_target v))

  process_new-refused :
      (s : UplinkApp)
      → ¬ ((validate_proxy_command cmd ≡ accept) × PoliciesAdmit s cmd)
      → IsKept s (process_new env cmd s)
  process_new-refused s h = elim (accept-cases (validate_proxy_command cmd)) [
    | inl v ↦
        rw
          (
            process_new-accepted s v,
            apply_policies-refused (resolve_route_target cmd.command_class) s (λ p. h (v, p)),
          )
          (reject-IsKept env reject_state s)
    | inr v ↦ unfold process_new in process_verdict-refused s (validate_proxy_command cmd) v
  ]

  check_sequence-note_reception :
      (s : UplinkApp)
      → check_sequence (note_reception env cmd s) cmd.sequence ≡ check_sequence s cmd.sequence
  unfolding check_sequence note_reception
  check_sequence-note_reception s = refl

  -- An admitted command goes to the code of its class.
  pub process_uplink-admitted :
      (s : UplinkApp)
      → IsAdmitted s cmd
      → process_uplink env cmd s
        ≡ route_by_class env cmd (resolve_route_target cmd.command_class) (note_reception env cmd s)
  unfolding process_uplink process_checked
  process_uplink-admitted s h =
      rw (check_sequence-note_reception s, h.0)
        (process_new-accepted (note_reception env cmd s) h.1
          ∙ apply_policies-admitted (resolve_route_target cmd.command_class)
              (note_reception env cmd s) (unfold note_reception in (h.2, h.3, h.4)))

  process_checked-refused :
      (s : UplinkApp) (c : SeqCheck)
      → ¬ ((c ≡ seq_new) × (validate_proxy_command cmd ≡ accept) × PoliciesAdmit s cmd)
      → IsKept s (process_checked env cmd s c)
  unfolding process_checked
  process_checked-refused s seq_new h = process_new-refused s (λ p. h (refl, p.0, p.1))
  process_checked-refused s seq_duplicate h = unfold update_status_telemetry in ground arith
  process_checked-refused s seq_replay h = reject-IsKept env reject_sequence s

-- The reception changes nothing that a refusal leaves alone.
IsKept-note_reception :
    (env : Env) (cmd : ProcessUplinkCmd) (s : UplinkApp) {t : UplinkApp}
    → IsKept (note_reception env cmd s) t
    → IsKept s t
unfolding note_reception
IsKept-note_reception env cmd s k = ground arith

-- A command that some check refuses is not passed on to any application: the log of what was
-- passed on, the last accepted sequence, the counters of accepted commands, the state file, the
-- flight mode command and the configuration state stay as they were.
pub process_uplink_gated :
    (env : Env) (cmd : ProcessUplinkCmd) (s : UplinkApp)
    → ¬ (IsAdmitted s cmd)
    → IsKept s (process_uplink env cmd s)
unfolding process_uplink
process_uplink_gated env cmd s h = IsKept-note_reception env cmd s (
    process_checked-refused env cmd (note_reception env cmd s)
      (check_sequence (note_reception env cmd s) cmd.sequence)
      (rw (check_sequence-note_reception env cmd s)
        (unfold note_reception in λ p. h (p.0, p.1, p.2.0, p.2.1, p.2.2))))
