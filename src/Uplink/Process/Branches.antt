-- ===== src/Uplink/Process/Branches.antt =====
-- The branches of UPLINK_APP_ProcessUplink by class, as a rule: what holds of every refusal, of the
-- end of every forwarding function and of the counter management holds of all classes.
use cfs_telemetry_app.Common.{
  ℕ, ◌≡◌, ◌≢◌, Bool, true, Option, none, some, ◌==◌, ==_iff, not, if_cases, arith,
}
use cfs_telemetry_app.Uplink.Messages.{
  UplinkResult, accept, routed, reject_route, reject_viewpoint, reject_flight_mode, reject_state,
  RouteTarget, ProcessUplinkCmd, class_route_update, class_viewpoint, class_recovery, class_config,
  class_mode, class_diagnostic, class_counter_mgmt, class_flight_mode,
}
use cfs_telemetry_app.Uplink.State.{UplinkApp, Env}
use cfs_telemetry_app.Uplink.Admission.{
  blocked_by_health, is_authorized, parse_request_token, validate_proxy_command,
}
use cfs_telemetry_app.Uplink.Admission.Policy.{validate_proxy_command_iff}
use cfs_telemetry_app.Uplink.Payload.{
  parse_route_update_payload, parse_viewpoint_payload, parse_flight_mode_payload,
}
use cfs_telemetry_app.Uplink.Forward.{
  publish_route_update, forward_recovery_command, forward_viewpoint_command, forward_config_command,
  forward_mode_command, forward_diagnostic_command, forward_counter_mgmt_command,
  forward_flight_mode_command,
}
use cfs_telemetry_app.Uplink.Process.{
  apply_policies, reject, finish_routed, settle, settle_parsed, settle_counter_mgmt, route_by_class,
}
use cfs_telemetry_app.Uplink.Process.Passing

module _ (env : Env) (cmd : ProcessUplinkCmd) (target : RouteTarget) where
  pub at_class :
      (k : ℕ) (s : UplinkApp) (r : UplinkApp × Bool)
      → (cmd.command_class == k) ≡ true
      → Passing.Passes k s r
      → Passing.Passes cmd.command_class s r
  at_class k s r e p = rw ((==_iff cmd.command_class k).0 e) p

  settle_parsed_rule {ℓ κ} :
      {A : Type κ} (P : UplinkApp → Type ℓ) (refusal : UplinkResult)
      (forward : A → UplinkApp → UplinkApp × Bool) (s : UplinkApp) (p : Option A)
      → P (reject env refusal s)
      → ((a : A) → P (settle env cmd target (forward a s)))
      → P (settle_parsed env cmd target refusal forward s p)
  unfolding settle_parsed
  settle_parsed_rule P refusal forward s none refused settled = refused
  settle_parsed_rule P refusal forward s (some a) refused settled = settled a

  -- The rule for a property of the state that a command of a known class leaves.
  pub route_by_class_rule {ℓ} :
      (P : UplinkApp → Type ℓ) (s : UplinkApp)
      → validate_proxy_command cmd ≡ accept
      → ((r : UplinkResult) → r ≢ routed → P (reject env r s))
      → ((r : UplinkApp × Bool)
          → Passing.Passes cmd.command_class s r
          → P (settle env cmd target r))
      → ((cmd.command_class == class_counter_mgmt) ≡ true
          → P (settle_counter_mgmt env cmd target (forward_counter_mgmt_command env cmd s)))
      → P (route_by_class env cmd target s)
  unfolding route_by_class
  route_by_class_rule P s v refused settled counters =
      if_cases P _ _ _
        (λ c.
          settle_parsed_rule P _ _ s _ (refused _ (cc))
            (λ p. settled _ (at_class _ s _ c (Passing.publish_route_update-Passes env cmd p s))))
        λ n1.
          if_cases P _ _ _
            (λ c. settled _ (at_class _ s _ c (Passing.forward_recovery_command-Passes env cmd s)))
            λ n2.
              if_cases P _ _ _
                (λ c. settle_parsed_rule P _ _ s _ (refused _ (cc)) (λ p.
                  settled _
                    (at_class _ s _ c (Passing.forward_viewpoint_command-Passes env cmd p s))))
                λ n3.
                  if_cases P _ _ _
                    (λ c.
                      settled _
                        (at_class _ s _ c (Passing.forward_config_command-Passes env cmd s)))
                    λ n4.
                      if_cases P _ _ _
                        (λ c.
                          settled _
                            (at_class _ s _ c (Passing.forward_mode_command-Passes env cmd s)))
                        λ n5.
                          if_cases P _ _ _
                            (λ c. settled _ (
                              at_class _ s _ c
                                (Passing.forward_diagnostic_command-Passes env cmd s)))
                            λ n6. if_cases P _ _ _ counters λ n7.
                              if_cases P _ _ _
                                (λ c. settle_parsed_rule P _ _ s _ (refused _ (cc)) (λ p.
                                  settled _ (
                                    at_class _ s _ c
                                      (Passing.forward_flight_mode_command-Passes env cmd p s))))
                                λ n8. absurd (
                                  ground (
                                    arith,
                                    ((validate_proxy_command_iff cmd).0 v).2,
                                    ((validate_proxy_command_iff cmd).0 v).3,
                                  ))

  -- The rule without the classes.
  pub route_by_class_cases {ℓ} :
      (P : UplinkApp → Type ℓ) (s : UplinkApp)
      → P (
          settle_parsed env cmd target reject_route
            (publish_route_update env cmd)
            s
            (parse_route_update_payload cmd))
      → P (settle env cmd target (forward_recovery_command env cmd s))
      → P (
          settle_parsed env cmd target reject_viewpoint
            (forward_viewpoint_command env cmd)
            s
            (parse_viewpoint_payload cmd))
      → P (settle env cmd target (forward_config_command env cmd s))
      → P (settle env cmd target (forward_mode_command env cmd s))
      → P (settle env cmd target (forward_diagnostic_command env cmd s))
      → P (settle_counter_mgmt env cmd target (forward_counter_mgmt_command env cmd s))
      → P (
          settle_parsed env cmd target reject_flight_mode
            (forward_flight_mode_command env cmd)
            s
            (parse_flight_mode_payload cmd))
      → P (finish_routed env cmd target s)
      → P (route_by_class env cmd target s)
  unfolding route_by_class
  route_by_class_cases P s route recovery viewpoint config mode diagnostic counters flight other =
      if_cases P (cmd.command_class == class_route_update) _ _ (λ _. route)
        λ _.
          if_cases P (cmd.command_class == class_recovery) _ _ (λ _. recovery)
            λ _.
              if_cases P (cmd.command_class == class_viewpoint) _ _ (λ _. viewpoint)
                λ _.
                  if_cases P (cmd.command_class == class_config) _ _ (λ _. config)
                    λ _.
                      if_cases P (cmd.command_class == class_mode) _ _ (λ _. mode)
                        λ _.
                          if_cases P (cmd.command_class == class_diagnostic) _ _ (λ _. diagnostic)
                            λ _.
                              if_cases P (cmd.command_class == class_counter_mgmt) _ _
                                (λ _. counters)
                                λ _.
                                  if_cases P (cmd.command_class == class_flight_mode) _ _
                                    (λ _. flight) λ _. other

  pub apply_policies_cases {ℓ} :
      (P : UplinkApp → Type ℓ) (s : UplinkApp)
      → P (reject env reject_state s)
      → P (route_by_class env cmd target s)
      → P (apply_policies env cmd target s)
  unfolding apply_policies
  apply_policies_cases P s refused passed =
      if_cases P (not s.cfs_health_received) _ _ (λ _. refused)
        λ _.
          if_cases P (blocked_by_health s.cfs_health_state cmd) _ _ (λ _. refused)
            λ _.
              if_cases P (not (is_authorized cmd (parse_request_token cmd))) _ _ (λ _. refused)
                λ _. passed
