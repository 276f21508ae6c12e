-- ===== src/Uplink/Process/Outcome.antt =====
-- How UPLINK_APP_ProcessUplink ends for an admitted command, on every branch of every class.
use cfs_telemetry_app.Common.{
  ℕ, ◌+◌, ◌≡◌, ◌≢◌, ◌⊎◌, inl, inr, refl, Bool, true, false, some, ◌∷◌, byte_at, u32, ◌==◌, ==_iff,
  Bool-cases, arith,
}
use cfs_telemetry_app.Uplink.Messages.{
  UplinkResult, accept, routed, failed, reject_counter, link_nominal, link_degraded, RouteTarget,
  ProcessUplinkCmd, class_counter_mgmt, scope_uplink,
}
use cfs_telemetry_app.Uplink.State.{UplinkApp, Env}
use cfs_telemetry_app.Common.Executive.{saved}
use cfs_telemetry_app.Uplink.Admission.{resolve_route_target, validate_proxy_command}
use cfs_telemetry_app.Uplink.Forward.{forward_counter_mgmt_command}
use cfs_telemetry_app.Uplink.Persist.{encode_state, save_state}
use cfs_telemetry_app.Uplink.Telemetry.{update_status_telemetry}
use cfs_telemetry_app.Uplink.Process.{
  reject, fail_routing, finish_routed, settle, settle_counter_mgmt, route_by_class, note_reception,
  process_uplink,
}
use cfs_telemetry_app.Uplink.Process.Gates.{IsAdmitted, process_uplink-admitted}
use cfs_telemetry_app.Uplink.Process.Passing
use cfs_telemetry_app.Uplink.Process.Branches.{at_class, route_by_class_rule}

-- The command went to one application, and the replay defence has advanced to it.
pub record IsRouted (env : Env) (cmd : ProcessUplinkCmd) (s t : UplinkApp) : Type 0 where
  pub one_passed : Passing.passed_classes t.sent ≡ cmd.command_class ∷ Passing.passed_classes s.sent
  pub sequence : t.last_accepted_sequence ≡ cmd.sequence
  pub counted : t.accepted_count ≡ u32 (s.accepted_count + 1)
  pub reports_routed : t.last_command_result ≡ routed
  pub link : t.link_state ≡ link_nominal
  pub stored : env.save_outcome ≡ saved → t.state_file ≡ some (encode_state t)

-- A reset of the application's own counters: nothing is passed on and nothing is remembered.
pub record IsOwnReset (cmd : ProcessUplinkCmd) (s t : UplinkApp) : Type 0 where
  pub class : cmd.command_class ≡ class_counter_mgmt
  pub scope : byte_at cmd.payload 0 ≡ scope_uplink
  pub none_passed : Passing.passed_classes t.sent ≡ Passing.passed_classes s.sent
  pub sequence : t.last_accepted_sequence ≡ s.last_accepted_sequence
  pub same_accepted : t.accepted_count ≡ s.accepted_count
  pub commands_reset : t.cmd_counter ≡ 0
  pub errors_reset : t.err_counter ≡ 0
  pub rejections_reset : t.rejected_count ≡ 0
  pub duplicates_reset : t.duplicate_count ≡ 0
  pub routing_failures_reset : t.routing_failure_count ≡ 0
  pub same_received : t.cfs_health_received ≡ s.cfs_health_received
  pub same_health : t.cfs_health_state ≡ s.cfs_health_state
  pub reports_routed : t.last_command_result ≡ routed

-- The command was refused, or the bus did not take it.
pub record IsRefused (s t : UplinkApp) : Type 0 where
  pub none_passed : Passing.passed_classes t.sent ≡ Passing.passed_classes s.sent
  pub sequence : t.last_accepted_sequence ≡ s.last_accepted_sequence
  pub same_accepted : t.accepted_count ≡ s.accepted_count
  pub same_file : t.state_file ≡ s.state_file
  pub reports_refusal : t.last_command_result ≢ routed
  pub link : t.link_state ≡ link_degraded

abbrev pub Outcome : Env → ProcessUplinkCmd → UplinkApp → UplinkApp → Type 0
Outcome env cmd s t = IsRouted env cmd s t ⊎ IsOwnReset cmd s t ⊎ IsRefused s t

save_state-stored :
    (env : Env) (s : UplinkApp)
    → env.save_outcome ≡ saved
    → (save_state env s).state_file ≡ some (encode_state (save_state env s))
unfolding save_state
save_state-stored env s e = ground arith

-- The status publication writes nothing that the file holds.
update_status_telemetry-stored :
    (env : Env) (now : ℕ) (s : UplinkApp)
    → s.state_file ≡ some (encode_state s)
    → (update_status_telemetry env now s).state_file
      ≡ some (encode_state (update_status_telemetry env now s))
unfolding update_status_telemetry encode_state
update_status_telemetry-stored env now s h = ground arith

module _ (env : Env) (cmd : ProcessUplinkCmd) (target : RouteTarget) where
  reject-IsRefused :
      (r : UplinkResult) (s t : UplinkApp)
      → r ≢ routed
      → Passing.passed_classes t.sent ≡ Passing.passed_classes s.sent
      → Passing.IsUncounted s t
      → IsRefused s (reject env r t)
  unfolding reject update_status_telemetry
  reject-IsRefused r s t h p u = ground arith

  finish_routed-stored :
      (t : UplinkApp)
      → env.save_outcome ≡ saved
      → (finish_routed env cmd target t).state_file
        ≡ some (encode_state (finish_routed env cmd target t))
  unfolding finish_routed encode_state
  finish_routed-stored t e = update_status_telemetry-stored env 0 _ (save_state-stored env _ e)

  finish_routed-IsRouted :
      (s t : UplinkApp)
      → Passing.passed_classes t.sent ≡ cmd.command_class ∷ Passing.passed_classes s.sent
      → Passing.IsUncounted s t
      → IsRouted env cmd s (finish_routed env cmd target t)
  unfolding finish_routed update_status_telemetry save_state
  finish_routed-IsRouted s t p u = record {
    one_passed = ground arith;
    sequence = ground arith;
    counted = ground arith;
    reports_routed = ground arith;
    link = ground arith;
    stored = finish_routed-stored t;
  }

  fail_routing-IsRefused :
      (s t : UplinkApp)
      → Passing.passed_classes t.sent ≡ Passing.passed_classes s.sent
      → Passing.IsUncounted s t
      → IsRefused s (fail_routing env failed target t)
  unfolding fail_routing update_status_telemetry
  fail_routing-IsRefused s t p u = ground arith

  settle-Outcome :
      (s : UplinkApp) (r : UplinkApp × Bool)
      → Passing.Passes cmd.command_class s r
      → Outcome env cmd s (settle env cmd target r)
  unfolding settle
  settle-Outcome s (t, true) p = inl (finish_routed-IsRouted s t (p.passed refl) p.uncounted)
  settle-Outcome s (t, false) p =
      inr (inr (fail_routing-IsRefused s t (p.stopped refl) p.uncounted))

  settle_counter_mgmt-Outcome :
      (s : UplinkApp) (r : UplinkApp × Bool)
      → byte_at cmd.payload 0 ≢ scope_uplink
      → Passing.Passes cmd.command_class s r
      → Outcome env cmd s (settle_counter_mgmt env cmd target r)
  unfolding settle_counter_mgmt
  settle_counter_mgmt-Outcome s (t, true) h p =
      inl (ground (arith, finish_routed-IsRouted s t (p.passed refl) p.uncounted))
  settle_counter_mgmt-Outcome s (t, false) h p =
      inr (inr (reject-IsRefused reject_counter s t (cc) (p.stopped refl) p.uncounted))

  counters-IsOwnReset :
      (s : UplinkApp)
      → cmd.command_class ≡ class_counter_mgmt
      → byte_at cmd.payload 0 ≡ scope_uplink
      → IsOwnReset cmd s
          (settle_counter_mgmt env cmd target (record s { cmd_counter = 0; err_counter = 0 }, true))
  unfolding settle_counter_mgmt update_status_telemetry
  counters-IsOwnReset s c h = ground arith

  settle_counter_mgmt_own :
      (s : UplinkApp)
      → cmd.command_class ≡ class_counter_mgmt
      → byte_at cmd.payload 0 ≡ scope_uplink
      → let t = settle_counter_mgmt env cmd target (forward_counter_mgmt_command env cmd s) in
        IsOwnReset cmd s t ⊎ IsRefused s t
  settle_counter_mgmt_own s c h = elim (Passing.forward_counter_mgmt_command_own env cmd s h) [
    | inl e ↦ rw e (inl (counters-IsOwnReset s c h))
    | inr e ↦ rw e (
        inr (
          unfold settle_counter_mgmt in
          reject-IsRefused reject_counter s s (cc) refl (Passing.IsUncounted-self s)))
  ]

  route_by_class_own :
      (s : UplinkApp)
      → cmd.command_class ≡ class_counter_mgmt
      → route_by_class env cmd target s
        ≡ settle_counter_mgmt env cmd target (forward_counter_mgmt_command env cmd s)
  unfolding route_by_class
  route_by_class_own s c = ground arith

  counter_mgmt-Outcome :
      (s : UplinkApp)
      → (cmd.command_class == class_counter_mgmt) ≡ true
      → Outcome env cmd s
          (settle_counter_mgmt env cmd target (forward_counter_mgmt_command env cmd s))
  counter_mgmt-Outcome s e = elim (Bool-cases (byte_at cmd.payload 0 == scope_uplink)) [
    | inl own ↦ inr (settle_counter_mgmt_own s ((==_iff _ _).0 e) ((==_iff _ _).0 own))
    | inr other ↦
        let h : byte_at cmd.payload 0 ≢ scope_uplink = ground arith in
        settle_counter_mgmt-Outcome s (forward_counter_mgmt_command env cmd s) h (
          at_class env cmd target _ s _ e (Passing.forward_counter_mgmt_command-Passes env cmd s h))
  ]

  route_by_class-Outcome :
      (s : UplinkApp)
      → validate_proxy_command cmd ≡ accept
      → Outcome env cmd s (route_by_class env cmd target s)
  route_by_class-Outcome s v =
      route_by_class_rule env cmd target (Outcome env cmd s) s v
        (λ r h. inr (inr (reject-IsRefused r s s h refl (Passing.IsUncounted-self s))))
        (settle-Outcome s) (counter_mgmt-Outcome s)

-- The reception is noted in fields that no outcome speaks of.
own-note_reception :
    (env : Env) (cmd : ProcessUplinkCmd) (s t : UplinkApp)
    → IsOwnReset cmd (note_reception env cmd s) t ⊎ IsRefused (note_reception env cmd s) t
    → IsOwnReset cmd s t ⊎ IsRefused s t
unfolding note_reception
own-note_reception env cmd s t (inl r) = inl (ground arith)
own-note_reception env cmd s t (inr r) = inr (ground arith)

Outcome-note_reception :
    (env : Env) (cmd : ProcessUplinkCmd) (s t : UplinkApp)
    → Outcome env cmd (note_reception env cmd s) t
    → Outcome env cmd s t
unfolding note_reception
Outcome-note_reception env cmd s t (inl r) = inl (record {
  one_passed = r.one_passed;
  sequence = r.sequence;
  counted = r.counted;
  reports_routed = r.reports_routed;
  link = r.link;
  stored = r.stored;
})
Outcome-note_reception env cmd s t (inr r) = inr (own-note_reception env cmd s t r)

-- An admitted command ends in one of three ways. It is routed: exactly one message of its class
-- is passed on, the replay defence advances to its sequence, it is counted once, the result is
-- ROUTED and the link NOMINAL. Or it is a reset of the application's own counters: the two
-- command counters and the counts of rejections, duplicates and routing failures are 0,
-- nothing is passed on and the replay defence stays. Or it is refused: nothing is passed on, the
-- replay defence and the state file stay, the result is not ROUTED and the link DEGRADED.
pub process_uplink-Outcome :
    (env : Env) (cmd : ProcessUplinkCmd) (s : UplinkApp)
    → IsAdmitted s cmd
    → Outcome env cmd s (process_uplink env cmd s)
process_uplink-Outcome env cmd s h = rw (process_uplink-admitted env cmd s h) (
    Outcome-note_reception env cmd s _ (
      route_by_class-Outcome env cmd (resolve_route_target cmd.command_class)
        (note_reception env cmd s) h.1))

-- A counter management command for the application itself is carried out or refused.
pub process_uplink_own :
    (env : Env) (cmd : ProcessUplinkCmd) (s : UplinkApp)
    → IsAdmitted s cmd
    → cmd.command_class ≡ class_counter_mgmt
    → byte_at cmd.payload 0 ≡ scope_uplink
    → IsOwnReset cmd s (process_uplink env cmd s) ⊎ IsRefused s (process_uplink env cmd s)
process_uplink_own env cmd s h c o =
    rw
      (
        process_uplink-admitted env cmd s h,
        route_by_class_own env cmd (resolve_route_target cmd.command_class)
            (note_reception env cmd s) c,
      )
      (own-note_reception env cmd s _ (
        settle_counter_mgmt_own env cmd (resolve_route_target cmd.command_class)
          (note_reception env cmd s) c o))
