-- ===== src/Uplink/Main/SafeMessages.antt =====
-- The messages that uplink_app sends to the other applications, and what its forwarding functions
-- and the ends of its command handler (uplink_app/fsw/src/uplink_app_utils.c, uplink_app_cmds.c)
-- add to the log of the bus.
use cfs_telemetry_app.Common.{
  ℕ, ◌≤◌, ◌<◌, ◌≡◌, ◌⊎◌, inl, inr, refl, Bool, true, false, Option, none, some, ◌∷◌, All, length,
  take, get_or-take, if_cases, Bool-cases, ◌==◌, not, ltb, ◌∙◌, byte_at, arith,
}
use cfs_telemetry_app.Uplink.Messages.{
  UplinkResult, SbMessage, route_update, viewpoint_cmd, config_cmd, reset_counters_cmd,
  flight_mode_ctrl_cmd, RouteTarget, scope_uplink, ProcessUplinkCmd, RouteUpdatePayload,
  ViewpointPayload, FlightModePayload, FlightModeCtrlCmd,
}
use cfs_telemetry_app.Uplink.State.{UplinkApp, Env, transmit}
use cfs_telemetry_app.Uplink.Payload.{
  parse_route_update_payload, parse_viewpoint_payload, parse_flight_mode_payload,
}
use cfs_telemetry_app.Uplink.Payload.Route.{
  IsFlyable, IsAltitude, parse_route_update_payload-IsRouteAccepted,
}
use cfs_telemetry_app.Uplink.Payload.Limits.{IsWithin, parse_viewpoint_payload-IsViewpointAccepted}
use cfs_telemetry_app.Uplink.Telemetry.{update_status_telemetry}
use cfs_telemetry_app.Uplink.Persist.{save_state}
use cfs_telemetry_app.Uplink.Forward.{
  stamp, publish_route_update, forward_recovery_command, forward_viewpoint_command,
  forward_config_command, forward_mode_command, forward_diagnostic_command,
  forward_counter_mgmt_command, forward_flight_mode_command,
}
use cfs_telemetry_app.Uplink.Process.{
  reject, fail_routing, finish_routed, settle, settle_parsed, settle_counter_mgmt,
}

abbrev pub IsSafeFlightMode : FlightModeCtrlCmd → Type 0
IsSafeFlightMode c =
    (c.fcn_code ≡ 5) × (c.flight_mode ≤ 2) × ((c.flight_mode ≡ 1) ⊎ (c.waypoint_start_index ≡ 0))

-- What the other applications may rely on in each message.
abbrev pub IsSafe : SbMessage → Type 0
IsSafe (route_update _ p) = All IsFlyable p.waypoints × (length p.waypoints ≤ 37)
IsSafe (viewpoint_cmd _ v) =
    IsWithin 0x42480000 v.x
    × IsWithin 0x42480000 v.y
    × IsAltitude v.z
    × IsWithin 0x40490fdb v.yaw
    × IsWithin 0x3fc90fdb v.pitch
    × (v.hold_time_ms ≤ 30000)
IsSafe (config_cmd _ size payload) = (12 ≤ size) × (byte_at payload 5 ≡ 4)
IsSafe (reset_counters_cmd mid) = (mid ≡ 0x18a0) ⊎ (mid ≡ 0x18c0) ⊎ (mid ≡ 0x18e0)
IsSafe (flight_mode_ctrl_cmd c) = IsSafeFlightMode c
IsSafe _ = Unit {0}

abbrev pub HasSafeLog : UplinkApp → Type 0
HasSafeLog s = All IsSafe s.sent

pub transmit-HasSafeLog :
    (env : Env) (m : SbMessage) (s : UplinkApp)
    → IsSafe m
    → HasSafeLog s
    → HasSafeLog (transmit env m s)
transmit-HasSafeLog env m s safe h = elim (Bool-cases (env.delivers m)) [
  | inl d ↦ rw d (safe, h)
  | inr d ↦ rw d h
]

pub update_status_telemetry-HasSafeLog :
    (env : Env) (now : ℕ) (s : UplinkApp)
    → HasSafeLog s
    → HasSafeLog (update_status_telemetry env now s)
unfolding update_status_telemetry
update_status_telemetry-HasSafeLog env now s h = transmit-HasSafeLog env _ _ tt h

-- A save writes the file and not the log.
pub save_state-sent : (env : Env) (s : UplinkApp) → (save_state env s).sent ≡ s.sent
unfolding save_state
save_state-sent env s = ground arith

pub save_state-HasSafeLog :
    (env : Env) (s : UplinkApp) → HasSafeLog s → HasSafeLog (save_state env s)
save_state-HasSafeLog env s h = rw (save_state-sent env s) h

module _ (env : Env) (cmd : ProcessUplinkCmd) where
  pub reject-HasSafeLog :
      (r : UplinkResult) (s : UplinkApp) → HasSafeLog s → HasSafeLog (reject env r s)
  unfolding reject
  reject-HasSafeLog r s h = update_status_telemetry-HasSafeLog env 0 _ h

  pub finish_routed-HasSafeLog :
      (target : RouteTarget) (s : UplinkApp)
      → HasSafeLog s
      → HasSafeLog (finish_routed env cmd target s)
  unfolding finish_routed
  finish_routed-HasSafeLog target s h =
      update_status_telemetry-HasSafeLog env 0 _ (save_state-HasSafeLog env _ h)

  pub settle-HasSafeLog :
      (target : RouteTarget) (r : UplinkApp × Bool)
      → HasSafeLog r.0
      → HasSafeLog (settle env cmd target r)
  unfolding settle fail_routing
  settle-HasSafeLog target (s, true) h = finish_routed-HasSafeLog target s h
  settle-HasSafeLog target (s, false) h = update_status_telemetry-HasSafeLog env 0 _ h

  pub settle_counter_mgmt-HasSafeLog :
      (target : RouteTarget) (r : UplinkApp × Bool)
      → HasSafeLog r.0
      → HasSafeLog (settle_counter_mgmt env cmd target r)
  unfolding settle_counter_mgmt
  settle_counter_mgmt-HasSafeLog target (s, true) h =
      elim (Bool-cases (byte_at cmd.payload 0 == scope_uplink)) [
        | inl own ↦ rw own (update_status_telemetry-HasSafeLog env 0 _ h)
        | inr other ↦ rw other (finish_routed-HasSafeLog target s h)
      ]
  settle_counter_mgmt-HasSafeLog target (s, false) h = reject-HasSafeLog _ s h

  -- A parsed payload is sent on only if the parser gave it.
  pub settle_parsed-HasSafeLog {ℓ} :
      {A : Type ℓ} (target : RouteTarget) (refusal : UplinkResult)
      (forward : A → UplinkApp → UplinkApp × Bool) (s : UplinkApp) (p : Option A)
      → HasSafeLog s
      → ((a : A) → p ≡ some a → HasSafeLog (forward a s).0)
      → HasSafeLog (settle_parsed env cmd target refusal forward s p)
  unfolding settle_parsed
  settle_parsed-HasSafeLog target refusal forward s none h k = reject-HasSafeLog refusal s h
  settle_parsed-HasSafeLog target refusal forward s (some a) h k =
      settle-HasSafeLog target (forward a s) (k a refl)

  -- The forwarding functions.
  pub publish_route_update-HasSafeLog :
      (p : RouteUpdatePayload) (s : UplinkApp)
      → HasSafeLog s
      → parse_route_update_payload cmd ≡ some p
      → HasSafeLog (publish_route_update env cmd p s).0
  unfolding publish_route_update
  publish_route_update-HasSafeLog p s h e =
      let r = parse_route_update_payload-IsRouteAccepted cmd p e in
      transmit-HasSafeLog env _ s (r.flyable, grind arith) h

  pub forward_viewpoint_command-HasSafeLog :
      (v : ViewpointPayload) (s : UplinkApp)
      → HasSafeLog s
      → ((k : ℕ) → byte_at cmd.payload k < 256)
      → parse_viewpoint_payload cmd ≡ some v
      → HasSafeLog (forward_viewpoint_command env cmd v s).0
  unfolding forward_viewpoint_command
  forward_viewpoint_command-HasSafeLog v s h b e =
      let r = parse_viewpoint_payload-IsViewpointAccepted cmd v b e in
      transmit-HasSafeLog env _ s (r.x, r.y, r.z, r.yaw, r.pitch, r.hold) h

  flight_mode_bounds :
      (p : FlightModePayload)
      → parse_flight_mode_payload cmd ≡ some p
      → (p.flight_mode ≤ 2) × ((p.flight_mode ≡ 1) ⊎ (p.waypoint_start_index ≡ 0))
  unfolding parse_flight_mode_payload
  flight_mode_bounds p e = ground arith

  pub forward_flight_mode_command-HasSafeLog :
      (p : FlightModePayload) (s : UplinkApp)
      → HasSafeLog s
      → parse_flight_mode_payload cmd ≡ some p
      → HasSafeLog (forward_flight_mode_command env cmd p s).0
  unfolding forward_flight_mode_command
  forward_flight_mode_command-HasSafeLog p s h e =
      let b = flight_mode_bounds p e in
      if_cases (λ (r : UplinkApp × Bool). HasSafeLog r.0) (not env.sets_fcn_code) _ _ (λ _. h)
        (λ _. transmit-HasSafeLog env _ _ (refl, b.0, b.1) h)

  pub forward_recovery_command-HasSafeLog :
      (s : UplinkApp) → HasSafeLog s → HasSafeLog (forward_recovery_command env cmd s).0
  unfolding forward_recovery_command
  forward_recovery_command-HasSafeLog s h =
      if_cases (λ (r : UplinkApp × Bool). HasSafeLog r.0) (ltb cmd.payload_length 8) _ _ (λ _. h)
        (λ _. transmit-HasSafeLog env _ s tt h)

  pub forward_mode_command-HasSafeLog :
      (s : UplinkApp) → HasSafeLog s → HasSafeLog (forward_mode_command env cmd s).0
  unfolding forward_mode_command
  forward_mode_command-HasSafeLog s h =
      if_cases (λ (r : UplinkApp × Bool). HasSafeLog r.0) (ltb cmd.payload_length 6) _ _ (λ _. h)
        (λ _. transmit-HasSafeLog env _ s tt h)

  pub forward_diagnostic_command-HasSafeLog :
      (s : UplinkApp) → HasSafeLog s → HasSafeLog (forward_diagnostic_command env cmd s).0
  unfolding forward_diagnostic_command
  forward_diagnostic_command-HasSafeLog s h =
      if_cases (λ (r : UplinkApp × Bool). HasSafeLog r.0) (ltb cmd.payload_length 6) _ _ (λ _. h)
        (λ _. transmit-HasSafeLog env _ s tt h)

  forward_counter_mgmt_command-sent :
      (s : UplinkApp)
      → let t = (forward_counter_mgmt_command env cmd s).0 in
        (t.sent ≡ s.sent)
        ⊎ (t.sent ≡ reset_counters_cmd 0x18a0 ∷ s.sent)
        ⊎ (t.sent ≡ reset_counters_cmd 0x18c0 ∷ s.sent)
        ⊎ (t.sent ≡ reset_counters_cmd 0x18e0 ∷ s.sent)
  unfolding forward_counter_mgmt_command
  forward_counter_mgmt_command-sent s = ground arith

  pub forward_counter_mgmt_command-HasSafeLog :
      (s : UplinkApp) → HasSafeLog s → HasSafeLog (forward_counter_mgmt_command env cmd s).0
  forward_counter_mgmt_command-HasSafeLog s h = elim (forward_counter_mgmt_command-sent s) [
    | inl e ↦ rw e h
    | inr (inl e) ↦ rw e (inl refl, h)
    | inr (inr (inl e)) ↦ rw e (inr (inl refl), h)
    | inr (inr (inr e)) ↦ rw e (inr (inr refl), h)
  ]

  forward_config_command-sent :
      (s : UplinkApp)
      → let t = (forward_config_command env cmd s).0 in
        (t.sent ≡ s.sent)
        ⊎ ((12 ≤ cmd.payload_length)
            × (byte_at cmd.payload 5 ≡ 4)
            × (t.sent
                ≡ config_cmd (stamp s cmd) cmd.payload_length (take cmd.payload_length cmd.payload)
                  ∷ s.sent))
  unfolding forward_config_command
  forward_config_command-sent s = ground arith

  pub forward_config_command-HasSafeLog :
      (s : UplinkApp) → HasSafeLog s → HasSafeLog (forward_config_command env cmd s).0
  forward_config_command-HasSafeLog s h = elim (forward_config_command-sent s) [
    | inl e ↦ rw e h
    | inr f ↦ rw f.2 ((f.0, get_or-take cmd.payload_length cmd.payload 5 0 (omega arith) ∙ f.1), h)
  ]
