-- ===== src/CfsCore/Publish/Fresh.antt =====
-- What a report of cfs_core_app says about its inputs.
use cfs_telemetry_app.Common.{
  List, [], ◌∷◌, ℕ, ◌≤◌, ◌≡◌, ◌≢◌, refl, Bool, true, false, sub32, ◌∙◌, sym, ap, if◌then◌else◌,
  arith,
}
use cfs_telemetry_app.Common.Executive.{
  SaveOutcome, open_failed, write_failed, rename_failed, saved,
}
use cfs_telemetry_app.CfsCore.Health.{
  nominal, Health, TimedOut, update_health, judge, bridge_lost, clear, stabilize,
}
use cfs_telemetry_app.CfsCore.State.{StateCache, AppHkCache, App, CoreApp, CoreEnv, transmit_core}
use cfs_telemetry_app.CfsCore.Cache.{state_expired}
use cfs_telemetry_app.CfsCore.Persist.{save_core}
use cfs_telemetry_app.CfsCore.Restarts.{check_app_restarts}
use cfs_telemetry_app.CfsCore.Publish.{
  input_timed_out, app_timed_out, timed_out, report_health, save_transition, fill_health,
  publish_now, note_restart, note_restarts, count_publish,
}

-- An input that arrived within its timeout, and that its source calls valid and not stale.
pub record IsFreshInput (cache : StateCache) (now timeout : ℕ) : Type 0 where
  pub received : cache.received ≡ true
  pub recent : sub32 now cache.arrival_ms ≤ timeout
  pub valid : cache.valid ≢ 0
  pub not_stale : cache.stale ≡ 0

input_timed_out-IsFreshInput :
    (cache : StateCache) (now timeout : ℕ)
    → input_timed_out cache now timeout ≡ false
    → IsFreshInput cache now timeout
unfolding input_timed_out state_expired
input_timed_out-IsFreshInput cache now timeout h = ground arith

-- An application whose housekeeping arrived in the last 5 seconds.
pub record IsAlive (cache : AppHkCache) (now : ℕ) : Type 0 where
  pub received : cache.received ≡ true
  pub recent : sub32 now cache.last_hk_rx_ms ≤ 5000

app_timed_out-IsAlive :
    (cache : AppHkCache) (now : ℕ) → app_timed_out cache now ≡ false → IsAlive cache now
unfolding app_timed_out
app_timed_out-IsAlive cache now h = ground arith

update_health-nominal :
    (now : ℕ) (out : TimedOut) (h : Health)
    → (update_health now out h).1.health_state ≡ nominal
    → (out.bridge ≡ false)
      × ((out.ekf ≡ false)
          × ((out.local ≡ false)
              × ((out.attitude ≡ false) × ((out.uplink ≡ false) × (out.lora ≡ false)))))
unfolding update_health judge bridge_lost clear stabilize
update_health-nominal now out h n = ground arith

-- The report that the function puts in the buffer and transmits.
report_health-verdict :
    (env : CoreEnv) (now last_valid : ℕ) (out : TimedOut) (gps : Bool) (s : CoreApp)
    → let s' = report_health env now last_valid out gps s in
      (s'.health_tlm.health_state ≡ (update_health now out s.health).1.health_state)
      × (s'.health ≡ (update_health now out s.health).0)
unfolding report_health fill_health save_transition save_core transmit_core
report_health-verdict env now last_valid out gps s = (ground arith, ground arith)

update_health-recovery_requested :
    (now : ℕ) (out : TimedOut) (h : Health)
    → (update_health now out h).1.recovery_requested ≡ (if out.bridge then 1 else 0)
unfolding update_health judge bridge_lost clear stabilize
update_health-recovery_requested now out h = ground arith

report_health-recovery_requested :
    (env : CoreEnv) (now last_valid : ℕ) (out : TimedOut) (gps : Bool) (s : CoreApp)
    → (report_health env now last_valid out gps s).health_tlm.recovery_requested
      ≡ (update_health now out s.health).1.recovery_requested
unfolding report_health fill_health save_transition save_core transmit_core
report_health-recovery_requested env now last_valid out gps s = ground arith

-- The buffer of the last report does not show in the next one: a report asks for recovery exactly
-- when the bridge has timed out, whatever a recovery command has put into the buffer before.
pub publish_now-recovery_requested :
    (env : CoreEnv) (now : ℕ) (s : CoreApp)
    → (publish_now env now s).health_tlm.recovery_requested
      ≡ (if (timed_out now s).bridge then 1 else 0)
unfolding publish_now
publish_now-recovery_requested env now s =
    report_health-recovery_requested env now _ (timed_out now s) _ _
    ∙ update_health-recovery_requested now (timed_out now s) _

save_core-health : (o : SaveOutcome) (s : CoreApp) → (save_core o s).health ≡ s.health
unfolding save_core
save_core-health open_failed s = refl
save_core-health write_failed s = refl
save_core-health rename_failed s = refl
save_core-health saved s = refl

restarted_health :
    (env : CoreEnv) (now : ℕ) (apps : List App) (s : CoreApp)
    → (count_publish now (note_restarts env apps s)).health ≡ s.health
restarted_health env now [] s = refl
restarted_health env now (app ∷ apps) s =
    restarted_health env now apps (note_restart env app s)
    ∙ save_core-health env.restart_save_outcome _

-- The inputs that the health of the drone rests on.
pub record IsWellInformed (now : ℕ) (s : CoreApp) : Type 0 where
  pub attitude : IsFreshInput s.attitude_state now s.active_config.attitude_timeout_ms
  pub local : IsFreshInput s.local_state now s.active_config.local_timeout_ms
  pub ekf : IsFreshInput s.ekf_state now s.active_config.ekf_timeout_ms
  pub bridge_received : s.bridge_state.received ≡ true
  pub bridge_recent :
      sub32 now s.bridge_state.last_rx_timestamp_ms ≤ s.active_config.bridge_timeout_ms
  pub uplink : IsAlive s.uplink_app_state now
  pub lora : IsAlive s.lora_app_state now

bridge_in_time :
    (now : ℕ) (s : CoreApp)
    → (timed_out now s).bridge ≡ false
    → (s.bridge_state.received ≡ true)
      × (sub32 now s.bridge_state.last_rx_timestamp_ms ≤ s.active_config.bridge_timeout_ms)
unfolding timed_out
bridge_in_time now s h = ground arith

in_time-IsWellInformed :
    (now : ℕ) (s : CoreApp)
    → (update_health now (timed_out now s) s.health).1.health_state ≡ nominal
    → IsWellInformed now s
unfolding timed_out
in_time-IsWellInformed now s h =
    let (b, (e, (l, (a, (u, d))))) = update_health-nominal now (timed_out now s) s.health h in
    let bridge = bridge_in_time now s b in
    record {
      attitude = input_timed_out-IsFreshInput _ _ _ a;
      local = input_timed_out-IsFreshInput _ _ _ l;
      ekf = input_timed_out-IsFreshInput _ _ _ e;
      bridge_received = bridge.0;
      bridge_recent = bridge.1;
      uplink = app_timed_out-IsAlive _ _ u;
      lora = app_timed_out-IsAlive _ _ d;
    }

publish_now-verdict :
    (env : CoreEnv) (now : ℕ) (s : CoreApp)
    → (publish_now env now s).health_tlm.health_state
      ≡ (update_health now (timed_out now s) s.health).1.health_state
unfolding publish_now
publish_now-verdict env now s =
    let out = timed_out now s in
    let r = check_app_restarts now out.bridge out.uplink out.lora env.finds s.cooldowns in
    let s' : CoreApp = record s { cooldowns = r.0 } in
    (report_health-verdict env now _ out _ (count_publish now (note_restarts env r.1 s'))).0
    ∙ ap (λ h. (update_health now out h).1.health_state) (restarted_health env now r.1 s')

-- A report that says NOMINAL is true of its inputs: the attitude, the local position and the state
-- of the estimator have each arrived within the configured timeout, valid and not stale, the bridge
-- has heard the flight controller within its own, and the housekeeping of uplink_app and of
-- lora_tdm_app has arrived in the last 5 seconds.
pub nominal_report :
    (env : CoreEnv) (now : ℕ) (s : CoreApp)
    → (publish_now env now s).health_tlm.health_state ≡ nominal
    → IsWellInformed now s
nominal_report env now s h = in_time-IsWellInformed now s (sym (publish_now-verdict env now s) ∙ h)

-- The health after a cycle of the whole function is that of the judgement.
pub publish_now-health :
    (env : CoreEnv) (now : ℕ) (s : CoreApp)
    → (publish_now env now s).health ≡ (update_health now (timed_out now s) s.health).0
unfolding publish_now
publish_now-health env now s =
    let out = timed_out now s in
    let r = check_app_restarts now out.bridge out.uplink out.lora env.finds s.cooldowns in
    let s' : CoreApp = record s { cooldowns = r.0 } in
    (report_health-verdict env now _ out _ (count_publish now (note_restarts env r.1 s'))).1
    ∙ ap (λ h. (update_health now out h).0) (restarted_health env now r.1 s')
