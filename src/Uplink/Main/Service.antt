-- ===== src/Uplink/Main/Service.antt =====
-- The periodic service and the refusals of the dispatcher of uplink_app.
use cfs_telemetry_app.Common.{
  ℕ, ◌+◌, ◌≤◌, ◌<◌, ◌≡◌, ◌≢◌, ◌⊎◌, inl, inr, refl, ap, ◌∙◌, Option, none, some, u8, sub32, arith,
}
use cfs_telemetry_app.Common.Time.{get_time_ms}
use cfs_telemetry_app.Uplink.State.{UplinkApp, Env}
use cfs_telemetry_app.Uplink.Telemetry.{update_status_telemetry}
use cfs_telemetry_app.Uplink.Persist.{save_state, check_boot_survival}
use cfs_telemetry_app.Uplink.Main.{
  CommandMsg, CommandSizes, process_code, process_command, verify_cmd_length, service_prototype,
}

check_boot_survival-kept :
    (env : Env) (s : UplinkApp)
    → let t = check_boot_survival env s in
      (t.last_publish_time_ms ≡ s.last_publish_time_ms)
      × (t.sent ≡ s.sent)
      × (t.publish_count ≡ s.publish_count)
unfolding check_boot_survival save_state
check_boot_survival-kept env s = (ground arith, ground arith, ground arith)

service_prototype_early :
    (env : Env) (s : UplinkApp)
    → sub32 (get_time_ms env.tlm_time) s.last_publish_time_ms < 1000
    → service_prototype env s ≡ check_boot_survival env s
unfolding service_prototype
service_prototype_early env s h = ground (arith, (check_boot_survival-kept env s).0)

service_prototype_due :
    (env : Env) (s : UplinkApp)
    → 1000 ≤ sub32 (get_time_ms env.tlm_time) s.last_publish_time_ms
    → service_prototype env s
      ≡ update_status_telemetry env (get_time_ms env.tlm_time) (check_boot_survival env s)
unfolding service_prototype
service_prototype_due env s h = ground (arith, (check_boot_survival-kept env s).0)

update_status_telemetry-time :
    (env : Env) (now : ℕ) (s : UplinkApp)
    → now ≢ 0
    → (update_status_telemetry env now s).last_publish_time_ms ≡ now
unfolding update_status_telemetry
update_status_telemetry-time env now s h = ground arith

-- After a turn of the service that published a status, at a time that is not 0, no turn of the
-- service within the next 1000 ms publishes one, also where the clock of 32 bits wraps around in
-- between; it leaves the bus and the counter of publications alone.
pub service_prototype_spaced :
    (env env' : Env) (s : UplinkApp)
    → 1000 ≤ sub32 (get_time_ms env.tlm_time) s.last_publish_time_ms
    → get_time_ms env.tlm_time ≢ 0
    → sub32 (get_time_ms env'.tlm_time) (get_time_ms env.tlm_time) < 1000
    → let t = service_prototype env s in
      ((service_prototype env' t).sent ≡ t.sent)
      × ((service_prototype env' t).publish_count ≡ t.publish_count)
service_prototype_spaced env env' s due n soon =
    let t = service_prototype env s in
    let time : t.last_publish_time_ms ≡ get_time_ms env.tlm_time =
      ap (λ u. u.last_publish_time_ms) (service_prototype_due env s due)
      ∙ update_status_telemetry-time env _ (check_boot_survival env s) n in
    let early = service_prototype_early env' t (rw time soon) in
    let kept = check_boot_survival-kept env' t in
    (ap (λ u. u.sent) early ∙ kept.1, ap (λ u. u.publish_count) early ∙ kept.2)

-- The session is marked as survived at most once, in the first turn at least 120 seconds after the
-- boot: until then the turns do not touch the state file, and then the file is not written again.
pub service_prototype-state_file :
    (env : Env) (s : UplinkApp)
    → (s.survived_mark ≢ 0) ⊎ (sub32 (get_time_ms env.rx_time) s.boot_start_ms < 120000)
    → ((service_prototype env s).state_file ≡ s.state_file)
      × ((service_prototype env s).survived_mark ≡ s.survived_mark)
unfolding service_prototype update_status_telemetry check_boot_survival
service_prototype-state_file env s h = (ground arith, ground arith)

-- A function code and a size that the dispatcher hands to a handler.
abbrev pub IsDispatched : CommandSizes → Option ℕ → ℕ → Type 0
IsDispatched sizes fcn size =
    ((fcn ≡ some 0) × (size ≡ sizes.header_only))
    ⊎ ((fcn ≡ some 1) × (size ≡ sizes.header_only))
    ⊎ ((fcn ≡ some 2) × (size ≡ sizes.process_uplink_cmd))

process_code_refused :
    (sizes : CommandSizes) (env : Env) (msg : CommandMsg) (s : UplinkApp) (fcn : Option ℕ)
    → ¬ (IsDispatched sizes fcn msg.size)
    → process_code sizes env msg s fcn ≡ record s { err_counter = u8 (s.err_counter + 1) }
unfolding process_code verify_cmd_length
process_code_refused sizes env msg s none h = refl
process_code_refused sizes env msg s (some code) h =
    let not_noop : ¬ ((code ≡ 0) × (msg.size ≡ sizes.header_only)) =
      λ p. h (inl (ap some p.0, p.1)) in
    let not_reset : ¬ ((code ≡ 1) × (msg.size ≡ sizes.header_only)) =
      λ p. h (inr (inl (ap some p.0, p.1))) in
    let not_uplink : ¬ ((code ≡ 2) × (msg.size ≡ sizes.process_uplink_cmd)) =
      λ p. h (inr (inr (ap some p.0, p.1))) in
    ground (arith, not_noop, not_reset, not_uplink)

-- A command message with an unreadable or unknown function code, or with a size that is not that
-- of its command, changes the error counter and nothing else.
pub process_command_refused :
    (sizes : CommandSizes) (env : Env) (msg : CommandMsg) (s : UplinkApp)
    → ¬ (IsDispatched sizes msg.fcn_code msg.size)
    → process_command sizes env msg s ≡ record s { err_counter = u8 (s.err_counter + 1) }
unfolding process_command
process_command_refused sizes env msg s h = process_code_refused sizes env msg s msg.fcn_code h
