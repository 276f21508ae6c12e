-- ===== src/CfsCore/Main/Configured.antt =====
-- The configuration of cfs_core_app stays within its bounds, over sessions and restarts.
use cfs_telemetry_app.Common.{
  List, [], ◌∷◌, ℕ, ◌<◌, ◌≡◌, refl, Bool, true, false, List, ◌∷◌, Option, none, some, if_cases,
  arith, ◌==◌,
}
use cfs_telemetry_app.Common.Executive.{
  SaveOutcome, open_failed, write_failed, rename_failed, saved,
}
use cfs_telemetry_app.CfsCore.Health.{
  Health, TimedOut, update_health, judge, bridge_lost, clear, stabilize, note_transition,
}
use cfs_telemetry_app.CfsCore.State.{
  ConfigParams, Cooldowns, App, CoreMessage, CoreApp, CoreEnv, transmit_core,
}
use cfs_telemetry_app.CfsCore.Restarts.{check_app_restart, check_app_restarts}
use cfs_telemetry_app.CfsCore.Persist.{encode_core, save_core}
use cfs_telemetry_app.CfsCore.Persist.File.{FitsCoreFile}
use cfs_telemetry_app.Common.Time.{get_time_ms}
use cfs_telemetry_app.CfsCore.Config.Outcome.{IsInRange, set_param-IsInRange}
use cfs_telemetry_app.CfsCore.Config.Cases.{process_config_command_cases}
use cfs_telemetry_app.CfsCore.Config.{
  ConfigCmd, publish_exec_result, refuse_config, answer_refusal, has_short_param, activate_config,
  apply_config, process_config_command,
}
use cfs_telemetry_app.CfsCore.Main.{
  StateMsg, no_msg_id, bridge_state_hk, uplink_hk, lora_hk, attitude, ekf_local, gps_raw,
  ekf_status, fc_mission_readback, route_update_msg, has_msg_id, take_state, process_state_message,
}
use cfs_telemetry_app.CfsCore.Publish.{
  timed_out, save_transition, report_health, publish_now, publish_health, note_restart,
  note_restarts,
}

-- No file, or one that was saved with a configuration in its bounds.
abbrev pub IsGoodFile : Option (List ℕ) → Type 0
IsGoodFile none = Unit
IsGoodFile (some bytes) =
    (t : CoreApp) × (bytes ≡ encode_core t) × FitsCoreFile t × IsInRange t.active_config

pub record IsByteHealth (h : Health) : Type 0 where
  pub state : h.last_health_state < 256
  pub fault : h.last_fault_code < 256

pub record AreWordCounts (cs : Cooldowns) : Type 0 where
  pub bridge : cs.bridge.restart_count < 4294967296
  pub uplink : cs.uplink.restart_count < 4294967296
  pub lora : cs.lora.restart_count < 4294967296

-- What a session keeps of its configuration, its health, its counts and its file.
pub record IsKept (c : ConfigParams) (h : Health) (cs : Cooldowns) (f : Option (List ℕ))
    : Type 0 where
  pub range : IsInRange c
  pub health : IsByteHealth h
  pub counts : AreWordCounts cs
  pub file : IsGoodFile f

abbrev pub IsConfigured : CoreApp → Type 0
IsConfigured s = IsKept s.active_config s.health s.cooldowns s.state_file

IsConfigured-FitsCoreFile : (s : CoreApp) → IsConfigured s → FitsCoreFile s
IsConfigured-FitsCoreFile s k = ground (arith, k.range, k.health, k.counts)

pub save_core-IsConfigured :
    (o : SaveOutcome) (s : CoreApp) → IsConfigured s → IsConfigured (save_core o s)
unfolding save_core
save_core-IsConfigured open_failed s k = k
save_core-IsConfigured write_failed s k = k
save_core-IsConfigured rename_failed s k = k
save_core-IsConfigured saved s k = record {
  range = k.range;
  health = k.health;
  counts = k.counts;
  file = (s, refl, IsConfigured-FitsCoreFile s k, k.range);
}

pub transmit_core-IsConfigured :
    (env : CoreEnv) (m : CoreMessage) (s : CoreApp)
    → IsConfigured s
    → IsConfigured (transmit_core env m s)
unfolding transmit_core
transmit_core-IsConfigured env m s k =
    if_cases IsConfigured (env.delivers m) (record s { sent = m ∷ s.sent }) s (λ _. k) (λ _. k)

update_health-IsByteHealth :
    (now : ℕ) (out : TimedOut) (h : Health)
    → IsByteHealth h
    → IsByteHealth (update_health now out h).0
unfolding update_health judge bridge_lost clear stabilize note_transition
update_health-IsByteHealth now out h b = ground arith

check_app_restarts-AreWordCounts :
    (now : ℕ) (b u l : Bool) (finds : App → Bool) (cs : Cooldowns)
    → AreWordCounts cs
    → AreWordCounts (check_app_restarts now b u l finds cs).0
unfolding check_app_restarts check_app_restart
check_app_restarts-AreWordCounts now b u l finds cs w = ground arith

note_restarts-IsConfigured :
    (env : CoreEnv) (apps : List App) (s : CoreApp)
    → IsConfigured s
    → IsConfigured (note_restarts env apps s)
note_restarts-IsConfigured env [] s k = k
note_restarts-IsConfigured env (app ∷ apps) s k =
    note_restarts-IsConfigured env apps (note_restart env app s) (
      save_core-IsConfigured env.restart_save_outcome _
        (record { range = k.range; health = k.health; counts = k.counts; file = k.file }))

save_transition-IsConfigured :
    (env : CoreEnv) (b : Bool) (s : CoreApp)
    → IsConfigured s
    → IsConfigured (save_transition env b s)
unfolding save_transition
save_transition-IsConfigured env true s k = save_core-IsConfigured env.save_outcome s k
save_transition-IsConfigured env false s k = k

report_health-IsConfigured :
    (env : CoreEnv) (now last_valid : ℕ) (out : TimedOut) (gps : Bool) (s : CoreApp)
    → IsConfigured s
    → IsConfigured (report_health env now last_valid out gps s)
unfolding report_health
report_health-IsConfigured env now last_valid out gps s k =
    let k' : IsKept s.active_config (update_health now out s.health).0 s.cooldowns s.state_file =
      record {
        range = k.range;
        health = update_health-IsByteHealth now out s.health k.health;
        counts = k.counts;
        file = k.file;
      } in
    transmit_core-IsConfigured env _ _ (save_transition-IsConfigured env _ _ k')

publish_now-IsConfigured :
    (env : CoreEnv) (now : ℕ) (s : CoreApp) → IsConfigured s → IsConfigured (publish_now env now s)
unfolding publish_now
publish_now-IsConfigured env now s k = report_health-IsConfigured env now _ _ _ _ (
    let r =
      check_app_restarts now (timed_out now s).bridge (timed_out now s).uplink
        (timed_out now s).lora env.finds s.cooldowns in
    note_restarts-IsConfigured env r.1 (record s { cooldowns = r.0 })
      (record {
        range = k.range;
        health = k.health;
        counts = check_app_restarts-AreWordCounts now _ _ _ env.finds s.cooldowns k.counts;
        file = k.file;
      }))

pub publish_health-IsConfigured :
    (env : CoreEnv) (now : ℕ) (force : Bool) (s : CoreApp)
    → IsConfigured s
    → IsConfigured (publish_health env now force s)
unfolding publish_health
publish_health-IsConfigured env now force s k =
    if_cases IsConfigured _ s (publish_now env now s) (λ _. k)
      (λ _. publish_now-IsConfigured env now s k)

take_state-IsConfigured :
    (now : ℕ) (msg : StateMsg) (s : CoreApp) → IsConfigured s → IsConfigured (take_state now msg s)
unfolding take_state
take_state-IsConfigured now no_msg_id s k = k
take_state-IsConfigured now (bridge_state_hk link error rx) s k = k
take_state-IsConfigured now uplink_hk s k = k
take_state-IsConfigured now lora_hk s k = k
take_state-IsConfigured now (attitude msg floats) s k = k
take_state-IsConfigured now (ekf_local msg floats) s k = k
take_state-IsConfigured now (gps_raw msg) s k = k
take_state-IsConfigured now (ekf_status msg) s k = k
take_state-IsConfigured now (fc_mission_readback msg) s k = k
take_state-IsConfigured now (route_update_msg msg) s k =
    if_cases IsConfigured (msg.route_type == 1) _ s (λ _. k) (λ _. k)

pub process_state_message-IsConfigured :
    (env : CoreEnv) (msg : StateMsg) (s : CoreApp)
    → IsConfigured s
    → IsConfigured (process_state_message env msg s)
unfolding process_state_message
process_state_message-IsConfigured env msg s k =
    let k' = take_state-IsConfigured (get_time_ms env.time) msg s k in
    if_cases IsConfigured (has_msg_id msg)
      (publish_health env (get_time_ms env.time) true (take_state (get_time_ms env.time) msg s))
      (take_state (get_time_ms env.time) msg s)
      (λ _. publish_health-IsConfigured env (get_time_ms env.time) true _ k') (λ _. k')

pub publish_exec_result-IsConfigured :
    (env : CoreEnv) (sequence class : ℕ) (ok : Bool) (detail : ℕ) (s : CoreApp)
    → IsConfigured s
    → IsConfigured (publish_exec_result env sequence class ok detail s)
unfolding publish_exec_result
publish_exec_result-IsConfigured env sequence class ok detail s k =
    transmit_core-IsConfigured env _ s k

apply_config-IsConfigured :
    (env : CoreEnv) (msg : ConfigCmd) (pending : Option ConfigParams) (s : CoreApp)
    → ((c : ConfigParams) → pending ≡ some c → IsInRange c)
    → IsConfigured s
    → IsConfigured (apply_config env msg pending s)
unfolding activate_config
apply_config-IsConfigured env msg none s r k = publish_exec_result-IsConfigured env _ _ _ _ _ k
apply_config-IsConfigured env msg (some c) s r k =
    if_cases IsConfigured (has_short_param c) _ _
      (λ _. publish_exec_result-IsConfigured env _ _ _ _ _ k)
      (λ _. publish_exec_result-IsConfigured env _ _ _ _ _ (
        save_core-IsConfigured env.save_outcome _
          (record { range = r c refl; health = k.health; counts = k.counts; file = k.file })))

refused :
    (env : CoreEnv) (msg : ConfigCmd) (result : ℕ) (s : CoreApp)
    → IsConfigured s
    → IsConfigured (answer_refusal env msg result s)
refused env msg result s k =
    publish_exec_result-IsConfigured env msg.source_sequence 1 false result (refuse_config result s)
      k

pub process_config_command-IsConfigured :
    (env : CoreEnv) (msg : ConfigCmd) (s : CoreApp)
    → IsConfigured s
    → IsConfigured (process_config_command env msg s)
process_config_command-IsConfigured env msg s k =
    process_config_command_cases env msg s IsConfigured (λ r _. refused env msg r s k) (λ _. k)
      (λ v.
        apply_config-IsConfigured env msg _ s
          (λ c e. set_param-IsInRange _ _ s.active_config c k.range v e) k)
