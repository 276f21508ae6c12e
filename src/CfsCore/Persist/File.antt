-- ===== src/CfsCore/Persist/File.antt =====
-- The state file of cfs_core_app: what a load gives back of a save.
use cfs_telemetry_app.Common.{◌<◌, ◌≡◌, sym, true, some, take, arith}
use mathlib.Core.Path.{subst}
use cfs_telemetry_app.Common.Executive.{saved}
use cfs_telemetry_app.CfsCore.State.{CoreApp}
use cfs_telemetry_app.CfsCore.Persist.{
  core_body, compute_state_checksum, encode_core, save_core, is_core_intact, restore_core,
  load_core_file, load_core,
}

-- The widths of the fields that the file holds.
pub record FitsCoreFile (s : CoreApp) : Type 0 where
  pub health : s.health.last_health_state < 256
  pub fault : s.health.last_fault_code < 256
  pub attitude : s.active_config.attitude_timeout_ms < 4294967296
  pub local : s.active_config.local_timeout_ms < 4294967296
  pub gps : s.active_config.gps_timeout_ms < 4294967296
  pub ekf : s.active_config.ekf_timeout_ms < 4294967296
  pub bridge : s.active_config.bridge_timeout_ms < 4294967296
  pub publish : s.active_config.publish_period_ms < 4294967296
  pub bridge_restarts : s.cooldowns.bridge.restart_count < 4294967296
  pub uplink_restarts : s.cooldowns.uplink.restart_count < 4294967296
  pub lora_restarts : s.cooldowns.lora.restart_count < 4294967296

pub encode_core-intact : (s : CoreApp) → is_core_intact (take 52 (encode_core s)) ≡ true
unfolding encode_core core_body is_core_intact compute_state_checksum
encode_core-intact s = ground arith

-- What a load takes from a file that a save wrote.
pub record IsCoreRestored (s t u : CoreApp) : Type 0 where
  pub health : u.health.last_health_state ≡ s.health.last_health_state
  pub fault : u.health.last_fault_code ≡ s.health.last_fault_code
  pub config : u.active_config ≡ s.active_config
  pub bridge : u.cooldowns.bridge.restart_count ≡ s.cooldowns.bridge.restart_count
  pub uplink : u.cooldowns.uplink.restart_count ≡ s.cooldowns.uplink.restart_count
  pub lora : u.cooldowns.lora.restart_count ≡ s.cooldowns.lora.restart_count
  pub file : u.state_file ≡ t.state_file

restore_core-IsCoreRestored :
    (s t : CoreApp) → FitsCoreFile s → IsCoreRestored s t (restore_core (take 52 (encode_core s)) t)
unfolding restore_core encode_core core_body
restore_core-IsCoreRestored s t f = ground arith

pub load_core_file-IsCoreRestored :
    (s t : CoreApp) → FitsCoreFile s → IsCoreRestored s t (load_core_file t (some (encode_core s)))
unfolding load_core_file
load_core_file-IsCoreRestored s t f = rw (encode_core-intact s) (restore_core-IsCoreRestored s t f)

-- A load in any state gives back what a successful save wrote: the health state and fault, the
-- active configuration and the counts of the restarts. The saved fields have the widths that the
-- file holds.
pub load_core-save_core :
    (s t : CoreApp)
    → FitsCoreFile s
    → t.state_file ≡ (save_core saved s).state_file
    → IsCoreRestored s t (load_core true t)
unfolding load_core save_core
load_core-save_core s t f h =
    subst (λ bytes. IsCoreRestored s t (load_core_file t bytes)) (sym h)
      (load_core_file-IsCoreRestored s t f)
