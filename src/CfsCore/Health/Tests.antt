-- ===== src/CfsCore/Health/Tests.antt =====
-- Runs of the theorems about the health of cfs_core_app.
use cfs_telemetry_app.Common.{◌≡◌, ◌≢◌, inl, inr, refl, true, [], ◌∷◌, arith}
use cfs_telemetry_app.CfsCore.Health.{nominal, failed, fault_none, TimedOut, Health, update_health}
use cfs_telemetry_app.CfsCore.Health.Stability.{
  all_in_time, clear_cycles, lost_cycles, update_health-stability, update_health-escalation,
}

abbrev started : Health
started = record {
  recovery_start_ms = 0;
  nominal_eligible_since = 0;
  last_health_state = nominal;
  last_fault_code = fault_none;
}

abbrev local_late : TimedOut
local_late = record all_in_time { local = true }

update_health-stability_example :
    let waiting =
      clear_cycles
        (3000 ∷ 11000 ∷ [])
        (update_health 2000 all_in_time (update_health 1000 local_late started).0).0 in
    (waiting.last_health_state ≢ nominal)
    × ((update_health 12000 all_in_time waiting).0.last_health_state ≡ nominal)
update_health-stability_example =
    update_health-stability 1000 2000 12000 local_late (3000 ∷ 11000 ∷ []) started
      (inr (inr (inl refl))) (omega arith) (omega arith, (omega arith, tt)) (omega arith)

update_health-escalation_example :
    let lost =
      lost_cycles
        ((2000, local_late) ∷ [])
        (update_health 1000 (record all_in_time { bridge = true }) started).0 in
    (update_health 31000 (record all_in_time { bridge = true }) lost).0.last_health_state ≡ failed
update_health-escalation_example =
    update_health-escalation 1000 31000 all_in_time all_in_time ((2000, local_late) ∷ []) started
      refl (omega arith)
