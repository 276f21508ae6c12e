-- ===== src/CfsCore/Health.antt =====
-- The judgement of the system health in CFS_CORE_APP_UpdateHealth (cfs_core_app/fsw/src/
-- cfs_core_app_utils.c): the chain of faults, and the transition that follows it. What has timed
-- out is an argument; CfsCore/Publish computes it and does the rest of the function.
pub mod Stability
pub mod Tests
use cfs_telemetry_app.Common.{
  ℕ, Bool, true, false, not, List, [], ◌∷◌, leb, ltb, ◌==◌, if◌then◌else◌, sub32,
}

-- CFS_CORE_APP_HealthState_t and CFS_CORE_APP_FaultCode_t. The state keeps them in bytes, and a state
-- file can hold other bytes.
abbrev pub nominal : ℕ
nominal = 0

abbrev pub degraded : ℕ
degraded = 1

abbrev pub recovery : ℕ
recovery = 2

abbrev pub failed : ℕ
failed = 3

abbrev pub fault_none : ℕ
fault_none = 0

abbrev pub bridge_timeout : ℕ
bridge_timeout = 1

abbrev pub ekf_invalid : ℕ
ekf_invalid = 3

abbrev pub local_timeout : ℕ
local_timeout = 4

abbrev pub attitude_timeout : ℕ
attitude_timeout = 5

abbrev pub uplink_timeout : ℕ
uplink_timeout = 6

abbrev pub lora_timeout : ℕ
lora_timeout = 7

-- The Boolean variables of the function.
pub record TimedOut : Type 0 where
  pub bridge : Bool
  pub ekf : Bool
  pub local : Bool
  pub attitude : Bool
  pub uplink : Bool
  pub lora : Bool

-- The fields of CFS_CORE_APP_Data_t that the judgement reads and writes.
pub record Health : Type 0 where
  pub recovery_start_ms : ℕ  -- uint32
  pub nominal_eligible_since : ℕ  -- uint32
  pub last_health_state : ℕ  -- uint8
  pub last_fault_code : ℕ  -- uint8

-- The fields of SYSTEM_HEALTH_TLM_t that the judgement fills.
pub record Verdict : Type 0 where
  pub health_state : ℕ
  pub fault_code : ℕ
  pub recovery_requested : ℕ

abbrev pub failed_escalation_ms : ℕ
failed_escalation_ms = 30000

abbrev pub nominal_stability_ms : ℕ
nominal_stability_ms = 10000

abbrev pub start_if_zero : ℕ → ℕ → ℕ
start_if_zero now since = if since == 0 then now else since

-- The five branches of DEGRADED.
abbrev pub degrade : ℕ → Health → Health × Verdict
degrade fault h = (
  record h { recovery_start_ms = 0; nominal_eligible_since = 0 },
  record { health_state = degraded; fault_code = fault; recovery_requested = 0 },
)

unfoldable pub bridge_lost : ℕ → Health → Health × Verdict
bridge_lost now h =
    let start = start_if_zero now h.recovery_start_ms in
    (
      record h { recovery_start_ms = start; nominal_eligible_since = 0 },
      record {
        health_state = if leb failed_escalation_ms (sub32 now start) then failed else recovery;
        fault_code = bridge_timeout;
        recovery_requested = 1;
      },
    )

-- No fault in a state that is not NOMINAL.
unfoldable pub stabilize : ℕ → Health → Health × Verdict
stabilize now h =
    let since = start_if_zero now h.nominal_eligible_since in
    if leb nominal_stability_ms (sub32 now since)
    then (
      record h { recovery_start_ms = 0; nominal_eligible_since = 0 },
      record { health_state = nominal; fault_code = fault_none; recovery_requested = 0 },
    )
    else (
      record h { recovery_start_ms = 0; nominal_eligible_since = since },
      record { health_state = degraded; fault_code = fault_none; recovery_requested = 0 },
    )

unfoldable pub clear : ℕ → Health → Health × Verdict
unfolding stabilize
clear now h =
    if h.last_health_state == nominal
    then (
      record h { recovery_start_ms = 0; nominal_eligible_since = 0 },
      record { health_state = nominal; fault_code = fault_none; recovery_requested = 0 },
    )
    else stabilize now h

unfoldable pub judge : ℕ → TimedOut → Health → Health × Verdict
unfolding bridge_lost clear
judge now out h =
    if out.bridge
    then bridge_lost now h
    else if out.ekf
    then degrade ekf_invalid h
    else if out.local
    then degrade local_timeout h
    else if out.attitude
    then degrade attitude_timeout h
    else if out.uplink
    then degrade uplink_timeout h
    else if out.lora
    then degrade lora_timeout h
    else clear now h

abbrev pub is_transition : Verdict → Health → Bool
is_transition v h = not (v.health_state == h.last_health_state)

unfoldable pub note_transition : Verdict → Health → Health
note_transition v h =
    if is_transition v h
    then record h { last_health_state = v.health_state; last_fault_code = v.fault_code }
    else h

unfoldable pub update_health : ℕ → TimedOut → Health → Health × Verdict
unfolding judge note_transition
update_health now out h = let (next, v) = judge now out h in (note_transition v next, v)
