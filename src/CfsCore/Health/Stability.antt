-- ===== src/CfsCore/Health/Stability.antt =====
-- The health state of cfs_core_app over series of cycles.
use cfs_telemetry_app.Common.{
  ℕ, ◌≤◌, ◌<◌, ◌≡◌, ◌≢◌, ◌⊎◌, inl, inr, refl, true, false, List, [], ◌∷◌, All, leb, if◌then◌else◌,
  sub32, arith,
}
use cfs_telemetry_app.CfsCore.Health.{
  nominal, degraded, recovery, failed, TimedOut, Health, judge, bridge_lost, stabilize, clear,
  note_transition, update_health,
}

abbrev pub all_in_time : TimedOut
all_in_time = record {
  bridge = false;
  ekf = false;
  local = false;
  attitude = false;
  uplink = false;
  lora = false;
}

abbrev pub HasFault : TimedOut → Type 0
HasFault out =
    (out.bridge ≡ true)
    ⊎ (out.ekf ≡ true)
    ⊎ (out.local ≡ true)
    ⊎ (out.attitude ≡ true)
    ⊎ (out.uplink ≡ true)
    ⊎ (out.lora ≡ true)

-- Cycles at given times, all without a fault.
pub clear_cycles : List ℕ → Health → Health
clear_cycles [] h = h
clear_cycles (now ∷ times) h = clear_cycles times (update_health now all_in_time h).0

-- Cycles at given times, all with the bridge timed out.
pub lost_cycles : List (ℕ × TimedOut) → Health → Health
lost_cycles [] h = h
lost_cycles ((now, out) ∷ cycles) h =
    lost_cycles cycles (update_health now (record out { bridge = true }) h).0

update_health-fault :
    (now : ℕ) (out : TimedOut) (h : Health)
    → HasFault out
    → ((update_health now out h).0.last_health_state ≢ nominal)
      × ((update_health now out h).0.nominal_eligible_since ≡ 0)
unfolding update_health judge bridge_lost clear stabilize note_transition
update_health-fault now out h f = (ground arith, ground arith)

-- A cycle without a fault in a state that is not NOMINAL.
update_health-clear :
    (now since : ℕ) (h : Health)
    → h.last_health_state ≢ nominal
    → (h.nominal_eligible_since ≡ since) ⊎ ((h.nominal_eligible_since ≡ 0) × (now ≡ since))
    → since ≢ 0
    → sub32 now since < 10000
    → ((update_health now all_in_time h).0.last_health_state ≡ degraded)
      × ((update_health now all_in_time h).0.nominal_eligible_since ≡ since)
unfolding update_health judge bridge_lost clear stabilize note_transition
update_health-clear now since h n s z k = (ground arith, ground arith)

update_health-stable :
    (now since : ℕ) (h : Health)
    → h.last_health_state ≢ nominal
    → h.nominal_eligible_since ≡ since
    → since ≢ 0
    → 10000 ≤ sub32 now since
    → (update_health now all_in_time h).0.last_health_state ≡ nominal
unfolding update_health judge bridge_lost clear stabilize note_transition
update_health-stable now since h n s z k = ground arith

-- The cycles from `since` on that come less than 10 seconds after it.
abbrev pub Within : ℕ → List ℕ → Type 0
Within since = All (λ now. sub32 now since < 10000)

clear_cycles-degraded :
    (times : List ℕ) (since : ℕ) (h : Health)
    → h.last_health_state ≢ nominal
    → h.nominal_eligible_since ≡ since
    → since ≢ 0
    → Within since times
    → ((clear_cycles times h).last_health_state ≢ nominal)
      × ((clear_cycles times h).nominal_eligible_since ≡ since)
unfolding clear_cycles
clear_cycles-degraded [] since h n s z w = (n, s)
clear_cycles-degraded (now ∷ times) since h n s z w =
    let step = update_health-clear now since h n (inl s) z w.0 in
    clear_cycles-degraded times since (update_health now all_in_time h).0
      (λ e. ground (arith, step.0, e)) step.1 z w.1

-- After a cycle with a fault, and with the first cycle without one at a time that is not 0: the
-- state is not NOMINAL in any cycle that comes less than 10 seconds after that first one, and it
-- is NOMINAL in the next cycle that comes 10 seconds or more after it. No cycle after the faulted one
-- has a fault, the last one included.
pub update_health-stability :
    (faulted since now : ℕ) (out : TimedOut) (times : List ℕ) (h : Health)
    → HasFault out
    → since ≢ 0
    → Within since times
    → 10000 ≤ sub32 now since
    → let waiting =
        clear_cycles times (update_health since all_in_time (update_health faulted out h).0).0 in
      (waiting.last_health_state ≢ nominal)
      × ((update_health now all_in_time waiting).0.last_health_state ≡ nominal)
update_health-stability faulted since now out times h f z w late =
    let fault = update_health-fault faulted out h f in
    let first =
      update_health-clear since since (update_health faulted out h).0 fault.0 (inr (fault.1, refl))
        z (omega arith) in
    let wait =
      clear_cycles-degraded times since
        (update_health since all_in_time (update_health faulted out h).0).0
        (λ e. ground (arith, first.0, e)) first.1 z w in
    (
      wait.0,
      update_health-stable now since
          (clear_cycles times (update_health since all_in_time (update_health faulted out h).0).0)
          wait.0 wait.1 z late,
    )

update_health-lost :
    (now start : ℕ) (out : TimedOut) (h : Health)
    → (h.recovery_start_ms ≡ start) ⊎ ((h.recovery_start_ms ≡ 0) × (now ≡ start))
    → start ≢ 0
    → let t = (update_health now (record out { bridge = true }) h).0 in
      (t.recovery_start_ms ≡ start)
      × (t.last_health_state ≡ (if leb 30000 (sub32 now start) then failed else recovery))
unfolding update_health judge bridge_lost note_transition
update_health-lost now start out h s z = (ground arith, ground arith)

lost_cycles-start :
    (cycles : List (ℕ × TimedOut)) (start : ℕ) (h : Health)
    → h.recovery_start_ms ≡ start
    → start ≢ 0
    → (lost_cycles cycles h).recovery_start_ms ≡ start
unfolding lost_cycles
lost_cycles-start [] start h s z = s
lost_cycles-start ((now, out) ∷ cycles) start h s z =
    lost_cycles-start cycles start (update_health now (record out { bridge = true }) h).0
      (update_health-lost now start out h (inl s) z).0 z

-- While the bridge stays timed out, whatever else times out and however the cycles come, the state
-- is RECOVERY for the first 30 seconds since the cycle that noticed it, and FAILED from then on.
-- That cycle is at a time that is not 0, and the bridge was in time before it.
pub update_health-escalation :
    (start now : ℕ) (out out' : TimedOut) (cycles : List (ℕ × TimedOut)) (h : Health)
    → h.recovery_start_ms ≡ 0
    → start ≢ 0
    → let lost = lost_cycles cycles (update_health start (record out { bridge = true }) h).0 in
      (update_health now (record out' { bridge = true }) lost).0.last_health_state
      ≡ (if leb 30000 (sub32 now start) then failed else recovery)
update_health-escalation start now out out' cycles h s z =
    let first = update_health-lost start start out h (inr (s, refl)) z in
    let later =
      lost_cycles-start cycles start (update_health start (record out { bridge = true }) h).0
        first.0 z in
    (update_health-lost now start out'
      (lost_cycles cycles (update_health start (record out { bridge = true }) h).0) (inl later) z).1
