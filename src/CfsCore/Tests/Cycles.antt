-- ===== src/CfsCore/Tests/Cycles.antt =====
-- Runs of the theorems about the restarts, the caches and the reports.
use cfs_telemetry_app.Common.{◌≡◌, ◌⊎◌, refl, true, [], ◌∷◌, if◌then◌else◌, arith}
use cfs_telemetry_app.CfsCore.Health.{
  nominal, update_health, judge, clear, stabilize, note_transition,
}
use cfs_telemetry_app.CfsCore.State.{CacheCounts, Cooldowns, lora_app, transmit_core}
use cfs_telemetry_app.CfsCore.Cache.{StateTlm, state_expired}
use cfs_telemetry_app.CfsCore.Cache.Order.{update_all, update_all-expired}
use cfs_telemetry_app.CfsCore.Restarts.{check_app_restarts, check_app_restart}
use cfs_telemetry_app.CfsCore.Restarts.Spacing.{
  restart_cycle, restarts, AreSingle, IsSpaced, restarts-IsSpaced,
}
use cfs_telemetry_app.CfsCore.Restarts.Turns.{Restarts, lora_restart_turn}
use cfs_telemetry_app.CfsCore.Persist.{save_core}
use cfs_telemetry_app.CfsCore.Publish.{
  timed_out, input_timed_out, app_timed_out, fill_health, last_valid_input, save_transition,
  report_health, publish_now,
}
use cfs_telemetry_app.CfsCore.Publish.Fresh.{
  IsWellInformed, nominal_report, publish_now-recovery_requested,
}
use cfs_telemetry_app.CfsCore.Main.{core_initial}
use cfs_telemetry_app.CfsCore.Tests.Data.{world, fresh_cache, informed, all_out}

-- All three wait since the second 1, and are due at the second 6.
abbrev waiting : Cooldowns
waiting = record {
  bridge = record { restart_count = 0; next_restart_ms = 6000 };
  uplink = record { restart_count = 0; next_restart_ms = 6000 };
  lora = record { restart_count = 0; next_restart_ms = 6000 };
}

restarts-IsSpaced_example :
    let cycles = all_out 6000 ∷ all_out 6200 ∷ all_out 6400 ∷ all_out 11000 ∷ [] in
    AreSingle cycles waiting × IsSpaced (restarts cycles waiting)
restarts-IsSpaced_example =
    restarts-IsSpaced (all_out 6000 ∷ all_out 6200 ∷ all_out 6400 ∷ all_out 11000 ∷ []) waiting 0
      (omega arith)

lora_restart_turn_example :
    let cs' = (restart_cycle (all_out 6000) waiting).0 in
    let cs'' = (restart_cycle (all_out 6200) cs').0 in
    Restarts (all_out 6000) waiting lora_app
    ⊎ Restarts (all_out 6200) cs' lora_app
    ⊎ Restarts (all_out 6400) cs'' lora_app
lora_restart_turn_example =
    lora_restart_turn (all_out 6000) (all_out 6200) (all_out 6400) waiting
      (omega arith, omega arith) (omega arith) (omega arith)
      (record { out = refl; found = refl }, record { out = refl; found = refl })
      (record { out = refl; found = refl }) (record { armed = omega arith; over = omega arith })

-- The bridge counts from 1 again.
abbrev restarted_seq : StateTlm
restarted_seq = record { timestamp_ms = 21000; seq = 1; valid = 1; stale = 0; error_code = 0 }

abbrev no_counts : CacheCounts
no_counts = record { timestamp_rejected = 0; timebase_shift = 0; seq_rejected = 0; seq_gap = 0 }

update_all-expired_example :
    let cache' = (update_all ((restarted_seq, 21000) ∷ []) fresh_cache no_counts).0 in
    (cache' ≡ fresh_cache) × (state_expired cache' 22000 2000 ≡ true)
update_all-expired_example =
    update_all-expired ((restarted_seq, 21000) ∷ []) fresh_cache no_counts 22000 2000 refl
      (omega arith, tt) (omega arith)

informed-nominal : (publish_now world 20000 informed).health_tlm.health_state ≡ nominal
unfolding publish_now report_health check_app_restarts check_app_restart timed_out input_timed_out
    app_timed_out state_expired fill_health last_valid_input update_health judge clear stabilize
    note_transition save_transition transmit_core core_initial save_core
informed-nominal = refl

nominal_report_example : IsWellInformed 20000 informed
nominal_report_example = nominal_report world 20000 informed informed-nominal

publish_now-recovery_requested_example :
    (publish_now world 20000 informed).health_tlm.recovery_requested
    ≡ (if (timed_out 20000 informed).bridge then 1 else 0)
publish_now-recovery_requested_example = publish_now-recovery_requested world 20000 informed
