-- ===== src/CfsCore/Tests/Sessions.antt =====
-- Runs of the theorems about the configuration, the state file and the route.
use cfs_telemetry_app.Common.{◌≡◌, refl, true, [], ◌∷◌, none, some, arith}
use cfs_telemetry_app.Common.Executive.{saved}
use cfs_telemetry_app.CfsCore.State.{route_snapshot}
use cfs_telemetry_app.CfsCore.Persist.{encode_core, save_core, load_core}
use cfs_telemetry_app.CfsCore.Persist.File.{IsCoreRestored, load_core-save_core}
use cfs_telemetry_app.CfsCore.Config.{process_config_command}
use cfs_telemetry_app.CfsCore.Config.Outcome.{
  IsInRange, ConfigOutcome, process_config_command-ConfigOutcome,
}
use cfs_telemetry_app.CfsCore.Commands.{DiagnosticCmd, process_diagnostic_command}
use cfs_telemetry_app.CfsCore.Main.{
  core_initial, core_main, core_message, config_msg, state_msg, route_update_msg,
}
use cfs_telemetry_app.CfsCore.Main.Configured.{IsGoodFile}
use cfs_telemetry_app.CfsCore.Main.Bounds.{core_main-IsConfigured}
use cfs_telemetry_app.CfsCore.Main.Readback.{readback, core_main-readback}
use cfs_telemetry_app.CfsCore.Tests.Data.{world, set_gps_timeout, replacement}

process_config_command-ConfigOutcome_example :
    ConfigOutcome set_gps_timeout
      (core_initial none)
      (process_config_command world set_gps_timeout (core_initial none))
unfolding core_initial
process_config_command-ConfigOutcome_example =
    process_config_command-ConfigOutcome world set_gps_timeout (core_initial none) (omega arith)

load_core-save_core_example :
    IsCoreRestored
      (core_initial none)
      (save_core saved (core_initial none))
      (load_core true (save_core saved (core_initial none)))
unfolding core_initial
load_core-save_core_example =
    load_core-save_core (core_initial none) (save_core saved (core_initial none)) (omega arith) refl

-- The file of a session that was saved in its first state.
core_main-IsConfigured_example :
    let s =
      core_main true true
        (some (encode_core (core_initial none)))
        ((world, core_message (config_msg set_gps_timeout)) ∷ []) in
    IsInRange s.active_config × IsGoodFile s.state_file
unfolding core_initial
core_main-IsConfigured_example =
    core_main-IsConfigured true true (some (encode_core (core_initial none)))
      ((world, core_message (config_msg set_gps_timeout)) ∷ [])
      (core_initial none, refl, omega arith, omega arith)

abbrev request : DiagnosticCmd
request = record { source_sequence = 12; diag_action = 3; diag_target = 1 }

core_main-readback_example :
    let s =
      core_main true true none
        ((world, core_message (state_msg (route_update_msg replacement))) ∷ []) in
    (process_diagnostic_command world request s).sent
    ≡ route_snapshot (readback request (some replacement) 1) ∷ s.sent
core_main-readback_example =
    core_main-readback true none
      ((world, core_message (state_msg (route_update_msg replacement))) ∷ []) world request refl
      refl refl
