-- ===== src/System/Tests.antt =====
-- Runs of the theorems about the applications together.
use cfs_telemetry_app.Common.{◌≡◌, refl, List, ◌∷◌, none, if◌then◌else◌, ◌==◌}
use cfs_telemetry_app.Uplink.Messages.{SbMessage, recovery_cmd, executed_ok, executed_failed}
use cfs_telemetry_app.Uplink.Process.{process_exec_result}
use cfs_telemetry_app.Uplink.Tests.Data.{env_at, session}
use cfs_telemetry_app.CfsCore.State.{ExecResult, exec_result_tlm, CoreMessage}
use cfs_telemetry_app.CfsCore.Main.{core_initial}
use cfs_telemetry_app.CfsCore.Tests.Data.{world}
use cfs_telemetry_app.System.{core_receive, uplink_input}
use cfs_telemetry_app.System.Answers.{command_settled}

-- A command that restarts the bridge, with the sequence 9, the latest that uplink_app accepted.
abbrev restart_bridge : SbMessage
restart_bridge = recovery_cmd (record { seq = 1; timestamp_ms = 5; source_sequence = 9 }) 1 0 0 77

command_settled_example :
    let s = record session { last_accepted_sequence = 9 } in
    (r : ExecResult) × (rest : List CoreMessage) × ((core_receive world restart_bridge
        (core_initial none)).sent
      ≡ exec_result_tlm r ∷ rest)
    × ((process_exec_result (env_at 20) (uplink_input r) s).last_command_result
        ≡ (if r.generic_result == 0 then executed_ok else executed_failed))
command_settled_example =
    command_settled world (env_at 20) 9 restart_bridge (core_initial none)
      (record session { last_accepted_sequence = 9 }) (λ r. refl) refl refl
