-- ===== src/Mavlink/Commands/Answers.antt =====
-- Every flight mode command is answered.
use cfs_telemetry_app.Common.{
  ℕ, ◌≡◌, refl, Bool, true, List, ◌∷◌, Option, none, some, if◌then◌else◌, Float32,
}
use cfs_telemetry_app.CfsCore.State.{ExecResult}
use cfs_telemetry_app.Mavlink.State.{
  Bridge, BridgeEnv, BridgeMessage, bridge_exec_result, transmit_bridge,
}
use cfs_telemetry_app.Mavlink.Config.{publish_bridge_result}
use cfs_telemetry_app.Mavlink.Commands.{
  SetFlightModeCmd, sub_mode, set_flight_mode, process_set_flight_mode,
}

-- The latest message on the bus is a result for the sequence `n`.
abbrev pub IsAnswered : ℕ → Bridge → Type 0
IsAnswered n s =
    (r : ExecResult) × (rest : List BridgeMessage) × (s.sent ≡ bridge_exec_result r ∷ rest)
    × (r.source_sequence ≡ n)

module _ (env : BridgeEnv)
    (delivers : (r : ExecResult) → env.delivers (bridge_exec_result r) ≡ true) where
  publish_bridge_result-IsAnswered :
      (sequence class : ℕ) (ok : Bool) (detail : ℕ) (s : Bridge)
      → IsAnswered sequence (publish_bridge_result env sequence class ok detail s)
  unfolding publish_bridge_result transmit_bridge
  publish_bridge_result-IsAnswered sequence class ok detail s =
      let r : ExecResult = record {
        source_sequence = sequence;
        source_app = 2;
        command_class = class;
        generic_result = if ok then 0 else 1;
        detail_code = detail;
      } in
      (r, s.sent, rw (delivers r) refl, refl)

  set_flight_mode-IsAnswered :
      (cmd : SetFlightModeCmd) (sub : Option Float32) (s : Bridge)
      → IsAnswered cmd.source_sequence (set_flight_mode env cmd sub s)
  set_flight_mode-IsAnswered cmd none s = publish_bridge_result-IsAnswered _ _ _ _ _
  set_flight_mode-IsAnswered cmd (some sub) s = publish_bridge_result-IsAnswered _ _ _ _ _

  -- A flight mode command of the right length is answered with a result for its sequence, whatever
  -- its mode and whether or not the port takes the frames. The bus takes the results.
  pub process_set_flight_mode-IsAnswered :
      (cmd : SetFlightModeCmd) (s : Bridge)
      → IsAnswered cmd.source_sequence (process_set_flight_mode env true cmd s)
  unfolding process_set_flight_mode
  process_set_flight_mode-IsAnswered cmd s =
      set_flight_mode-IsAnswered cmd (sub_mode cmd.flight_mode) s
