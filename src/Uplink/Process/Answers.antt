-- ===== src/Uplink/Process/Answers.antt =====
-- Every command is answered by one status publication (the last call of each branch of
-- UPLINK_APP_ProcessUplink).
use cfs_telemetry_app.Common.{◌+◌, ◌≡◌, true, Option, some, none, List, [], ◌∷◌, u32, if◌then◌else◌}
use cfs_telemetry_app.Uplink.Messages.{SbMessage, status_tlm}
use cfs_telemetry_app.Uplink.State.{UplinkApp, Env}
use cfs_telemetry_app.Uplink.Telemetry.{fill_status}
use cfs_telemetry_app.Uplink.Process.Passing

abbrev pub newest : List SbMessage → Option SbMessage
newest [] = none
newest (m ∷ _) = some m

-- One publication more than before. If the bus takes it, one status message more is on the bus, and
-- its newest message is the status that the final state gives; else no status message more is.
pub record Answers (env : Env) (s t : UplinkApp) : Type 0 where
  pub published : t.sequence_counter ≡ u32 (s.sequence_counter + 1)
  pub one_more : t.publish_count ≡ u32 (s.publish_count + 1)
  pub one_status : Passing.status_count t.sent ≡ (
      if env.delivers (status_tlm (fill_status t.last_publish_time_ms t))
      then Passing.status_count s.sent + 1
      else Passing.status_count s.sent)
  pub reports :
      env.delivers (status_tlm (fill_status t.last_publish_time_ms t)) ≡ true
      → newest t.sent ≡ some (status_tlm (fill_status t.last_publish_time_ms t))
