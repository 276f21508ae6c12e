-- ===== src/Mavlink/Config.antt =====
-- The configuration of mavlink_bridge_app and its state file: MAVLINK_BRIDGE_APP_ConfigChecksum,
-- PublishExecResult, ProcessConfigCommand, ComputeStateChecksum, SaveState and LoadState
-- (mavlink_bridge_app/fsw/src/mavlink_bridge_app_utils.c). The file is its 40 bytes,
-- MAVLINK_BRIDGE_APP_PersistentState_t without padding; the payload of a command is a list.
pub mod File
pub mod Rates
use cfs_telemetry_app.Common.{
  ℕ, ◌+◌, Bool, true, false, not, ◌||◌, List, [], ◌∷◌, ◌++◌, Option, none, some, ltb, ◌==◌,
  if◌then◌else◌, u8, u16, u32, byte_at, le16, u32_at, bytes32, drop, take, length,
}
use cfs_telemetry_app.Common.Executive.{
  SaveOutcome, open_failed, write_failed, rename_failed, saved,
}
use cfs_telemetry_app.Uplink.Payload.{sum_bytes}
use cfs_telemetry_app.CfsCore.Config.{ConfigCmd}
use cfs_telemetry_app.Mavlink.State.{
  StreamParams, BridgeConfig, bridge_exec_result, Bridge, BridgeEnv, transmit_bridge,
}

-- MAVLINK_BRIDGE_APP_STATE_MAGIC
abbrev pub bridge_magic : ℕ
bridge_magic = 0x3ab51de0

-- MAVLINK_BRIDGE_APP_CONFIG_VERSION and CONFIG_SCOPE
abbrev pub bridge_config_version : ℕ
bridge_config_version = 1

abbrev pub bridge_scope : ℕ
bridge_scope = 2

abbrev pub interval_min_us : ℕ
interval_min_us = 10000

abbrev pub interval_max_us : ℕ
interval_max_us = 10000000

abbrev pub param_ms_min : ℕ
param_ms_min = 100

abbrev pub param_ms_max : ℕ
param_ms_max = 60000

-- The structure without its checksum.
unfoldable pub bridge_body : StreamParams → List ℕ
bridge_body c =
    bytes32 bridge_magic
    ++ (bridge_config_version ∷ 0 ∷ 0 ∷ 0 ∷ [])
    ++ bytes32 c.attitude_interval_us
    ++ bytes32 c.local_position_interval_us
    ++ bytes32 c.global_position_interval_us
    ++ bytes32 c.gps_raw_interval_us
    ++ bytes32 c.ekf_status_interval_us
    ++ bytes32 c.reconnect_interval_ms
    ++ bytes32 c.heartbeat_interval_ms

unfoldable pub bridge_state_checksum : List ℕ → ℕ
bridge_state_checksum state = u32 (
    u32_at state 0
    + byte_at state 4
    + u32_at state 8
    + u32_at state 12
    + u32_at state 16
    + u32_at state 20
    + u32_at state 24
    + u32_at state 28
    + u32_at state 32)

unfoldable pub encode_bridge : StreamParams → List ℕ
unfolding bridge_body
encode_bridge c = bridge_body c ++ bytes32 (bridge_state_checksum (bridge_body c))

unfoldable pub save_bridge : SaveOutcome → Bridge → Bridge
unfolding encode_bridge
save_bridge open_failed s = s
save_bridge write_failed s = s
save_bridge rename_failed s = s
save_bridge saved s = record s { state_file = some (encode_bridge s.config.active) }

unfoldable pub is_bridge_intact : List ℕ → Bool
is_bridge_intact state =
    if not (length state == 40)
    then false
    else if not (u32_at state 0 == bridge_magic)
    then false
    else if not (u32_at state 36 == bridge_state_checksum state)
    then false
    else if not (byte_at state 4 == bridge_config_version)
    then false
    else true

unfoldable pub restore_bridge : List ℕ → Bridge → Bridge
restore_bridge state s = record s {
  config = record s.config {
    active = record {
      attitude_interval_us = u32_at state 8;
      local_position_interval_us = u32_at state 12;
      global_position_interval_us = u32_at state 16;
      gps_raw_interval_us = u32_at state 20;
      ekf_status_interval_us = u32_at state 24;
      reconnect_interval_ms = u32_at state 28;
      heartbeat_interval_ms = u32_at state 32;
    };
  };
}

-- The read asks for 40 bytes.
unfoldable pub load_bridge_file : Bridge → Option (List ℕ) → Bridge
load_bridge_file s none = s
load_bridge_file s (some bytes) =
    if is_bridge_intact (take 40 bytes) then restore_bridge (take 40 bytes) s else s

-- The first argument is false where the file cannot be opened.
unfoldable pub load_bridge : Bool → Bridge → Bridge
unfolding load_bridge_file
load_bridge false s = s
load_bridge true s = load_bridge_file s s.state_file

-- MAVLINK_BRIDGE_APP_PublishExecResult; EXEC_RESULT_SOURCE_MAVLINK_BRIDGE is 2.
unfoldable pub publish_bridge_result : BridgeEnv → ℕ → ℕ → Bool → ℕ → Bridge → Bridge
publish_bridge_result env source_sequence command_class ok detail s =
    transmit_bridge env
      (bridge_exec_result (record {
        source_sequence = source_sequence;
        source_app = 2;
        command_class = command_class;
        generic_result = if ok then 0 else 1;
        detail_code = detail;
      }))
      s

-- MAVLINK_BRIDGE_APP_ConfigChecksum
unfoldable pub bridge_config_checksum : List ℕ → ℕ
bridge_config_checksum payload = sum_bytes (byte_at payload 5) (drop 8 payload) (
    u16 (
      byte_at payload 0
      + byte_at payload 1
      + byte_at payload 2
      + byte_at payload 3
      + byte_at payload 4
      + byte_at payload 5))

-- A refusal, which is answered: the code 2 is MAVLINK_BRIDGE_CONFIG_PENDING_REJECTED.
unfoldable pub reject_config : BridgeEnv → ConfigCmd → ℕ → Bridge → Bridge
reject_config env msg result s =
    publish_bridge_result env msg.source_sequence 1 false result (record s {
      err_counter = u8 (s.err_counter + 1);
      config = record s.config { pending_state = 2; last_result = result };
    })

-- What the switch over the parameter comes to.
pub data ParamChange : Type 0 where
  changed : StreamParams → ParamChange
  bad_range bad_param_id : ParamChange

-- A value within bounds, or the jump to reject_value.
abbrev pub within : ℕ → ℕ → ℕ → StreamParams → ParamChange
within low high value c = if ltb value low || ltb high value then bad_range else changed c

unfoldable pub change_param : ℕ → ℕ → StreamParams → ParamChange
change_param id value c =
    if id == 0
    then within interval_min_us interval_max_us value (record c { attitude_interval_us = value })
    else if id == 1
    then within interval_min_us interval_max_us value
        (record c { local_position_interval_us = value })
    else if id == 2
    then within interval_min_us interval_max_us value
        (record c { global_position_interval_us = value })
    else if id == 3
    then within interval_min_us interval_max_us value (record c { gps_raw_interval_us = value })
    else if id == 4
    then within interval_min_us interval_max_us value (record c { ekf_status_interval_us = value })
    else if id == 5
    then within param_ms_min param_ms_max value (record c { reconnect_interval_ms = value })
    else if id == 6
    then within param_ms_min param_ms_max value (record c { heartbeat_interval_ms = value })
    else bad_param_id

-- The check of the whole configuration.
unfoldable pub has_low_param : StreamParams → Bool
has_low_param c =
    ltb c.attitude_interval_us interval_min_us
    || ltb c.local_position_interval_us interval_min_us
    || ltb c.global_position_interval_us interval_min_us
    || ltb c.gps_raw_interval_us interval_min_us
    || ltb c.ekf_status_interval_us interval_min_us
    || ltb c.reconnect_interval_ms param_ms_min
    || ltb c.heartbeat_interval_ms param_ms_min

-- The activation: the save, and the streams are asked for anew.
unfoldable pub activate_rates : BridgeEnv → ConfigCmd → StreamParams → Bridge → Bridge
activate_rates env msg pending s =
    let s' : Bridge = save_bridge env.save_outcome (record s {
      config = record {
        pending_state = 0;
        last_result = 0;
        generation = u32 (s.config.generation + 1);
        active = pending;
        pending = pending;
        previous = s.config.active;
      };
      cmd_counter = u8 (s.cmd_counter + 1);
    }) in
    publish_bridge_result env msg.source_sequence 1 true 0
      (record s' { is_stream_request_pending = true })

abbrev pub with_pending : StreamParams → Bridge → Bridge
with_pending c s = record s { config = record s.config { pending = c } }

abbrev pub apply_change : BridgeEnv → ConfigCmd → ParamChange → Bridge → Bridge
apply_change env msg bad_range s = reject_config env msg 4 (with_pending s.config.active s)
apply_change env msg bad_param_id s = reject_config env msg 3 (with_pending s.config.active s)
apply_change env msg (changed c) s =
    if has_low_param c
    then reject_config env msg 4 (with_pending c s)
    else activate_rates env msg c s

-- A payload for another application is passed over in silence.
unfoldable pub process_bridge_config : BridgeEnv → ConfigCmd → Bridge → Bridge
process_bridge_config env msg s =
    if ltb msg.payload_length 8
    then reject_config env msg 5 s
    else if not (byte_at msg.payload 0 == bridge_scope)
    then s
    else if not (byte_at msg.payload 1 == bridge_config_version)
    then reject_config env msg 2 s
    else if not (byte_at msg.payload 5 == 4)
        || ltb msg.payload_length (u8 (8 + byte_at msg.payload 5))
    then reject_config env msg 5 s
    else if not
        (le16 (byte_at msg.payload 6) (byte_at msg.payload 7) == bridge_config_checksum msg.payload)
    then reject_config env msg 6 s
    else apply_change env msg
        (change_param (le16 (byte_at msg.payload 2) (byte_at msg.payload 3)) (u32_at msg.payload 8)
          s.config.active)
        s
