-- ===== src/CfsCore/Config.antt =====
-- The runtime configuration of cfs_core_app: CFS_CORE_APP_ConfigChecksum, ProcessConfigCommand and
-- PublishExecResult (cfs_core_app/fsw/src/cfs_core_app_utils.c). The payload is its array of 196
-- bytes as a list.
pub mod Outcome
pub mod Cases
use cfs_telemetry_app.Common.{
  ℕ, ◌+◌, Bool, true, false, not, ◌&&◌, ◌||◌, List, [], ◌∷◌, Option, none, some, ltb, ◌==◌,
  if◌then◌else◌, u8, u16, u32, byte_at, le16, u32_at, drop,
}
use cfs_telemetry_app.Uplink.Payload.{sum_bytes}
use cfs_telemetry_app.CfsCore.State.{ConfigParams, exec_result_tlm, CoreApp, CoreEnv, transmit_core}
use cfs_telemetry_app.CfsCore.Persist.{config_version, save_core}

-- CONFIG_CMD_TLM_t, the fields that the handler reads.
pub record ConfigCmd : Type 0 where
  pub source_sequence : ℕ
  pub payload_length : ℕ  -- uint8
  pub payload : List ℕ

-- CFS_CORE_APP_ConfigResult_t and CFS_CORE_APP_ConfigPendingState_t
abbrev pub result_ok : ℕ
result_ok = 0

abbrev pub bad_scope : ℕ
bad_scope = 1

abbrev pub bad_version : ℕ
bad_version = 2

abbrev pub bad_param : ℕ
bad_param = 3

abbrev pub bad_value : ℕ
bad_value = 4

abbrev pub bad_length : ℕ
bad_length = 5

abbrev pub bad_checksum : ℕ
bad_checksum = 6

abbrev pub pending_idle : ℕ
pending_idle = 0

abbrev pub pending_rejected : ℕ
pending_rejected = 2

abbrev pub config_scope : ℕ
config_scope = 1

abbrev pub param_min_ms : ℕ
param_min_ms = 100

abbrev pub param_max_ms : ℕ
param_max_ms = 60000

-- The scope, the version, the two bytes of the parameter, the type, the length and the value.
unfoldable pub core_config_checksum : List ℕ → ℕ
core_config_checksum payload = sum_bytes (byte_at payload 5) (drop 8 payload) (
    u16 (
      byte_at payload 0
      + byte_at payload 1
      + byte_at payload 2
      + byte_at payload 3
      + byte_at payload 4
      + byte_at payload 5))

-- CFS_CORE_APP_PublishExecResult; EXEC_RESULT_SOURCE_CFS_CORE is 1.
unfoldable pub publish_exec_result : CoreEnv → ℕ → ℕ → Bool → ℕ → CoreApp → CoreApp
publish_exec_result env source_sequence command_class ok detail s =
    transmit_core env
      (exec_result_tlm (record {
        source_sequence = source_sequence;
        source_app = 1;
        command_class = command_class;
        generic_result = if ok then 0 else 1;
        detail_code = detail;
      }))
      s

-- The three assignments of each refusal.
abbrev pub refuse_config : ℕ → CoreApp → CoreApp
refuse_config result s = record s {
  err_counter = u8 (s.err_counter + 1);
  config_pending_state = pending_rejected;
  last_config_result = result;
}

-- A refusal that is answered.
abbrev pub answer_refusal : CoreEnv → ConfigCmd → ℕ → CoreApp → CoreApp
answer_refusal env msg result s =
    publish_exec_result env msg.source_sequence 1 false result (refuse_config result s)

-- The switch over the parameter: the pending configuration, `none` for its default case.
unfoldable pub set_param : ℕ → ℕ → ConfigParams → Option ConfigParams
set_param id value c =
    if id == 0
    then some (record c { attitude_timeout_ms = value })
    else if id == 1
    then some (record c { local_timeout_ms = value })
    else if id == 2
    then some (record c { gps_timeout_ms = value })
    else if id == 3
    then some (record c { ekf_timeout_ms = value })
    else if id == 4
    then some (record c { bridge_timeout_ms = value })
    else if id == 5
    then some (record c { publish_period_ms = value })
    else none

-- The cross-check of the whole configuration.
unfoldable pub has_short_param : ConfigParams → Bool
has_short_param c =
    ltb c.attitude_timeout_ms param_min_ms
    || ltb c.local_timeout_ms param_min_ms
    || ltb c.gps_timeout_ms param_min_ms
    || ltb c.ekf_timeout_ms param_min_ms
    || ltb c.bridge_timeout_ms param_min_ms
    || ltb c.publish_period_ms param_min_ms

-- The activation, the save and the answer.
unfoldable pub activate_config : CoreEnv → ConfigCmd → ConfigParams → CoreApp → CoreApp
activate_config env msg pending s = publish_exec_result env msg.source_sequence 1 true result_ok (
    save_core env.save_outcome (record s {
      previous_config = s.active_config;
      active_config = pending;
      config_generation = u32 (s.config_generation + 1);
      config_pending_state = pending_idle;
      last_config_result = result_ok;
      cmd_counter = u8 (s.cmd_counter + 1);
    }))

abbrev pub apply_config : CoreEnv → ConfigCmd → Option ConfigParams → CoreApp → CoreApp
apply_config env msg none s =
    answer_refusal env msg bad_param (record s { pending_config = s.active_config })
apply_config env msg (some pending) s =
    let s' = record s { pending_config = pending } in
    if has_short_param pending
    then answer_refusal env msg bad_value s'
    else activate_config env msg pending s'

-- A payload for another application is counted and not answered.
unfoldable pub process_config_command : CoreEnv → ConfigCmd → CoreApp → CoreApp
process_config_command env msg s =
    let value = u32_at msg.payload 8 in
    if ltb msg.payload_length 8
    then answer_refusal env msg bad_length s
    else if not (byte_at msg.payload 0 == config_scope)
    then refuse_config bad_scope s
    else if not (byte_at msg.payload 1 == config_version)
    then answer_refusal env msg bad_version s
    else if not (byte_at msg.payload 5 == 4)
        || ltb msg.payload_length (u8 (8 + byte_at msg.payload 5))
    then answer_refusal env msg bad_length s
    else if not
        (le16 (byte_at msg.payload 6) (byte_at msg.payload 7) == core_config_checksum msg.payload)
    then answer_refusal env msg bad_checksum s
    else if ltb value param_min_ms || ltb param_max_ms value
    then answer_refusal env msg bad_value s
    else apply_config env msg
        (set_param (le16 (byte_at msg.payload 2) (byte_at msg.payload 3)) value s.active_config) s
