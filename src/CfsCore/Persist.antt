-- ===== src/CfsCore/Persist.antt =====
-- The state file of cfs_core_app: CFS_CORE_APP_ComputeStateChecksum, SaveState and LoadState
-- (cfs_core_app/fsw/src/cfs_core_app_utils.c). The file is its bytes;
-- CFS_CORE_APP_PersistentState_t has 52, little-endian and without padding.
pub mod File
use cfs_telemetry_app.Common.{
  ℕ, ◌+◌, Bool, true, false, not, List, [], ◌∷◌, ◌++◌, Option, none, some, length, take, ◌==◌,
  if◌then◌else◌, u8, u32, byte_at, u32_at, bytes32,
}
use cfs_telemetry_app.Common.Executive.{
  SaveOutcome, open_failed, write_failed, rename_failed, saved,
}
use cfs_telemetry_app.CfsCore.State.{CoreApp}

-- CFS_CORE_APP_STATE_MAGIC
abbrev pub core_magic : ℕ
core_magic = 0xcf5c0a00

-- CFS_CORE_APP_CONFIG_VERSION
abbrev pub config_version : ℕ
config_version = 1

-- The structure without its checksum.
unfoldable pub core_body : CoreApp → List ℕ
core_body s =
    bytes32 core_magic
    ++ (u8 s.health.last_health_state ∷ config_version ∷ 0 ∷ 0 ∷ [])
    ++ bytes32 s.active_config.attitude_timeout_ms
    ++ bytes32 s.active_config.local_timeout_ms
    ++ bytes32 s.active_config.gps_timeout_ms
    ++ bytes32 s.active_config.ekf_timeout_ms
    ++ bytes32 s.active_config.bridge_timeout_ms
    ++ bytes32 s.active_config.publish_period_ms
    ++ bytes32 s.cooldowns.bridge.restart_count
    ++ bytes32 s.cooldowns.uplink.restart_count
    ++ bytes32 s.cooldowns.lora.restart_count
    ++ (u8 s.health.last_fault_code ∷ 0 ∷ 0 ∷ 0 ∷ [])

-- CFS_CORE_APP_ComputeStateChecksum, on the bytes of the structure.
unfoldable pub compute_state_checksum : List ℕ → ℕ
compute_state_checksum state = u32 (
    u32_at state 0
    + byte_at state 4
    + byte_at state 5
    + u32_at state 8
    + u32_at state 12
    + u32_at state 16
    + u32_at state 20
    + u32_at state 24
    + u32_at state 28
    + u32_at state 32
    + u32_at state 36
    + u32_at state 40
    + byte_at state 44)

unfoldable pub encode_core : CoreApp → List ℕ
unfolding core_body
encode_core s = core_body s ++ bytes32 (compute_state_checksum (core_body s))

-- The temporary file takes the place of the state file only when all calls succeed.
unfoldable pub save_core : SaveOutcome → CoreApp → CoreApp
unfolding encode_core
save_core open_failed s = s
save_core write_failed s = s
save_core rename_failed s = s
save_core saved s = record s { state_file = some (encode_core s) }

-- The checks of a load on the bytes that `read` gives: all 52, the magic number, the checksum, the
-- version of the configuration.
unfoldable pub is_core_intact : List ℕ → Bool
is_core_intact state =
    if not (length state == 52)
    then false
    else if not (u32_at state 0 == core_magic)
    then false
    else if not (u32_at state 48 == compute_state_checksum state)
    then false
    else if not (byte_at state 5 == config_version)
    then false
    else true

unfoldable pub restore_core : List ℕ → CoreApp → CoreApp
restore_core state s = record s {
  health = record s.health {
    last_health_state = byte_at state 4;
    last_fault_code = byte_at state 44;
  };
  active_config = record {
    attitude_timeout_ms = u32_at state 8;
    local_timeout_ms = u32_at state 12;
    gps_timeout_ms = u32_at state 16;
    ekf_timeout_ms = u32_at state 20;
    bridge_timeout_ms = u32_at state 24;
    publish_period_ms = u32_at state 28;
  };
  cooldowns = record {
    bridge = record s.cooldowns.bridge { restart_count = u32_at state 32 };
    uplink = record s.cooldowns.uplink { restart_count = u32_at state 36 };
    lora = record s.cooldowns.lora { restart_count = u32_at state 40 };
  };
}

-- The read asks for 52 bytes.
unfoldable pub load_core_file : CoreApp → Option (List ℕ) → CoreApp
load_core_file s none = s
load_core_file s (some bytes) =
    if is_core_intact (take 52 bytes) then restore_core (take 52 bytes) s else s

-- The first argument is false where the file cannot be opened.
unfoldable pub load_core : Bool → CoreApp → CoreApp
unfolding load_core_file
load_core false s = s
load_core true s = load_core_file s s.state_file
