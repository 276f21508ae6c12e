-- ===== src/Uplink/Persist.antt =====
-- The state file and the boot marker: UPLINK_APP_LoadState, SaveState, ProcessBootMarker,
-- CheckBootSurvival and IncrementBootCount of uplink_app/fsw/src/uplink_app_utils.c. The file is
-- its bytes; UPLINK_APP_PersistentState_t has 20, little-endian and without padding.
pub mod File
pub mod Damage
use cfs_telemetry_app.Common.{
  u32_at, ℕ, ◌+◌, Bool, true, false, not, List, [], ◌∷◌, ◌++◌, Option, none, some, length, take,
  ltb, leb, ◌==◌, if◌then◌else◌, u8, sub32, byte_at, le32, bytes32,
}
use cfs_telemetry_app.Common.Time.{SysTime, get_time_ms}
use cfs_telemetry_app.Uplink.Crc.{crc16}
use cfs_telemetry_app.Uplink.State.{UplinkApp, Env}
use cfs_telemetry_app.Common.Executive.{open_failed, write_failed, rename_failed, saved}

-- UPLINK_APP_STATE_MAGIC
abbrev pub state_magic : ℕ
state_magic = 0x55504c4b

abbrev pub boot_survive_ms : ℕ
boot_survive_ms = 120000

abbrev pub boot_loop_threshold : ℕ
boot_loop_threshold = 5

-- The first 16 bytes of the structure: what the checksum covers.
unfoldable pub state_body : UplinkApp → List ℕ
state_body s =
    bytes32 state_magic
    ++ (bytes32 s.last_accepted_sequence
        ++ (bytes32 s.boot_count
            ++ (u8 s.last_reset_reason ∷ u8 s.survived_mark ∷ u8 s.short_boot_streak ∷ 0 ∷ [])))

unfoldable pub encode_state : UplinkApp → List ℕ
unfolding state_body
encode_state s = state_body s ++ bytes32 (crc16 (state_body s))

-- The temporary file takes the place of the state file only when all calls succeed.
unfoldable pub save_state : Env → UplinkApp → UplinkApp
unfolding encode_state
save_state env s = elim env.save_outcome [
  | open_failed ↦ s
  | write_failed ↦ s
  | rename_failed ↦ s
  | saved ↦ record s { state_file = some (encode_state s) }
]

-- The assignments of a load that accepts the structure.
unfoldable pub restore_state : List ℕ → UplinkApp → UplinkApp
restore_state state s = record s {
  last_accepted_sequence = u32_at state 4;
  accepted_count = 1;
  boot_count = u8 (u32_at state 8);
  prev_survived_mark = byte_at state 13;
  short_boot_streak = byte_at state 14;
}

-- The checks on the bytes that `read` gives: all 20, the magic number, the checksum.
unfoldable pub is_state_intact : List ℕ → Bool
is_state_intact state =
    if not (length state == 20)
    then false
    else if not (u32_at state 0 == state_magic)
    then false
    else if not (u32_at state 16 == crc16 (take 16 state))
    then false
    else true

-- The read asks for 20 bytes.
unfoldable pub load_file : UplinkApp → Option (List ℕ) → UplinkApp
unfolding is_state_intact restore_state
load_file s none = s
load_file s (some bytes) =
    if is_state_intact (take 20 bytes) then restore_state (take 20 bytes) s else s

-- The first argument is false where the file cannot be opened.
unfoldable pub load_state : Bool → UplinkApp → UplinkApp
unfolding load_file
load_state false s = s
load_state true s = load_file s s.state_file

unfoldable pub increment_boot_count : Env → UplinkApp → UplinkApp
unfolding save_state
increment_boot_count env s = save_state env (record s { boot_count = u8 (s.boot_count + 1) })

-- The streak of short boots and what it suspects, before the save.
unfoldable pub judge_boot : SysTime → ℕ → UplinkApp → UplinkApp
judge_boot time reset_type s =
    let streak =
      if s.prev_survived_mark == 0
      then if ltb s.short_boot_streak 255 then u8 (s.short_boot_streak + 1) else s.short_boot_streak
      else 0 in
    record s {
      boot_start_ms = get_time_ms time;
      last_reset_reason = u8 reset_type;
      short_boot_streak = streak;
      boot_loop_suspect = if leb boot_loop_threshold streak then 1 else 0;
      survived_mark = 0;
    }

-- The reset type is CFE_ES_GetResetType's answer.
unfoldable pub process_boot_marker : Env → ℕ → UplinkApp → UplinkApp
unfolding judge_boot save_state
process_boot_marker env reset_type s = save_state env (judge_boot env.rx_time reset_type s)

unfoldable pub check_boot_survival : Env → UplinkApp → UplinkApp
unfolding save_state
check_boot_survival env s =
    if not (s.survived_mark == 0)
    then s
    else if leb boot_survive_ms (sub32 (get_time_ms env.rx_time) s.boot_start_ms)
    then save_state env (record s { survived_mark = 1 })
    else s
