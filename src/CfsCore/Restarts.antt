-- ===== src/CfsCore/Restarts.antt =====
-- The automatic restarts of the other applications: CFS_CORE_APP_CheckAppRestarts
-- (cfs_core_app/fsw/src/cfs_core_app_utils.c). The save that follows a restart, which writes the
-- counts to the state file, is done by CfsCore/Publish: the function reads nothing back from it.

pub mod Spacing
pub mod Turns
use cfs_telemetry_app.Common.{
  ℕ, ◌+◌, Bool, true, false, not, ltb, leb, ◌==◌, if◌then◌else◌, u32, List, [], ◌∷◌,
}
use cfs_telemetry_app.CfsCore.State.{App, bridge_app, uplink_app, lora_app, Cooldown, Cooldowns}

-- CFS_CORE_APP_BRIDGE_RESTART_INTERVAL_MS, and those of the other two.
abbrev pub restart_interval_ms : ℕ
restart_interval_ms = 5000

-- The wait that starts when the application is first found timed out.
abbrev pub armed : ℕ → Cooldown → Cooldown
armed now c =
    if c.next_restart_ms == 0
    then record c { next_restart_ms = u32 (now + restart_interval_ms) }
    else c

-- One of the three blocks, and whether it restarts its application; `found` is the answer of
-- CFE_ES_GetAppIDByName.
unfoldable pub check_app_restart : ℕ → Bool → Bool → Cooldown → Cooldown × Bool
check_app_restart now timed_out found c =
    if timed_out
    then (let c' = armed now c in
        if leb c'.next_restart_ms now
        then if found
          then (
            record {
              restart_count = u32 (c'.restart_count + 1);
              next_restart_ms = u32 (now + restart_interval_ms);
            },
            true,
          )
          else (c', false)
        else (c', false))
    else (record c { next_restart_ms = 0 }, false)

abbrev pub check_lora : ℕ → Bool → (App → Bool) → Cooldowns → Cooldowns × List App
check_lora now lora_out finds cs =
    let (c, issued) = check_app_restart now lora_out (finds lora_app) cs.lora in
    (record cs { lora = c }, if issued then lora_app ∷ [] else [])

abbrev pub check_uplink : ℕ → Bool → Bool → (App → Bool) → Cooldowns → Cooldowns × List App
check_uplink now uplink_out lora_out finds cs =
    let (c, issued) = check_app_restart now uplink_out (finds uplink_app) cs.uplink in
    let later = check_lora now lora_out finds (record cs { uplink = c }) in
    if issued then (record cs { uplink = c }, uplink_app ∷ []) else later

-- With the applications that were restarted; after a restart the blocks that follow are skipped.
unfoldable pub check_app_restarts :
    ℕ → Bool → Bool → Bool → (App → Bool) → Cooldowns → Cooldowns × List App
check_app_restarts now bridge_out uplink_out lora_out finds cs =
    let (c, issued) = check_app_restart now bridge_out (finds bridge_app) cs.bridge in
    let later = check_uplink now uplink_out lora_out finds (record cs { bridge = c }) in
    if issued then (record cs { bridge = c }, bridge_app ∷ []) else later
