-- ===== src/Mavlink/Config/File.antt =====
-- The state file of mavlink_bridge_app: what a load gives back of a save.
use cfs_telemetry_app.Common.{◌<◌, ◌≡◌, sym, refl, true, some, le32_bytes, take, arith}
use mathlib.Core.Path.{subst}
use cfs_telemetry_app.Common.Executive.{saved}
use cfs_telemetry_app.Mavlink.State.{StreamParams, Bridge}
use cfs_telemetry_app.Mavlink.Config.{
  bridge_body, bridge_state_checksum, encode_bridge, save_bridge, is_bridge_intact, restore_bridge,
  load_bridge_file, load_bridge,
}

-- The fields are words of 32 bits.
pub record IsWordParams (c : StreamParams) : Type 0 where
  pub attitude : c.attitude_interval_us < 4294967296
  pub local : c.local_position_interval_us < 4294967296
  pub global : c.global_position_interval_us < 4294967296
  pub gps : c.gps_raw_interval_us < 4294967296
  pub ekf : c.ekf_status_interval_us < 4294967296
  pub reconnect : c.reconnect_interval_ms < 4294967296
  pub heartbeat : c.heartbeat_interval_ms < 4294967296

encode_bridge-intact : (c : StreamParams) → is_bridge_intact (take 40 (encode_bridge c)) ≡ true
unfolding encode_bridge bridge_body is_bridge_intact bridge_state_checksum
encode_bridge-intact c = ground arith

restore_bridge-active :
    (c : StreamParams) (t : Bridge)
    → IsWordParams c
    → (restore_bridge (take 40 (encode_bridge c)) t).config.active ≡ c
unfolding restore_bridge encode_bridge bridge_body
restore_bridge-active c t w =
    rw
      (
        le32_bytes c.attitude_interval_us w.attitude,
        le32_bytes c.local_position_interval_us w.local,
        le32_bytes c.global_position_interval_us w.global,
        le32_bytes c.gps_raw_interval_us w.gps,
        le32_bytes c.ekf_status_interval_us w.ekf,
        le32_bytes c.reconnect_interval_ms w.reconnect,
        le32_bytes c.heartbeat_interval_ms w.heartbeat,
      )
      refl

load_bridge_file-active :
    (c : StreamParams) (t : Bridge)
    → IsWordParams c
    → (load_bridge_file t (some (encode_bridge c))).config.active ≡ c
unfolding load_bridge_file
load_bridge_file-active c t w = rw (encode_bridge-intact c) (restore_bridge-active c t w)

-- A load in any state, from the file that a successful save wrote, gives back the configuration that
-- was active.
pub load_bridge-save_bridge :
    (s t : Bridge)
    → IsWordParams s.config.active
    → t.state_file ≡ (save_bridge saved s).state_file
    → (load_bridge true t).config.active ≡ s.config.active
unfolding load_bridge save_bridge
load_bridge-save_bridge s t w h =
    subst (λ bytes. (load_bridge_file t bytes).config.active ≡ s.config.active) (sym h)
      (load_bridge_file-active s.config.active t w)
