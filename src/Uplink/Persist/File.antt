-- ===== src/Uplink/Persist/File.antt =====
-- The state file of uplink_app: what a load gives back of a save, and what damage it notices.
use cfs_telemetry_app.Common.{u32_at, ℕ, ◌<◌, ◌≡◌, sym, ◌∙◌, true, some, List, length, take, arith}
use mathlib.Core.Path.{subst}
use cfs_telemetry_app.Uplink.Crc.{crc16}
use cfs_telemetry_app.Uplink.Crc.Detect.{crc16-lt}
use cfs_telemetry_app.Uplink.State.{UplinkApp, Env}
use cfs_telemetry_app.Common.Executive.{saved}
use cfs_telemetry_app.Uplink.Persist.{
  state_body, encode_state, save_state, restore_state, is_state_intact, load_file, load_state,
}

-- The widths of the fields that the file holds.
pub record FitsFile (s : UplinkApp) : Type 0 where
  pub sequence : s.last_accepted_sequence < 4294967296
  pub boots : s.boot_count < 256
  pub mark : s.survived_mark < 256
  pub streak : s.short_boot_streak < 256

pub encode_state-intact : (s : UplinkApp) → is_state_intact (take 20 (encode_state s)) ≡ true
unfolding encode_state state_body is_state_intact
encode_state-intact s = ground (arith, crc16-lt (state_body s))

-- What a load takes from a file that a save wrote.
pub record IsRestored (s t u : UplinkApp) : Type 0 where
  pub sequence : u.last_accepted_sequence ≡ s.last_accepted_sequence
  pub not_fresh : u.accepted_count ≡ 1
  pub boots : u.boot_count ≡ s.boot_count
  pub mark : u.prev_survived_mark ≡ s.survived_mark
  pub streak : u.short_boot_streak ≡ s.short_boot_streak
  pub file : u.state_file ≡ t.state_file

restore_state-IsRestored :
    (s t : UplinkApp) → FitsFile s → IsRestored s t (restore_state (take 20 (encode_state s)) t)
unfolding restore_state encode_state state_body
restore_state-IsRestored s t f = ground arith

load_file-IsRestored :
    (s t : UplinkApp) → FitsFile s → IsRestored s t (load_file t (some (encode_state s)))
unfolding load_file
load_file-IsRestored s t f = rw (encode_state-intact s) (restore_state-IsRestored s t f)

pub load_state-IsSaved :
    (s t : UplinkApp)
    → FitsFile s
    → s.state_file ≡ some (encode_state s)
    → t.state_file ≡ s.state_file
    → IsRestored s t (load_state true t)
unfolding load_state
load_state-IsSaved s t f h e =
    subst (λ bytes. IsRestored s t (load_file t bytes)) (sym (e ∙ h)) (load_file-IsRestored s t f)

-- A load in any state gives back what a successful save wrote: the last accepted sequence, the
-- boot count, the survival mark and the streak of short boots; the counter of accepted commands
-- becomes 1, so the sequence check is armed. The saved fields have the widths that the file holds.
pub load_state-save_state :
    (env : Env) (s t : UplinkApp)
    → FitsFile s
    → env.save_outcome ≡ saved
    → t.state_file ≡ (save_state env s).state_file
    → IsRestored s t (load_state true t)
unfolding load_state save_state
load_state-save_state env s t f e h =
    let file : t.state_file ≡ some (encode_state s) = h ∙ ground arith in
    subst (λ bytes. IsRestored s t (load_file t bytes)) (sym file) (load_file-IsRestored s t f)

pub is_state_intact-bytes :
    (bytes : List ℕ)
    → is_state_intact bytes ≡ true
    → (length bytes ≡ 20) × (u32_at bytes 16 ≡ crc16 (take 16 bytes))
unfolding is_state_intact
is_state_intact-bytes bytes h = ground arith
