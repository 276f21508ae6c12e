-- ===== src/CfsCore/Cache.antt =====
-- The caches of the flight state: CFS_CORE_APP_UpdateStateCache, StateExpired and the checks for
-- finite fields (cfs_core_app/fsw/src/cfs_core_app_utils.c).

pub mod Order
use cfs_telemetry_app.Common.{
  ℕ, ◌+◌, Bool, true, false, not, ◌&&◌, ◌||◌, List, [], ◌∷◌, ltb, ◌==◌, if◌then◌else◌, u32, sub32,
  Float32, is_finite,
}
use cfs_telemetry_app.CfsCore.State.{StateCache, CacheCounts}

-- FC_STATE_PREFIX_t
pub record StateTlm : Type 0 where
  pub timestamp_ms : ℕ  -- uint32
  pub seq : ℕ  -- uint32
  pub valid : ℕ  -- uint8, as are the next two
  pub stale : ℕ
  pub error_code : ℕ

abbrev pub timestamp_max_future_ms : ℕ
timestamp_max_future_ms = 5000

abbrev pub timebase_shift_ms : ℕ
timebase_shift_ms = 10000

-- The assignments at the end of the function.
abbrev pub fill_cache : StateTlm → ℕ → StateCache
fill_cache msg now = record {
  timestamp_ms = msg.timestamp_ms;
  arrival_ms = now;
  seq = msg.seq;
  valid = msg.valid;
  stale = msg.stale;
  error_code = msg.error_code;
  received = true;
}

abbrev pub note_shift : StateTlm → StateCache → CacheCounts → CacheCounts
note_shift msg cache counts =
    if cache.received && ltb (u32 (msg.timestamp_ms + timebase_shift_ms)) cache.timestamp_ms
    then record counts { timebase_shift = u32 (counts.timebase_shift + 1) }
    else counts

-- The checks of the sequence, for a cache that has received before.
abbrev pub check_seq : StateTlm → ℕ → StateCache → CacheCounts → StateCache × CacheCounts
check_seq msg now cache counts =
    if msg.seq == cache.seq
    then (cache, record counts { seq_rejected = u32 (counts.seq_rejected + 1) })
    else if ltb msg.seq cache.seq
    then (cache, record counts { seq_rejected = u32 (counts.seq_rejected + 1) })
    else if ltb (u32 (cache.seq + 1)) msg.seq
    then (fill_cache msg now, record counts { seq_gap = u32 (counts.seq_gap + 1) })
    else (fill_cache msg now, counts)

unfoldable pub update_state_cache :
    StateTlm → ℕ → StateCache → CacheCounts → StateCache × CacheCounts
update_state_cache msg now cache counts =
    if ltb (u32 (now + timestamp_max_future_ms)) msg.timestamp_ms
    then (cache, record counts { timestamp_rejected = u32 (counts.timestamp_rejected + 1) })
    else if cache.received
    then check_seq msg now cache (note_shift msg cache counts)
    else (fill_cache msg now, note_shift msg cache counts)

-- CFS_CORE_APP_AttitudeFieldsFinite and CFS_CORE_APP_EkfLocalFieldsFinite, on their six floats.
unfoldable pub all_finite : List Float32 → Bool
all_finite [] = true
all_finite (x ∷ xs) = is_finite x && all_finite xs

unfoldable pub state_expired : StateCache → ℕ → ℕ → Bool
state_expired cache now timeout =
    if not cache.received then true else ltb timeout (sub32 now cache.arrival_ms)
