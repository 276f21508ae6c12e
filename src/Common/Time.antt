-- ===== src/Common/Time.antt =====
-- CFE_TIME_SysTime_t, a reading of the mission clock, and its milliseconds: the body that each
-- application's GetTimeMs has.
use cfs_telemetry_app.Common.Words.{u32}
use Prim.Native.Nat.{ℕ, ◌+◌, ◌*◌, ◌/◌}

pub record SysTime : Type 0 where
  pub seconds : ℕ  -- uint32
  pub subseconds : ℕ  -- uint32, in units of 2 ^ -32 s

-- The products fit the uint64 of the code; the cast to uint32 wraps.
unfoldable pub get_time_ms : SysTime → ℕ
get_time_ms t = u32 (t.seconds * 1000 + t.subseconds * 1000 / 4294967296)
