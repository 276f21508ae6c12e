-- ===== src/Uplink/Admission/Sequence.antt =====
-- The sequence window of uplink_app_cmds.c (UPLINK_APP_CheckSequence).
use cfs_telemetry_app.Common.{ℕ, ◌+◌, ◌<◌, ◌≡◌, ltb, ◌==◌, if◌then◌else◌, u16, arith}
use cfs_telemetry_app.Uplink.Admission.{seq_new, seq_duplicate, seq_replay, compare_sequence}

-- A sequence that is k steps ahead of the last one on the circle of 16-bit numbers is a duplicate
-- for k = 0, new for k from 1 to 32767, and a replay for k from 32768 to 65535, also where the numbers
-- wrap around in between.
pub compare_sequence_window :
    (last k : ℕ)
    → last < 65536
    → k < 65536
    → compare_sequence (u16 (last + k)) last
      ≡ (if k == 0 then seq_duplicate else if ltb k 32768 then seq_new else seq_replay)
unfolding compare_sequence
compare_sequence_window last k h p = ground arith

-- If a sequence is new after another one, the other one is a replay after it: no two sequences are
-- each new after the other.
pub compare_sequence_asym :
    (a b : ℕ)
    → a < 65536
    → b < 65536
    → compare_sequence a b ≡ seq_new
    → compare_sequence b a ≡ seq_replay
unfolding compare_sequence
compare_sequence_asym a b p q h = ground arith
