-- ===== src/CfsCore/Cache/Order.antt =====
-- A cache of the flight state of cfs_core_app over a series of messages.
use cfs_telemetry_app.Common.{ℕ, ◌≤◌, ◌<◌, ◌≡◌, refl, sym, true, List, [], ◌∷◌, All, sub32, arith}
use mathlib.Core.Path.{subst}
use cfs_telemetry_app.CfsCore.State.{StateCache, CacheCounts}
use cfs_telemetry_app.CfsCore.Cache.{StateTlm, update_state_cache, state_expired}

-- Messages with their times of arrival, the first one first.
pub update_all : List (StateTlm × ℕ) → StateCache → CacheCounts → StateCache × CacheCounts
update_all [] cache counts = (cache, counts)
update_all ((msg, now) ∷ msgs) cache counts =
    let (cache', counts') = update_state_cache msg now cache counts in
    update_all msgs cache' counts'

update_state_cache-kept :
    (msg : StateTlm) (now : ℕ) (cache : StateCache) (counts : CacheCounts)
    → cache.received ≡ true
    → msg.seq ≤ cache.seq
    → (update_state_cache msg now cache counts).0 ≡ cache
unfolding update_state_cache
update_state_cache-kept msg now cache counts r le = ground arith

update_all-kept :
    (msgs : List (StateTlm × ℕ)) (cache : StateCache) (counts : CacheCounts)
    → cache.received ≡ true
    → All (λ m. m.0.seq ≤ cache.seq) msgs
    → (update_all msgs cache counts).0 ≡ cache
unfolding update_all
update_all-kept [] cache counts r le = refl
update_all-kept ((msg, now) ∷ msgs) cache counts r le =
    let kept = update_state_cache-kept msg now cache counts r le.0 in
    let rest = update_all-kept msgs cache (update_state_cache msg now cache counts).1 r le.1 in
    subst (λ c. (update_all msgs c (update_state_cache msg now cache counts).1).0 ≡ cache)
      (sym kept) rest

-- While the sequences of the messages stay at or below the one that the cache holds, as they do
-- after the bridge has been restarted and counts from 0 again, the cache keeps its contents,
-- however many messages arrive, and it is expired from the timeout after its last arrival on.
pub update_all-expired :
    (msgs : List (StateTlm × ℕ)) (cache : StateCache) (counts : CacheCounts) (now timeout : ℕ)
    → cache.received ≡ true
    → All (λ m. m.0.seq ≤ cache.seq) msgs
    → timeout < sub32 now cache.arrival_ms
    → let cache' = (update_all msgs cache counts).0 in
      (cache' ≡ cache) × (state_expired cache' now timeout ≡ true)
unfolding state_expired
update_all-expired msgs cache counts now timeout r le late =
    let kept = update_all-kept msgs cache counts r le in (kept, rw kept (ground arith))

update_state_cache-seq :
    (msg : StateTlm) (now : ℕ) (cache : StateCache) (counts : CacheCounts)
    → cache.received ≡ true
    → let cache' = (update_state_cache msg now cache counts).0 in
      (cache'.received ≡ true) × (cache.seq ≤ cache'.seq)
unfolding update_state_cache
update_state_cache-seq msg now cache counts r = ground arith

-- The sequence that a cache holds never goes back, once it has received a message.
pub update_all-seq :
    (msgs : List (StateTlm × ℕ)) (cache : StateCache) (counts : CacheCounts)
    → cache.received ≡ true
    → cache.seq ≤ (update_all msgs cache counts).0.seq
unfolding update_all
update_all-seq [] cache counts r = omega arith
update_all-seq ((msg, now) ∷ msgs) cache counts r =
    let step = update_state_cache-seq msg now cache counts r in
    let (cache', counts') = update_state_cache msg now cache counts in
    omega (
      arith,
      step.1,
      update_all-seq msgs (update_state_cache msg now cache counts).0
          (update_state_cache msg now cache counts).1 step.0,
    )
