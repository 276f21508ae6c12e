-- ===== src/CfsCore/Restarts/Turns.antt =====
-- The turn of lora_tdm_app, the last in the order of priority, while several applications are timed out
-- (CFS_CORE_APP_CheckAppRestarts, cfs_core_app/fsw/src/cfs_core_app_utils.c).
use cfs_telemetry_app.Common.{◌+◌, ◌≤◌, ◌<◌, ◌≡◌, ◌≢◌, ◌⊎◌, inl, inr, true, [], ◌∷◌, arith}
use cfs_telemetry_app.CfsCore.State.{App, bridge_app, uplink_app, lora_app, Cooldowns}
use cfs_telemetry_app.CfsCore.Restarts.{check_app_restart, check_app_restarts}
use cfs_telemetry_app.CfsCore.Restarts.Spacing.{
  Cycle, restart_cycle, Waits, cooldown_of, restart_cycle-late, restart_cycle-Waits,
  restart_cycle-cooldown,
}

-- The application of the lowest priority waits to be restarted.
pub record IsLoraDue (c : Cycle) (cs : Cooldowns) : Type 0 where
  pub armed : cs.lora.next_restart_ms ≢ 0
  pub over : cs.lora.next_restart_ms ≤ c.now

-- A cycle in which it is timed out and is found.
pub record IsLoraOut (c : Cycle) : Type 0 where
  pub out : c.lora_out ≡ true
  pub found : c.finds lora_app ≡ true

-- A cycle that finds it due restarts it, or one of the other two and leaves it due.
restart_cycle-due :
    (c : Cycle) (cs : Cooldowns)
    → IsLoraDue c cs
    → IsLoraOut c
    → ((restart_cycle c cs).1 ≡ lora_app ∷ [])
      ⊎ (((restart_cycle c cs).1 ≡ bridge_app ∷ []) ⊎ ((restart_cycle c cs).1 ≡ uplink_app ∷ []))
        × IsLoraDue c (restart_cycle c cs).0
unfolding restart_cycle check_app_restarts check_app_restart
restart_cycle-due c cs due out = ground arith

-- The same cooldowns at a later time.
IsLoraDue-later : (a b : Cycle) (cs : Cooldowns) → a.now ≤ b.now → IsLoraDue a cs → IsLoraDue b cs
IsLoraDue-later a b cs le due = ground (arith, due.armed, due.over)

-- An application that was restarted less than 5 seconds ago is not restarted.
module _ (a b : Cycle) (app : App) (cs : Cooldowns) where
  not_again :
      a.now ≤ b.now
      → b.now < a.now + 5000
      → b.now + 5000 < 4294967296
      → Waits a.now (cooldown_of app cs)
      → (restart_cycle b cs).1 ≢ app ∷ []
  not_again le near lt w h = ground (arith, restart_cycle-late b cs a.now app le lt w h)

abbrev pub Restarts : Cycle → Cooldowns → App → Type 0
Restarts c cs app = (restart_cycle c cs).1 ≡ app ∷ []

-- The other applications have had their turns.
last_turn :
    (c : Cycle) (cs : Cooldowns)
    → IsLoraDue c cs
    → IsLoraOut c
    → (restart_cycle c cs).1 ≢ bridge_app ∷ []
    → (restart_cycle c cs).1 ≢ uplink_app ∷ []
    → Restarts c cs lora_app
last_turn c cs due out no_bridge no_uplink = elim (restart_cycle-due c cs due out) [
  | inl h ↦ h
  | inr (inl h, d) ↦ absurd (no_bridge h)
  | inr (inr h, d) ↦ absurd (no_uplink h)
]

-- Three cycles less than 5 seconds apart, and what each leaves.
module _ (a b c : Cycle) (cs : Cooldowns) (order : (a.now ≤ b.now) × (b.now ≤ c.now))
    (near : c.now < a.now + 5000) (lt : c.now + 5000 < 4294967296)
    (outs : IsLoraOut b × IsLoraOut c) where
  not_in_second :
      (app : App) → Restarts a cs app → (restart_cycle b (restart_cycle a cs).0).1 ≢ app ∷ []
  not_in_second app h =
      not_again a b app (restart_cycle a cs).0 order.0 (omega arith) (omega arith)
        (restart_cycle-cooldown a cs app (omega arith) h)

  not_in_third :
      (first second : App)
      → let cs' = (restart_cycle a cs).0 in
        let cs'' = (restart_cycle b cs').0 in
        Restarts a cs first
        → Restarts b cs' second
        → ((restart_cycle c cs'').1 ≢ first ∷ []) × ((restart_cycle c cs'').1 ≢ second ∷ [])
  not_in_third first second h k =
      let cs' = (restart_cycle a cs).0 in
      let cs'' = (restart_cycle b cs').0 in
      (
        not_again a c first cs'' (omega arith) near lt (
            restart_cycle-Waits b cs' a.now first order.0 (omega arith)
              (restart_cycle-cooldown a cs first (omega arith) h)),
        not_again b c second cs'' order.1 (omega arith) lt
            (restart_cycle-cooldown b cs' second (omega arith) k),
      )

  after_bridge :
      let cs' = (restart_cycle a cs).0 in
      let cs'' = (restart_cycle b cs').0 in
      Restarts a cs bridge_app
      → IsLoraDue a cs'
      → Restarts b cs' lora_app ⊎ Restarts c cs'' lora_app
  after_bridge h d =
      let cs' = (restart_cycle a cs).0 in
      let cs'' = (restart_cycle b cs').0 in
      elim (restart_cycle-due b cs' (IsLoraDue-later a b cs' order.0 d) outs.0) [
        | inl k ↦ inl k
        | inr (inl k, e) ↦ absurd (not_in_second bridge_app h k)
        | inr (inr k, e) ↦ inr (
            let no = not_in_third bridge_app uplink_app h k in
            last_turn c cs'' (IsLoraDue-later b c cs'' order.1 e) outs.1 no.0 no.1)
      ]

  after_uplink :
      let cs' = (restart_cycle a cs).0 in
      let cs'' = (restart_cycle b cs').0 in
      Restarts a cs uplink_app
      → IsLoraDue a cs'
      → Restarts b cs' lora_app ⊎ Restarts c cs'' lora_app
  after_uplink h d =
      let cs' = (restart_cycle a cs).0 in
      let cs'' = (restart_cycle b cs').0 in
      elim (restart_cycle-due b cs' (IsLoraDue-later a b cs' order.0 d) outs.0) [
        | inl k ↦ inl k
        | inr (inl k, e) ↦ inr (
            let no = not_in_third uplink_app bridge_app h k in
            last_turn c cs'' (IsLoraDue-later b c cs'' order.1 e) outs.1 no.1 no.0)
        | inr (inr k, e) ↦ absurd (not_in_second uplink_app h k)
      ]

  -- lora_tdm_app, the last in the order of priority, timed out and due in the first of three cycles
  -- less than 5 seconds apart, timed out and found by the executive in each of them, is restarted in
  -- one of the three, whatever else is timed out. The clock does not go back, nor wrap within 5
  -- seconds of the last cycle.
  pub lora_restart_turn :
      IsLoraOut a
      → IsLoraDue a cs
      → let cs' = (restart_cycle a cs).0 in
        let cs'' = (restart_cycle b cs').0 in
        Restarts a cs lora_app ⊎ Restarts b cs' lora_app ⊎ Restarts c cs'' lora_app
  lora_restart_turn out due = elim (restart_cycle-due a cs due out) [
    | inl h ↦ inl h
    | inr (inl h, d) ↦ inr (after_bridge h d)
    | inr (inr h, d) ↦ inr (after_uplink h d)
  ]
