-- ===== src/CfsCore/Restarts/Spacing.antt =====
-- How often cfs_core_app restarts another application.
use cfs_telemetry_app.Common.{
  ℕ, ◌+◌, ◌≤◌, ◌<◌, ◌≡◌, refl, sym, ap, ◌⊎◌, Bool, true, false, List, [], ◌∷◌, inl, inr, if_cases,
  ◌∙◌, All, arith,
}
use cfs_telemetry_app.CfsCore.State.{App, bridge_app, uplink_app, lora_app, Cooldown, Cooldowns}
use cfs_telemetry_app.CfsCore.Restarts.{check_app_restart, check_app_restarts}

-- A cycle of the health check, as far as the restarts depend on it.
pub record Cycle : Type 0 where
  pub now : ℕ
  pub bridge_out : Bool
  pub uplink_out : Bool
  pub lora_out : Bool
  pub finds : App → Bool

unfoldable pub restart_cycle : Cycle → Cooldowns → Cooldowns × List App
restart_cycle c cs = check_app_restarts c.now c.bridge_out c.uplink_out c.lora_out c.finds cs

abbrev pub log_restart : ℕ → List App → List (ℕ × App) → List (ℕ × App)
log_restart now [] rest = rest
log_restart now (app ∷ apps) rest = (now, app) ∷ log_restart now apps rest

-- The restarts of a series of cycles, each with its time, the first one first.
unfoldable pub restarts : List Cycle → Cooldowns → List (ℕ × App)
restarts [] cs = []
restarts (c ∷ cycles) cs =
    let (cs', issued) = restart_cycle c cs in log_restart c.now issued (restarts cycles cs')

abbrev pub same_app : App → App → Bool
same_app bridge_app bridge_app = true
same_app uplink_app uplink_app = true
same_app lora_app lora_app = true
same_app _ _ = false

-- The entries of an application come 5 seconds or more after `t`.
abbrev pub IsAfter : ℕ → App → List (ℕ × App) → Type 0
IsAfter t app = All (λ e. same_app app e.1 ≡ true → t + 5000 ≤ e.0)

-- Two entries of one application are 5 seconds or more apart.
abbrev pub IsSpaced : List (ℕ × App) → Type 0
IsSpaced [] = Unit
IsSpaced (e ∷ rest) = IsAfter e.0 e.1 rest × IsSpaced rest

-- The times do not go back, and none is in the last 5 seconds before the clock wraps.
abbrev pub IsClock : ℕ → List Cycle → Type 0
IsClock t [] = Unit
IsClock t (c ∷ cycles) = ((t ≤ c.now) × (c.now + 5000 < 4294967296)) × IsClock c.now cycles

abbrev pub Waits : ℕ → Cooldown → Type 0
Waits t c = (c.next_restart_ms ≡ 0) ⊎ (t + 5000 ≤ c.next_restart_ms)

abbrev pub cooldown_of : App → Cooldowns → Cooldown
cooldown_of bridge_app cs = cs.bridge
cooldown_of uplink_app cs = cs.uplink
cooldown_of lora_app cs = cs.lora

pub restart_cycle-late :
    (c : Cycle) (cs : Cooldowns) (t : ℕ) (app : App)
    → t ≤ c.now
    → c.now + 5000 < 4294967296
    → Waits t (cooldown_of app cs)
    → (restart_cycle c cs).1 ≡ app ∷ []
    → t + 5000 ≤ c.now
unfolding restart_cycle check_app_restarts check_app_restart
restart_cycle-late c cs t bridge_app le lt w h = ground arith
restart_cycle-late c cs t uplink_app le lt w h = ground arith
restart_cycle-late c cs t lora_app le lt w h = ground arith

pub restart_cycle-Waits :
    (c : Cycle) (cs : Cooldowns) (t : ℕ) (app : App)
    → t ≤ c.now
    → c.now + 5000 < 4294967296
    → Waits t (cooldown_of app cs)
    → Waits t (cooldown_of app (restart_cycle c cs).0)
unfolding restart_cycle check_app_restarts check_app_restart
restart_cycle-Waits c cs t bridge_app le lt w = ground arith
restart_cycle-Waits c cs t uplink_app le lt w = ground arith
restart_cycle-Waits c cs t lora_app le lt w = ground arith

pub restart_cycle-cooldown :
    (c : Cycle) (cs : Cooldowns) (app : App)
    → c.now + 5000 < 4294967296
    → (restart_cycle c cs).1 ≡ app ∷ []
    → Waits c.now (cooldown_of app (restart_cycle c cs).0)
unfolding restart_cycle check_app_restarts check_app_restart
restart_cycle-cooldown c cs bridge_app lt h = ground arith
restart_cycle-cooldown c cs uplink_app lt h = ground arith
restart_cycle-cooldown c cs lora_app lt h = ground arith

same_app_eq : (a b : App) → same_app a b ≡ true → a ≡ b
same_app_eq bridge_app bridge_app h = refl
same_app_eq uplink_app uplink_app h = refl
same_app_eq lora_app lora_app h = refl
same_app_eq bridge_app uplink_app h = cc
same_app_eq bridge_app lora_app h = cc
same_app_eq uplink_app bridge_app h = cc
same_app_eq uplink_app lora_app h = cc
same_app_eq lora_app bridge_app h = cc
same_app_eq lora_app uplink_app h = cc

-- A cycle restarts no application, or one.
abbrev pub IsSingle : List App → Type 0
IsSingle apps = (apps ≡ []) ⊎ ((app : App) × (apps ≡ app ∷ []))

abbrev HasSingle : Cooldowns × List App → Type 0
HasSingle r = IsSingle r.1

abbrev pub AreSingle : List Cycle → Cooldowns → Type 0
AreSingle [] cs = Unit
AreSingle (c ∷ cycles) cs =
    IsSingle (restart_cycle c cs).1 × AreSingle cycles (restart_cycle c cs).0

restart_cycle-IsSingle : (c : Cycle) (cs : Cooldowns) → IsSingle (restart_cycle c cs).1
unfolding restart_cycle check_app_restarts
restart_cycle-IsSingle c cs =
    if_cases HasSingle (check_app_restart c.now c.bridge_out (c.finds bridge_app) cs.bridge).1 _ _
      (λ _. inr (bridge_app, refl))
      (λ _.
        if_cases HasSingle (check_app_restart c.now c.uplink_out (c.finds uplink_app) cs.uplink).1 _
          _ (λ _. inr (uplink_app, refl))
          (λ _.
            if_cases IsSingle (check_app_restart c.now c.lora_out (c.finds lora_app) cs.lora).1 _ _
              (λ _. inr (lora_app, refl)) (λ _. inl refl)))

restarts-AreSingle : (cycles : List Cycle) (cs : Cooldowns) → AreSingle cycles cs
restarts-AreSingle [] cs = tt
restarts-AreSingle (c ∷ cycles) cs =
    (restart_cycle-IsSingle c cs, restarts-AreSingle cycles (restart_cycle c cs).0)

log_restart-IsAfter :
    (now t : ℕ) (app : App) (issued : List App) (rest : List (ℕ × App))
    → IsSingle issued
    → (issued ≡ app ∷ [] → t + 5000 ≤ now)
    → IsAfter t app rest
    → IsAfter t app (log_restart now issued rest)
log_restart-IsAfter now t app issued rest (inl e) late after = rw e after
log_restart-IsAfter now t app issued rest (inr (app', e)) late after =
    rw e ((λ k. late (e ∙ ap (λ a. a ∷ []) (sym (same_app_eq app app' k)))), after)

restarts-IsAfter :
    (cycles : List Cycle) (cs : Cooldowns) (t s : ℕ) (app : App)
    → t ≤ s
    → IsClock s cycles
    → Waits t (cooldown_of app cs)
    → IsAfter t app (restarts cycles cs)
unfolding restarts
restarts-IsAfter [] cs t s app le clock w = tt
restarts-IsAfter (c ∷ cycles) cs t s app le clock w =
    let in_time : t ≤ c.now = omega arith in
    log_restart-IsAfter c.now t app (restart_cycle c cs).1 (restarts cycles (restart_cycle c cs).0)
      (restart_cycle-IsSingle c cs) (restart_cycle-late c cs t app in_time clock.0.1 w)
      (restarts-IsAfter cycles (restart_cycle c cs).0 t c.now app in_time clock.1
        (restart_cycle-Waits c cs t app in_time clock.0.1 w))

log_restart-IsSpaced :
    (now : ℕ) (issued : List App) (rest : List (ℕ × App))
    → IsSingle issued
    → ((app : App) → issued ≡ app ∷ [] → IsAfter now app rest)
    → IsSpaced rest
    → IsSpaced (log_restart now issued rest)
log_restart-IsSpaced now issued rest (inl e) after spaced = rw e spaced
log_restart-IsSpaced now issued rest (inr (app, e)) after spaced = rw e (after app e, spaced)

restart_log-IsSpaced :
    (cycles : List Cycle) (cs : Cooldowns) (t : ℕ)
    → IsClock t cycles
    → IsSpaced (restarts cycles cs)
unfolding restarts
restart_log-IsSpaced [] cs t clock = tt
restart_log-IsSpaced (c ∷ cycles) cs t clock =
    log_restart-IsSpaced c.now (restart_cycle c cs).1 (restarts cycles (restart_cycle c cs).0)
      (restart_cycle-IsSingle c cs)
      (λ app h.
        restarts-IsAfter cycles (restart_cycle c cs).0 c.now c.now app (omega arith) clock.1
          (restart_cycle-cooldown c cs app clock.0.1 h))
      (restart_log-IsSpaced cycles (restart_cycle c cs).0 c.now clock.1)

-- Over any series of cycles, from any cooldowns and whatever is timed out in each of them, a cycle
-- restarts one application at most, and two restarts of one application come 5 seconds or more apart.
-- The clock does not go back, and it does not wrap within 5 seconds of a cycle.
pub restarts-IsSpaced :
    (cycles : List Cycle) (cs : Cooldowns) (t : ℕ)
    → IsClock t cycles
    → AreSingle cycles cs × IsSpaced (restarts cycles cs)
restarts-IsSpaced cycles cs t clock =
    (restarts-AreSingle cycles cs, restart_log-IsSpaced cycles cs t clock)
