-- ===== src/Mavlink/Upload/Loop.antt =====
-- The loop that copies waypoints, read entry by entry.
use cfs_telemetry_app.Common.{
  ℕ, zero, suc, ◌+◌, ◌-◌, ◌≤◌, ◌<◌, ◌≡◌, ◌≢◌, refl, ap, ◌∙◌, ◌⊎◌, inl, inr, List, [], ◌∷◌, length,
  drop, arith, ◌==◌, Bool-cases,
}
use mathlib.Core.Path.{subst}
use cfs_telemetry_app.Uplink.Messages.{Waypoint}
use cfs_telemetry_app.Mavlink.Send.{waypoint_at}
use cfs_telemetry_app.Mavlink.Upload.{set_at, copy_loop}

length-set_at : (xs : List Waypoint) (i : ℕ) (w : Waypoint) → length (set_at xs i w) ≡ length xs
length-set_at [] i w = refl
length-set_at (x ∷ xs) zero w = refl
length-set_at (x ∷ xs) (suc i) w = ap suc (length-set_at xs i w)

waypoint_at-set_at :
    (xs : List Waypoint) (i : ℕ) (w : Waypoint) → i < length xs → waypoint_at (set_at xs i w) i ≡ w
waypoint_at-set_at [] i w h = absurd (omega arith)
waypoint_at-set_at (x ∷ xs) zero w h = refl
waypoint_at-set_at (x ∷ xs) (suc i) w h = waypoint_at-set_at xs i w (omega arith)

waypoint_at-set_at_other :
    (xs : List Waypoint) (i j : ℕ) (w : Waypoint)
    → i ≢ j
    → waypoint_at (set_at xs i w) j ≡ waypoint_at xs j
waypoint_at-set_at_other [] i j w h = refl
waypoint_at-set_at_other (x ∷ xs) zero zero w h = absurd (h refl)
waypoint_at-set_at_other (x ∷ xs) zero (suc j) w h = refl
waypoint_at-set_at_other (x ∷ xs) (suc i) zero w h = refl
waypoint_at-set_at_other (x ∷ xs) (suc i) (suc j) w h =
    waypoint_at-set_at_other xs i j w (λ e. h (ap suc e))

i_cases : (i j : ℕ) → i ≤ j → (i ≡ j) ⊎ (suc i ≤ j)
i_cases i j l = elim (Bool-cases (i == j)) [
  | inl e ↦ inl (ground arith)
  | inr n ↦ inr (ground arith)
]

module _ (source : ℕ → Waypoint) where
  pub length-copy_loop :
      (n i : ℕ) (pending : List Waypoint) → length (copy_loop n i source pending) ≡ length pending
  unfolding copy_loop
  length-copy_loop zero i pending = refl
  length-copy_loop (suc n) i pending =
      length-copy_loop n (suc i) (set_at pending i (source i)) ∙ length-set_at pending i (source i)

  -- The entries before the loop are left alone.
  pub copy_loop-before :
      (n i j : ℕ) (pending : List Waypoint)
      → j < i
      → waypoint_at (copy_loop n i source pending) j ≡ waypoint_at pending j
  unfolding copy_loop
  copy_loop-before zero i j pending h = refl
  copy_loop-before (suc n) i j pending h =
      copy_loop-before n (suc i) j (set_at pending i (source i)) (omega arith)
      ∙ waypoint_at-set_at_other pending i j (source i) (λ e. absurd (omega (arith, e)))

  -- The entries of the loop are those of its source.
  pub copy_loop-inside :
      (n i j : ℕ) (pending : List Waypoint)
      → i ≤ j
      → j < i + n
      → i + n ≤ length pending
      → waypoint_at (copy_loop n i source pending) j ≡ source j
  unfolding copy_loop
  copy_loop-inside zero i j pending l h b = absurd (omega arith)
  copy_loop-inside (suc n) i j pending l h b = elim (i_cases i j l) [
    | inl e ↦
        subst
          (λ k. waypoint_at (copy_loop n (suc i) source (set_at pending i (source i))) k ≡ source k)
          e
          (copy_loop-before n (suc i) i (set_at pending i (source i)) (omega arith)
            ∙ waypoint_at-set_at pending i (source i) (omega arith))
    | inr m ↦
        copy_loop-inside n (suc i) j (set_at pending i (source i)) m (omega arith)
          (omega (arith, length-set_at pending i (source i)))
  ]

-- Lists that read the same are the same.
pub list_ext :
    (xs ys : List Waypoint)
    → length xs ≡ length ys
    → ((j : ℕ) → j < length xs → waypoint_at xs j ≡ waypoint_at ys j)
    → xs ≡ ys
list_ext [] [] l h = refl
list_ext [] (y ∷ ys) l h = absurd (omega arith)
list_ext (x ∷ xs) [] l h = absurd (omega arith)
list_ext (x ∷ xs) (y ∷ ys) l h =
    let e : x ≡ y = h 0 (omega arith) in
    rw (e, list_ext xs ys (omega arith) (λ j k. h (suc j) (omega arith))) refl

pub waypoint_at-drop :
    (n : ℕ) (xs : List Waypoint) (i j : ℕ)
    → i ≡ n + j
    → waypoint_at (drop n xs) j ≡ waypoint_at xs i
waypoint_at-drop zero xs i j e = let f : i ≡ j = omega arith in rw f refl
waypoint_at-drop (suc n) [] i j e = refl
waypoint_at-drop (suc n) (x ∷ xs) zero j e = absurd (omega arith)
waypoint_at-drop (suc n) (x ∷ xs) (suc i) j e = waypoint_at-drop n xs i j (omega arith)

pub length-drop : (n : ℕ) (xs : List Waypoint) → length (drop n xs) ≡ length xs - n
length-drop zero xs = omega arith
length-drop (suc n) [] = omega arith
length-drop (suc n) (x ∷ xs) = omega (arith, length-drop n xs)
