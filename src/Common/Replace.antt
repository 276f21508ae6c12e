-- ===== src/Common/Replace.antt =====
-- Lists of bytes of which one is replaced.
use Prim.Native.Nat.{ℕ, zero, suc, ◌-◌, ◌≤◌, ◌<◌}
use mathlib.Core.Path.{◌≡◌, refl, ap}
use mathlib.Core.Logic.{◌≢◌}
use mathlib.Core.List.{List, [], ◌∷◌, ◌++◌}
use native.Mathlib.Omega.{arith}
use cfs_telemetry_app.Common.Lists.{length, take}
use cfs_telemetry_app.Common.Words.{byte_at}

pub replaced-length :
    (before after : List ℕ) (a b : ℕ) → length (before ++ a ∷ after) ≡ length (before ++ b ∷ after)
replaced-length [] after a b = refl
replaced-length (x ∷ before) after a b = ap suc (replaced-length before after a b)

-- The other positions keep their byte.
pub replaced-get_or :
    (before after : List ℕ) (a b i : ℕ)
    → i ≢ length before
    → byte_at (before ++ a ∷ after) i ≡ byte_at (before ++ b ∷ after) i
replaced-get_or [] after a b zero h = absurd (h refl)
replaced-get_or [] after a b (suc i) h = refl
replaced-get_or (x ∷ before) after a b zero h = refl
replaced-get_or (x ∷ before) after a b (suc i) h =
    replaced-get_or before after a b i (λ e. h (ap suc e))

pub replaced-here :
    (before after : List ℕ) (a : ℕ) → byte_at (before ++ a ∷ after) (length before) ≡ a
replaced-here [] after a = refl
replaced-here (x ∷ before) after a = replaced-here before after a

-- A prefix that ends before the byte does not hold it, and a longer one holds it in its place.
pub take_before :
    (n : ℕ) (before after : List ℕ) (a b : ℕ)
    → n ≤ length before
    → take n (before ++ a ∷ after) ≡ take n (before ++ b ∷ after)
take_before zero before after a b h = refl
take_before (suc n) [] after a b h = absurd (omega arith)
take_before (suc n) (x ∷ before) after a b h =
    ap (λ t. x ∷ t) (take_before n before after a b (omega arith))

pub take_around :
    (n : ℕ) (before after : List ℕ) (a : ℕ)
    → length before < n
    → take n (before ++ a ∷ after) ≡ before ++ a ∷ take (n - length before - 1) after
take_around zero before after a h = absurd (omega arith)
take_around (suc n) [] after a h = let e : suc n - 0 - 1 ≡ n = omega arith in rw e refl
take_around (suc n) (x ∷ before) after a h =
    let e : suc n - suc (length before) - 1 ≡ n - length before - 1 = omega arith in
    rw e (ap (λ t. x ∷ t) (take_around n before after a (omega arith)))
