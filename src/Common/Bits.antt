-- ===== src/Common/Bits.antt =====
-- `^` on native numbers: the equation for the lowest digit, and the laws that follow from it.
use Prim.Native.Nat.{
  ℕ, zero, suc, ◌+◌, ◌*◌, ◌/◌, ◌%◌, ◌^◌, ◌≤◌, ◌<◌, differ, bit_xor, digits, bit_xor-bitwise,
}
use mathlib.Core.Path.{◌≡◌, refl, ap, sym, ◌∙◌}
use mathlib.Core.Bool.{Bool, true, ◌&&◌}
use native.Mathlib.Nat.{pow-suc}
use native.Mathlib.Omega.{arith}

-- The recursion that `bit_xor` stands for, with its fuel last.
abbrev xor_with : ℕ → ℕ → ℕ → ℕ
xor_with a b fuel = digits (λ rest. rest) differ fuel a b

-- Fuel beyond the first operand changes nothing.
xor_with_enough : (a b fuel more : ℕ) → a ≤ fuel → a ≤ more → xor_with a b fuel ≡ xor_with a b more
xor_with_enough (suc a) b (suc fuel) (suc more) h k =
    let half = xor_with_enough (suc a / 2) (b / 2) fuel more in
    omega (arith, half (omega arith) (omega arith))
xor_with_enough (suc a) b zero more h k = absurd (omega arith)
xor_with_enough (suc a) b (suc fuel) zero h k = absurd (omega arith)
xor_with_enough zero b (suc fuel) (suc more) h k = refl
xor_with_enough zero b (suc fuel) zero h k = refl
xor_with_enough zero b zero (suc more) h k = refl
xor_with_enough zero b zero zero h k = refl

pub zero-bit_xor : (b : ℕ) → bit_xor 0 b ≡ b
zero-bit_xor b = bit_xor-bitwise 0 b

pub differ_bits : (x y : ℕ) → x < 2 → y < 2 → differ x y ≡ (x + y) % 2
differ_bits zero zero h k = refl
differ_bits zero (suc zero) h k = refl
differ_bits (suc zero) zero h k = refl
differ_bits (suc zero) (suc zero) h k = refl
differ_bits zero (suc (suc y)) h k = absurd (omega arith)
differ_bits (suc zero) (suc (suc y)) h k = absurd (omega arith)
differ_bits (suc (suc x)) y h k = absurd (omega arith)

xor_by_differ : (a b : ℕ) → bit_xor a b ≡ bit_xor (a / 2) (b / 2) * 2 + differ (a % 2) (b % 2)
xor_by_differ zero b =
    omega (
      arith,
      zero-bit_xor b,
      zero-bit_xor (b / 2),
      differ_bits 0 (b % 2) (omega arith) (omega arith),
    )
xor_by_differ (suc a) b = omega (
  arith,
  bit_xor-bitwise (suc a) b,
  bit_xor-bitwise (suc a / 2) (b / 2),
  xor_with_enough (suc a / 2) (b / 2) a (suc a / 2) (omega arith) (omega arith),
)

-- The lowest digit of a `^`.
pub bit_xor_step : (a b : ℕ) → bit_xor a b ≡ bit_xor (a / 2) (b / 2) * 2 + (a % 2 + b % 2) % 2
bit_xor_step a b =
    omega (arith, xor_by_differ a b, differ_bits (a % 2) (b % 2) (omega arith) (omega arith))

xor_half : (a b : ℕ) → bit_xor a b / 2 ≡ bit_xor (a / 2) (b / 2)
xor_half a b = omega (arith, bit_xor_step a b)

xor_cancel_below : (n a b : ℕ) → a ≤ n → b ≤ n → bit_xor (bit_xor a b) b ≡ a
xor_cancel_below zero a b p q =
    let e : a ≡ 0 = omega arith in let f : b ≡ 0 = omega arith in rw (e, f) refl
xor_cancel_below (suc n) a b p q = omega (
  arith,
  bit_xor_step a b,
  bit_xor_step (bit_xor a b) b,
  ap (λ t. bit_xor t (b / 2)) (xor_half a b),
  xor_cancel_below n (a / 2) (b / 2) (omega arith) (omega arith),
)

-- A mask that is applied twice is undone.
pub bit_xor-cancel : (a b : ℕ) → bit_xor (bit_xor a b) b ≡ a
bit_xor-cancel a b = xor_cancel_below (a + b) a b (omega arith) (omega arith)

xor_comm_below : (n a b : ℕ) → a ≤ n → b ≤ n → bit_xor a b ≡ bit_xor b a
xor_comm_below zero a b p q =
    let e : a ≡ 0 = omega arith in let f : b ≡ 0 = omega arith in rw (e, f) refl
xor_comm_below (suc n) a b p q = omega (
  arith,
  bit_xor_step a b,
  bit_xor_step b a,
  xor_comm_below n (a / 2) (b / 2) (omega arith) (omega arith),
)

pub bit_xor_comm : (a b : ℕ) → bit_xor a b ≡ bit_xor b a
bit_xor_comm a b = xor_comm_below (a + b) a b (omega arith) (omega arith)

pub bit_xor_injective_right : (a b c : ℕ) → bit_xor a b ≡ bit_xor a c → b ≡ c
bit_xor_injective_right a b c e =
    sym (bit_xor-cancel b a)
    ∙ ap (λ t. bit_xor t a) (bit_xor_comm b a ∙ e ∙ bit_xor_comm a c)
    ∙ bit_xor-cancel c a

pub bit_xor_injective_left : (a b c : ℕ) → bit_xor a c ≡ bit_xor b c → a ≡ b
bit_xor_injective_left a b c e =
    sym (bit_xor-cancel a c) ∙ ap (λ t. bit_xor t c) e ∙ bit_xor-cancel b c

-- `^` stays inside the width of its operands.
pub bit_xor-lt : (k a b : ℕ) → a < 2 ^ k → b < 2 ^ k → bit_xor a b < 2 ^ k
bit_xor-lt zero a b p q =
    let e : a ≡ 0 = omega arith in let f : b ≡ 0 = omega arith in rw (e, f) (omega arith)
bit_xor-lt (suc k) a b p q = omega (
  arith,
  bit_xor_step a b,
  pow-suc 2 k,
  bit_xor-lt k (a / 2) (b / 2) (omega (arith, pow-suc 2 k)) (omega (arith, pow-suc 2 k)),
)

-- A test on the numbers under a bound, the greatest first.
unfoldable pub every_under : (ℕ → Bool) → ℕ → Bool
every_under test zero = true
every_under test (suc bound) = test bound && every_under test bound

pub every_under_lem :
    (test : ℕ → Bool) (bound i : ℕ) → i < bound → every_under test bound ≡ true → test i ≡ true
unfolding every_under
every_under_lem test (suc bound) i p h = ground (arith, every_under_lem test bound i)
every_under_lem test zero i p h = absurd (omega arith)
