-- ===== src/Common/Floats.antt =====
-- The `float` of C as its IEEE 754 single-precision bit pattern, below 2 ^ 32.
use Prim.Native.Nat.{ℕ, ◌+◌, ◌-◌, ◌/◌, ◌%◌}
use mathlib.Core.Bool.{Bool, not, ◌&&◌, ◌||◌}
use cfs_telemetry_app.Common.Tests.{ltb, leb, ◌==◌, if◌then◌else◌}

abbrev pub Float32 : Type 0
Float32 = ℕ

-- Neither an infinity nor a NaN: the exponent is not all ones.
abbrev pub is_finite : Float32 → Bool
is_finite w = not (w / 8388608 % 256 == 255)

-- All ones in the exponent, and a fraction that is not zero.
abbrev pub is_nan : Float32 → Bool
is_nan w = w / 8388608 % 256 == 255 && not (w % 8388608 == 0)

-- The magnitude of a number that is not negative, and of one that is: one of the two is 0.
abbrev pub pos_magnitude : Float32 → ℕ
pos_magnitude w = if ltb w 2147483648 then w else 0

abbrev pub neg_magnitude : Float32 → ℕ
neg_magnitude w = if ltb w 2147483648 then 0 else w - 2147483648

-- `a <= b` and `a < b`, false when one side is a NaN. The patterns of one sign are ordered as
-- the numbers are, and the two zeros are equal.
abbrev pub float_le : Float32 → Float32 → Bool
float_le a b =
    not (is_nan a || is_nan b)
    && leb (pos_magnitude a + neg_magnitude b) (pos_magnitude b + neg_magnitude a)

abbrev pub float_lt : Float32 → Float32 → Bool
float_lt a b =
    not (is_nan a || is_nan b)
    && ltb (pos_magnitude a + neg_magnitude b) (pos_magnitude b + neg_magnitude a)
