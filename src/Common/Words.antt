-- ===== src/Common/Words.antt =====
-- Machine words as native numbers: the casts of C, and little-endian bytes.
use Prim.Native.Nat.{ℕ, ◌+◌, ◌-◌, ◌*◌, ◌/◌, ◌%◌, ◌<◌}
use mathlib.Core.Path.{◌≡◌}
use mathlib.Core.List.{List, [], ◌∷◌}
use native.Mathlib.Omega.{arith}
use cfs_telemetry_app.Common.Lists.{get_or}

abbrev pub u8 : ℕ → ℕ
u8 n = n % 256

abbrev pub u16 : ℕ → ℕ
u16 n = n % 65536

abbrev pub u32 : ℕ → ℕ
u32 n = n % 4294967296

-- (uint16)(a - b) and (uint32)(a - b). `-` on ℕ stops at 0, so the modulus is added first.
abbrev pub sub16 : ℕ → ℕ → ℕ
sub16 a b = (a + 65536 - b) % 65536

abbrev pub sub32 : ℕ → ℕ → ℕ
sub32 a b = (a + 4294967296 - b) % 4294967296

abbrev pub byte_at : List ℕ → ℕ → ℕ
byte_at buf i = get_or buf i 0

-- The four bytes are disjoint fields, so `|` of the shifted bytes is their sum.
abbrev pub le16 : ℕ → ℕ → ℕ
le16 b0 b1 = b0 + b1 * 256

abbrev pub le32 : ℕ → ℕ → ℕ → ℕ → ℕ
le32 b0 b1 b2 b3 = b0 + b1 * 256 + b2 * 65536 + b3 * 16777216

-- A word of a structure that lies in memory.
abbrev pub u32_at : List ℕ → ℕ → ℕ
u32_at bytes i =
    le32 (byte_at bytes i) (byte_at bytes (i + 1)) (byte_at bytes (i + 2)) (byte_at bytes (i + 3))

-- The bytes of a word in memory order, on the little-endian targets of the flight software.
abbrev pub bytes16 : ℕ → List ℕ
bytes16 w = w % 256 ∷ w / 256 % 256 ∷ []

abbrev pub bytes32 : ℕ → List ℕ
bytes32 w = w % 256 ∷ w / 256 % 256 ∷ w / 65536 % 256 ∷ w / 16777216 % 256 ∷ []

pub le32_bytes :
    (w : ℕ)
    → w < 4294967296
    → le32 (w % 256) (w / 256 % 256) (w / 65536 % 256) (w / 16777216 % 256) ≡ w
le32_bytes w h = omega arith
