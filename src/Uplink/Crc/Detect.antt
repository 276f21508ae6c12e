-- ===== src/Uplink/Crc/Detect.antt =====
-- What the checksum detects: the loops are injective, so a change confined to one byte shows.
use Prim.Native.Nat.{bit_xor}
use cfs_telemetry_app.Common.{
  ℕ, zero, suc, ◌+◌, ◌*◌, ◌/◌, ◌%◌, ◌<◌, ◌≡◌, ◌≢◌, refl, sym, ◌∙◌, ap, true, List, [], ◌∷◌, ◌++◌,
  ◌==◌, ==_iff, if◌then◌else◌, u16, arith,
}
use cfs_telemetry_app.Common.Bits.{
  bit_xor-lt, bit_xor_injective_left, bit_xor_injective_right, every_under, every_under_lem,
}
use cfs_telemetry_app.Uplink.Crc.{crc_bit, crc_bits, crc_byte, crc_from, crc16}

-- A round can be taken back: the lowest bit tells whether the polynomial was added.
uncrc_bit : ℕ → ℕ
uncrc_bit crc = if crc % 2 == 1 then bit_xor crc 0x1021 / 2 + 32768 else crc / 2

uncrc_table : every_under (λ c. uncrc_bit (crc_bit c) == c) 65536 ≡ true
unfolding every_under uncrc_bit crc_bit
uncrc_table = refl

uncrc_bit-crc_bit : (c : ℕ) → c < 65536 → uncrc_bit (crc_bit c) ≡ c
uncrc_bit-crc_bit c h = (==_iff _ c).0 (every_under_lem _ 65536 c h uncrc_table)

crc_bit-lt : (c : ℕ) → crc_bit c < 65536
unfolding crc_bit
crc_bit-lt c = ground arith

crc_bits_injective : (n c d : ℕ) → c < 65536 → d < 65536 → crc_bits n c ≡ crc_bits n d → c ≡ d
unfolding crc_bits
crc_bits_injective zero c d p q e = e
crc_bits_injective (suc n) c d p q e =
    let bits : crc_bit c ≡ crc_bit d =
      crc_bits_injective n (crc_bit c) (crc_bit d) (crc_bit-lt c) (crc_bit-lt d) e in
    sym (uncrc_bit-crc_bit c p) ∙ ap uncrc_bit bits ∙ uncrc_bit-crc_bit d q

crc_bits-lt : (n c : ℕ) → c < 65536 → crc_bits n c < 65536
unfolding crc_bits
crc_bits-lt zero c h = h
crc_bits-lt (suc n) c h = crc_bits-lt n (crc_bit c) (crc_bit-lt c)

mixed-lt : (c byte : ℕ) → c < 65536 → bit_xor c (u16 (byte * 256)) < 65536
mixed-lt c byte h = bit_xor-lt 16 c (u16 (byte * 256)) h (omega arith)

pub crc_byte-lt : (c byte : ℕ) → c < 65536 → crc_byte c byte < 65536
unfolding crc_byte
crc_byte-lt c byte h = crc_bits-lt 8 (bit_xor c (u16 (byte * 256))) (mixed-lt c byte h)

-- One byte more keeps two running values apart, and keeps two bytes apart.
crc_byte_injective :
    (c d byte : ℕ) → c < 65536 → d < 65536 → crc_byte c byte ≡ crc_byte d byte → c ≡ d
unfolding crc_byte
crc_byte_injective c d byte p q e =
    bit_xor_injective_left c d (u16 (byte * 256))
      (crc_bits_injective 8 _ _ (mixed-lt c byte p) (mixed-lt d byte q) e)

crc_byte_separates :
    (c a b : ℕ) → c < 65536 → a < 256 → b < 256 → crc_byte c a ≡ crc_byte c b → a ≡ b
unfolding crc_byte
crc_byte_separates c a b h p q e = omega (
  arith,
  bit_xor_injective_right c (u16 (a * 256)) (u16 (b * 256))
      (crc_bits_injective 8 _ _ (mixed-lt c a h) (mixed-lt c b h) e),
)

pub crc_from-lt : (c : ℕ) (bytes : List ℕ) → c < 65536 → crc_from c bytes < 65536
unfolding crc_from
crc_from-lt c [] h = h
crc_from-lt c (byte ∷ rest) h = crc_from-lt (crc_byte c byte) rest (crc_byte-lt c byte h)

crc_from_injective :
    (c d : ℕ) (bytes : List ℕ) → c < 65536 → d < 65536 → crc_from c bytes ≡ crc_from d bytes → c ≡ d
unfolding crc_from
crc_from_injective c d [] p q e = e
crc_from_injective c d (byte ∷ rest) p q e = crc_byte_injective c d byte p q (
    crc_from_injective (crc_byte c byte) (crc_byte d byte) rest (crc_byte-lt c byte p)
      (crc_byte-lt d byte q) e)

crc_from_separates :
    (c : ℕ) (before after : List ℕ) (a b : ℕ)
    → c < 65536
    → a < 256
    → b < 256
    → crc_from c (before ++ a ∷ after) ≡ crc_from c (before ++ b ∷ after)
    → a ≡ b
unfolding crc_from
crc_from_separates c [] after a b h p q e = crc_byte_separates c a b h p q (
    crc_from_injective (crc_byte c a) (crc_byte c b) after (crc_byte-lt c a h) (crc_byte-lt c b h)
      e)
crc_from_separates c (byte ∷ before) after a b h p q e =
    crc_from_separates (crc_byte c byte) before after a b (crc_byte-lt c byte h) p q e

pub crc16-lt : (bytes : List ℕ) → crc16 bytes < 65536
unfolding crc16
crc16-lt bytes = crc_from-lt 0xffff bytes (omega arith)

pub crc16_byte_injective :
    (before after : List ℕ) (a b : ℕ)
    → a < 256
    → b < 256
    → crc16 (before ++ a ∷ after) ≡ crc16 (before ++ b ∷ after)
    → a ≡ b
unfolding crc16
crc16_byte_injective before after a b = crc_from_separates 0xffff before after a b (omega arith)

-- Two byte strings that differ in one byte, at any place, have different checksums.
pub crc16_detects :
    (before after : List ℕ) (a b : ℕ)
    → a < 256
    → b < 256
    → a ≢ b
    → crc16 (before ++ a ∷ after) ≢ crc16 (before ++ b ∷ after)
crc16_detects before after a b p q ne e = ne (crc16_byte_injective before after a b p q e)
