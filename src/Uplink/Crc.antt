-- ===== src/Uplink/Crc.antt =====
-- UPLINK_APP_CRC16 of uplink_app/fsw/src/uplink_app_utils.c (CRC-16/CCITT-FALSE): the loops over
-- the bits and the bytes.
pub mod Detect
use Prim.Native.Nat.{bit_xor}
use cfs_telemetry_app.Common.{ℕ, zero, suc, ◌*◌, ◌/◌, ◌%◌, List, [], ◌∷◌, ◌==◌, if◌then◌else◌, u16}

-- One round of the inner loop: shift out the top bit, and add the polynomial if it was set.
unfoldable pub crc_bit : ℕ → ℕ
crc_bit crc = if crc / 32768 % 2 == 1 then u16 (bit_xor (crc * 2) 0x1021) else u16 (crc * 2)

unfoldable pub crc_bits : ℕ → ℕ → ℕ
crc_bits zero crc = crc
crc_bits (suc n) crc = crc_bits n (crc_bit crc)

-- One round of the outer loop.
unfoldable pub crc_byte : ℕ → ℕ → ℕ
unfolding crc_bits crc_bit
crc_byte crc byte = crc_bits 8 (bit_xor crc (u16 (byte * 256)))

-- The outer loop from a running value.
unfoldable pub crc_from : ℕ → List ℕ → ℕ
unfolding crc_byte
crc_from crc [] = crc
crc_from crc (byte ∷ rest) = crc_from (crc_byte crc byte) rest

unfoldable pub crc16 : List ℕ → ℕ
unfolding crc_from
crc16 bytes = crc_from 0xffff bytes
