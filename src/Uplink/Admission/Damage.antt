-- ===== src/Uplink/Admission/Damage.antt =====
-- What damage of a command the checksum of uplink_app notices (UPLINK_APP_ValidateProxyCommand and
-- UPLINK_APP_ComputeProxyCrc of uplink_app/fsw/src/uplink_app_utils.c).
use cfs_telemetry_app.Common.{
  ℕ, ◌+◌, ◌-◌, ◌/◌, ◌%◌, ◌≤◌, ◌<◌, ◌≡◌, ◌≢◌, sym, ap, ◌∙◌, List, [], ◌∷◌, ◌++◌, length, take, u8,
  u16, ltb, if◌then◌else◌, arith,
}
use cfs_telemetry_app.Common.Replace.{take_around}
use cfs_telemetry_app.Uplink.Crc.{crc16}
use cfs_telemetry_app.Uplink.Crc.Detect.{crc16_byte_injective}
use cfs_telemetry_app.Uplink.Messages.{accept, reject_checksum, ProcessUplinkCmd}
use cfs_telemetry_app.Uplink.Admission.{compute_proxy_crc, validate_proxy_command}
use cfs_telemetry_app.Uplink.Admission.Policy.{validate_proxy_command_iff}

-- The six bytes that the checksum covers before the payload.
abbrev pub header_bytes : ProcessUplinkCmd → List ℕ
header_bytes cmd =
    cmd.version
    ∷ cmd.command_class
    ∷ cmd.payload_length
    ∷ cmd.flags
    ∷ cmd.sequence % 256
    ∷ u8 (cmd.sequence / 256)
    ∷ []

-- For a length that validation admits, nothing is cut.
pub compute_proxy_crc_whole :
    (cmd : ProcessUplinkCmd)
    → cmd.payload_length ≤ 196
    → compute_proxy_crc cmd ≡ crc16 (header_bytes cmd ++ take cmd.payload_length cmd.payload)
unfolding compute_proxy_crc
compute_proxy_crc_whole cmd h =
    let announced = u16 (6 + cmd.payload_length) in
    let e : (if ltb 202 announced then 202 else announced) - 6 ≡ cmd.payload_length =
      ground arith in
    ap (λ n. crc16 (header_bytes cmd ++ take n cmd.payload)) e

module _ (cmd : ProcessUplinkCmd) (before after : List ℕ) (a b : ℕ) where
  damaged_crc :
      a < 256
      → b < 256
      → length before < cmd.payload_length
      → cmd.payload_length ≤ 196
      → compute_proxy_crc (record cmd { payload = before ++ a ∷ after })
        ≡ compute_proxy_crc (record cmd { payload = before ++ b ∷ after })
      → a ≡ b
  damaged_crc p q h l e =
      crc16_byte_injective (header_bytes cmd ++ before)
        (take (cmd.payload_length - length before - 1) after) a b p q
        (ap (λ t. crc16 (header_bytes cmd ++ t))
            (sym (take_around cmd.payload_length before after a h))
          ∙ sym (compute_proxy_crc_whole (record cmd { payload = before ++ a ∷ after }) l)
          ∙ e
          ∙ compute_proxy_crc_whole (record cmd { payload = before ++ b ∷ after }) l
          ∙ ap (λ t. crc16 (header_bytes cmd ++ t))
              (take_around cmd.payload_length before after b h))

  refused_by_checksum :
      validate_proxy_command (record cmd { payload = before ++ a ∷ after }) ≡ accept
      → compute_proxy_crc (record cmd { payload = before ++ b ∷ after }) ≢ cmd.checksum
      → validate_proxy_command (record cmd { payload = before ++ b ∷ after }) ≡ reject_checksum
  unfolding validate_proxy_command
  refused_by_checksum v n = ground arith

-- Where a command passes validation, the same command with one byte of its payload changed, at any
-- place within the announced length, is refused for its checksum.
pub validate_proxy_command_damaged :
    (cmd : ProcessUplinkCmd) (before after : List ℕ) (a b : ℕ)
    → cmd.payload ≡ before ++ a ∷ after
    → length before < cmd.payload_length
    → a < 256
    → b < 256
    → a ≢ b
    → validate_proxy_command cmd ≡ accept
    → validate_proxy_command (record cmd { payload = before ++ b ∷ after }) ≡ reject_checksum
validate_proxy_command_damaged cmd before after a b here h p q ne v =
    let v' : validate_proxy_command (record cmd { payload = before ++ a ∷ after }) ≡ accept =
      ap (λ bytes. validate_proxy_command (record cmd { payload = bytes })) (sym here) ∙ v in
    let accepted =
      (validate_proxy_command_iff (record cmd { payload = before ++ a ∷ after })).0 v' in
    refused_by_checksum cmd before after a b v' (λ e. ne (
      damaged_crc cmd before after a b p q h (ground (arith, accepted))
        (ground (arith, accepted, e))))
