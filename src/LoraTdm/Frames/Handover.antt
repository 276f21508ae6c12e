-- ===== src/LoraTdm/Frames/Handover.antt =====
-- A command that lora_tdm_app has received as a UP2 frame, at the checks of uplink_app.
use cfs_telemetry_app.Common.{
  ℕ, zero, suc, ◌/◌, ◌%◌, ◌≤◌, ◌<◌, ◌≡◌, ◌⊎◌, ◌↔◌, refl, ap, ◌∙◌, some, List, [], ◌∷◌, take, u8,
  arith,
}
use cfs_telemetry_app.Uplink.Crc.{crc16}
use cfs_telemetry_app.Uplink.Messages.{accept, class_route_update, class_viewpoint}
use cfs_telemetry_app.Uplink.Admission.{compute_proxy_crc, validate_proxy_command}
use cfs_telemetry_app.Uplink.Admission.Policy.{validate_proxy_command_iff}
use cfs_telemetry_app.Uplink.Admission.Damage.{compute_proxy_crc_whole}
use cfs_telemetry_app.LoraTdm.Frames.{Up2Decoded, parse_up2_frame, up2_command}
use cfs_telemetry_app.LoraTdm.Frames.Codec.{parse_up2_frame-IsUp2Frame}

take-take : (n : ℕ) (xs : List ℕ) → take n (take n xs) ≡ take n xs
take-take zero xs = refl
take-take (suc n) [] = refl
take-take (suc n) (x ∷ xs) = ap (λ t. x ∷ t) (take-take n xs)

up2_command-checksum :
    (d : Up2Decoded)
    → d.payload_len ≤ 196
    → compute_proxy_crc (up2_command d) ≡ (up2_command d).checksum
unfolding up2_command
up2_command-checksum d h =
    compute_proxy_crc_whole (up2_command d) h
    ∙ ap
        (λ t. crc16 (
          d.version
          ∷ d.command_class
          ∷ d.payload_len
          ∷ d.flags
          ∷ d.seq % 256
          ∷ u8 (d.seq / 256)
          ∷ t))
        (take-take d.payload_len d.payload)

-- The checksum that lora_tdm_app gives a received command is the one that uplink_app computes, so
-- uplink_app's validation accepts the command exactly if its version is 1, its class one of the
-- eight, and its payload not empty where the class is a route or a viewpoint.
pub up2_command-validate :
    (buf : List ℕ) (d : Up2Decoded)
    → parse_up2_frame buf ≡ some d
    → (validate_proxy_command (up2_command d) ≡ accept) ↔ (
        (d.version ≡ 1)
        × (1 ≤ d.command_class)
        × (d.command_class ≤ 8)
        × ((d.command_class ≡ class_route_update) ⊎ (d.command_class ≡ class_viewpoint)
            → 0 < d.payload_len))
unfolding up2_command
up2_command-validate buf d h =
    let f = parse_up2_frame-IsUp2Frame buf d h in
    let small : d.payload_len ≤ 196 = omega (arith, f.small, f.announced) in
    let law = validate_proxy_command_iff (up2_command d) in
    (
      (λ v. let p = law.0 v in (p.0, p.2, p.3, p.4)),
      (λ q. law.1 (q.0, small, q.1, q.2, q.3, up2_command-checksum d small)),
    )
