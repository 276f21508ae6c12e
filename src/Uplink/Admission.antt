-- ===== src/Uplink/Admission.antt =====
-- The checks that UPLINK_APP_ProcessUplink makes before it acts on a command: sequence, health
-- and authorization (uplink_app/fsw/src/uplink_app_cmds.c), version, class, length and checksum
-- (uplink_app/fsw/src/uplink_app_utils.c).
pub mod Sequence
pub mod Policy
pub mod Damage
use cfs_telemetry_app.Common.{
  ℕ, ◌+◌, ◌-◌, ◌/◌, ◌%◌, Bool, true, false, not, ◌&&◌, ◌||◌, List, ◌∷◌, take, ltb, leb, ◌==◌,
  if◌then◌else◌, u8, u16, sub16, byte_at, le32,
}
use cfs_telemetry_app.Uplink.Crc.{crc16}
use cfs_telemetry_app.Uplink.Messages.{
  UplinkResult, accept, reject_version, reject_class, reject_length, reject_checksum, RouteTarget,
  route_none, route_core, route_downlink, route_counter_mgmt, route_flight_mode, ProcessUplinkCmd,
  class_none, class_config, class_route_update, class_viewpoint, class_recovery, class_mode,
  class_diagnostic, class_counter_mgmt, class_flight_mode, flight_mode_hover, flight_mode_waypoint,
  flight_mode_land, protocol_version, max_payload_length,
}
use cfs_telemetry_app.Uplink.State.{UplinkApp}

-- UPLINK_APP_SeqCheck_t
pub data SeqCheck : Type 0 where
  seq_new seq_duplicate seq_replay : SeqCheck

-- The test of UPLINK_APP_CheckSequence against the low 16 bits of the last accepted sequence.
unfoldable pub compare_sequence : ℕ → ℕ → SeqCheck
compare_sequence sequence last =
    if sequence == last
    then seq_duplicate
    else if ltb (sub16 sequence last) 0x8000
    then seq_new
    else seq_replay

unfoldable pub check_sequence : UplinkApp → ℕ → SeqCheck
check_sequence s sequence =
    if s.accepted_count == 0
    then seq_new
    else compare_sequence sequence (u16 s.last_accepted_sequence)

-- The checksum covers the header's six bytes and the payload; a length beyond the buffer is cut.
unfoldable pub compute_proxy_crc : ProcessUplinkCmd → ℕ
compute_proxy_crc cmd =
    let announced = u16 (6 + cmd.payload_length) in
    let len = if ltb 202 announced then 202 else announced in
    crc16 (
      cmd.version
      ∷ cmd.command_class
      ∷ cmd.payload_length
      ∷ cmd.flags
      ∷ cmd.sequence % 256
      ∷ u8 (cmd.sequence / 256)
      ∷ take (len - 6) cmd.payload)

abbrev pub is_known_class : ℕ → Bool
is_known_class c =
    c == class_config
    || c == class_route_update
    || c == class_viewpoint
    || c == class_recovery
    || c == class_mode
    || c == class_diagnostic
    || c == class_counter_mgmt
    || c == class_flight_mode

-- `accept` where the code returns true, else the result that it stores before it returns false.
unfoldable pub validate_proxy_command : ProcessUplinkCmd → UplinkResult
validate_proxy_command cmd =
    if not (cmd.version == protocol_version)
    then reject_version
    else if ltb max_payload_length cmd.payload_length
    then reject_length
    else if not (is_known_class cmd.command_class)
    then reject_class
    else if (cmd.command_class == class_route_update || cmd.command_class == class_viewpoint)
        && cmd.payload_length == 0
    then reject_length
    else if not (compute_proxy_crc cmd == cmd.checksum)
    then reject_checksum
    else accept

unfoldable pub resolve_route_target : ℕ → RouteTarget
resolve_route_target c =
    if c == class_config
      || c == class_route_update
      || c == class_viewpoint
      || c == class_recovery
      || c == class_mode
    then route_core
    else if c == class_diagnostic
    then route_downlink
    else if c == class_counter_mgmt
    then route_counter_mgmt
    else if c == class_flight_mode
    then route_flight_mode
    else route_none

abbrev is_flight_mode_with : ProcessUplinkCmd → Bool → Bool
is_flight_mode_with cmd test =
    cmd.command_class == class_flight_mode && leb 1 cmd.payload_length && test

-- Whether the health state bars the command, before any exemption.
unfoldable pub barred_by_health : ℕ → ProcessUplinkCmd → Bool
barred_by_health state cmd =
    if state == 3
    then not (cmd.command_class == class_recovery) && not (cmd.command_class == class_diagnostic)
    else if state == 2
    then not (cmd.command_class == class_recovery) && not (cmd.command_class == class_diagnostic)
    else if state == 1
    then cmd.command_class == class_viewpoint
      || cmd.command_class == class_config
      || is_flight_mode_with cmd (byte_at cmd.payload 0 == flight_mode_waypoint)
    else false

-- The three assignments to `Blocked`: the policy, the exemption of HOVER and LAND, the force flag.
unfoldable pub blocked_by_health : ℕ → ProcessUplinkCmd → Bool
unfolding barred_by_health
blocked_by_health state cmd =
    let barred = barred_by_health state cmd in
    let after_exemption =
      if barred
        && is_flight_mode_with cmd (
            byte_at cmd.payload 0 == flight_mode_hover || byte_at cmd.payload 0 == flight_mode_land)
      then false
      else barred in
    if after_exemption && not (cmd.flags % 2 == 0) then false else after_exemption

-- UPLINK_APP_GetClassRequiredLevel
unfoldable pub class_required_level : ℕ → ℕ
class_required_level c =
    if c == class_none
    then 1
    else if c == class_config || c == class_route_update || c == class_viewpoint
    then 2
    else if c == class_recovery || c == class_mode
    then 3
    else if c == class_diagnostic
    then 1
    else if c == class_counter_mgmt || c == class_flight_mode
    then 3
    else 0xff

-- The four bytes of a token at an offset of the payload.
abbrev pub token_at : List ℕ → ℕ → ℕ
token_at payload i =
    le32 (byte_at payload i) (byte_at payload (i + 1)) (byte_at payload (i + 2))
      (byte_at payload (i + 3))

-- The token that a level 3 command carries, 0 if there is none.
unfoldable pub parse_request_token : ProcessUplinkCmd → ℕ
unfolding class_required_level
parse_request_token cmd =
    if class_required_level cmd.command_class == 3 && leb 4 cmd.payload_length
    then if cmd.command_class == class_recovery && leb 8 cmd.payload_length
      then token_at cmd.payload 4
      else if cmd.command_class == class_mode && leb 6 cmd.payload_length
      then token_at cmd.payload 2
      else if cmd.command_class == class_counter_mgmt && leb 6 cmd.payload_length
      then token_at cmd.payload 2
      else if cmd.command_class == class_flight_mode && leb 6 cmd.payload_length
      then token_at cmd.payload 2
      else 0
    else 0

unfoldable pub is_authorized : ProcessUplinkCmd → ℕ → Bool
unfolding class_required_level
is_authorized cmd request_token =
    let auth_level = cmd.flags / 64 % 4 in
    let required_level = class_required_level cmd.command_class in
    if ltb auth_level required_level
    then false
    else if required_level == 3 && request_token == 0
    then false
    else true
