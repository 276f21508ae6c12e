-- ===== src/Mavlink/Publish.antt =====
-- The state messages that the bridge makes of the frames of the flight controller:
-- MAVLINK_BRIDGE_APP_PublishAttitude, PublishEkfLocal, PublishGlobalPositionAsLocal, PublishGpsRaw,
-- PublishEkfStatus and HandleSysTime (mavlink_bridge_app/fsw/src/mavlink_bridge_app_utils.c). MAVLink
-- cuts the zeros at the end of a payload: a read past its end gives 0.
use cfs_telemetry_app.Common.{
  ℕ, ◌+◌, ◌*◌, ◌/◌, not, List, [], ◌∷◌, ◌==◌, ltb, leb, if◌then◌else◌, byte_at, le16, u32, u32_at,
  Float32,
}
use cfs_telemetry_app.CfsCore.Cache.{all_finite}
use cfs_telemetry_app.Mavlink.Parser.{Parser}
use cfs_telemetry_app.Mavlink.State.{
  Bridge, BridgeEnv, attitude_tlm, ekf_local_tlm, gps_raw_tlm, ekf_status_tlm, sys_time_tlm,
  transmit_bridge, record_length_error, record_non_finite_error, error_none, error_gps_no_fix,
  error_ekf_unhealthy,
}

-- MAVLINK_ATTITUDE_PAYLOAD_LEN, and that of the two positions.
abbrev pub state_payload_len : ℕ
state_payload_len = 28

-- ReadFloatLE at 4, 8, 12, 16, 20 and 24.
abbrev pub six_floats : List ℕ → List Float32
six_floats payload =
    u32_at payload 4
    ∷ u32_at payload 8
    ∷ u32_at payload 12
    ∷ u32_at payload 16
    ∷ u32_at payload 20
    ∷ u32_at payload 24
    ∷ []

abbrev pub next_sequence : Bridge → Bridge
next_sequence s = record s { sequence_counter = u32 (s.sequence_counter + 1) }

unfoldable pub publish_attitude : BridgeEnv → Parser → Bridge → Bridge
publish_attitude env p s =
    let s' : Bridge = next_sequence s in
    if ltb state_payload_len p.payload_len
    then record_length_error s
    else if not (all_finite (six_floats p.payload))
    then record_non_finite_error s
    else transmit_bridge env
        (attitude_tlm (u32_at p.payload 0) s'.sequence_counter (six_floats p.payload)) s'

unfoldable pub publish_ekf_local : BridgeEnv → Parser → Bridge → Bridge
publish_ekf_local env p s =
    let s' : Bridge = next_sequence s in
    if ltb state_payload_len p.payload_len
    then record_length_error s
    else if not (all_finite (six_floats p.payload))
    then record_non_finite_error s
    else transmit_bridge env
        (ekf_local_tlm (u32_at p.payload 0) s'.sequence_counter (six_floats p.payload)) s'

abbrev pub u16_at : List ℕ → ℕ → ℕ
u16_at payload i = le16 (byte_at payload i) (byte_at payload (i + 1))

-- A position without a place: only the height and the speeds are known.
abbrev pub global_values : BridgeEnv → List ℕ → List Float32
global_values env payload =
    0
    ∷ 0
    ∷ env.to_depth (u32_at payload 16)
    ∷ env.to_speed (u16_at payload 20)
    ∷ env.to_speed (u16_at payload 22)
    ∷ env.to_speed (u16_at payload 24)
    ∷ []

unfoldable pub publish_global_position_as_local : BridgeEnv → Parser → Bridge → Bridge
publish_global_position_as_local env p s =
    let s' : Bridge = next_sequence s in
    if ltb state_payload_len p.payload_len
    then record_length_error s
    else transmit_bridge env
        (ekf_local_tlm (u32_at p.payload 0) s'.sequence_counter (global_values env p.payload)) s'

-- ReadU64LE
abbrev pub u64_at : List ℕ → ℕ → ℕ
u64_at payload i = u32_at payload i + u32_at payload (i + 4) * 4294967296

-- The fix type, the satellites, and the position.
abbrev pub gps_values : List ℕ → List ℕ
gps_values payload =
    byte_at payload 28
    ∷ byte_at payload 29
    ∷ u32_at payload 8
    ∷ u32_at payload 12
    ∷ u32_at payload 16
    ∷ []

unfoldable pub publish_gps_raw : BridgeEnv → Parser → Bridge → Bridge
publish_gps_raw env p s =
    let s' : Bridge = next_sequence s in
    let stamp = u32 (u64_at p.payload 0 / 1000) in
    if ltb p.payload_len 30
    then record_length_error s
    else if leb 3 (byte_at p.payload 28)
    then transmit_bridge env
        (gps_raw_tlm stamp s'.sequence_counter 1 error_none (gps_values p.payload)) s'
    else transmit_bridge env
        (gps_raw_tlm stamp s'.sequence_counter 0 error_gps_no_fix (gps_values p.payload))
        (record s' { last_error_code = error_gps_no_fix })

unfoldable pub publish_ekf_status : BridgeEnv → ℕ → Parser → Bridge → Bridge
publish_ekf_status env now p s =
    let s' : Bridge = next_sequence s in
    let flags = u16_at p.payload 20 in
    if ltb p.payload_len 21
    then record_length_error s
    else if not (flags == 0)
    then transmit_bridge env (ekf_status_tlm now s'.sequence_counter 1 error_none (flags ∷ [])) s'
    else transmit_bridge env
        (ekf_status_tlm now s'.sequence_counter 0 error_ekf_unhealthy (flags ∷ []))
        (record s' { last_error_code = error_ekf_unhealthy })

-- A flight controller without a clock sends 0, which is not published.
unfoldable pub handle_sys_time : BridgeEnv → ℕ → Parser → Bridge → Bridge
handle_sys_time env now p s =
    let s' : Bridge = next_sequence s in
    if ltb 12 p.payload_len
    then record_length_error s
    else if u64_at p.payload 0 == 0
    then s
    else transmit_bridge env (sys_time_tlm now s'.sequence_counter (u64_at p.payload 0)) s'
