-- ===== src/Mavlink/Quiet.antt =====
-- The handlers of the bridge that have no part in the mission protocol.
use cfs_telemetry_app.Common.{
  ℕ, ◌+◌, ◌≡◌, refl, Bool, not, ◌||◌, List, ◌==◌, ltb, leb, if_cases, length, byte_at,
}
use cfs_telemetry_app.CfsCore.Cache.{all_finite}
use cfs_telemetry_app.Mavlink.Parser.{Parser, max_payload_len}
use cfs_telemetry_app.Mavlink.Frame.{mavlink_frame}
use cfs_telemetry_app.Mavlink.State.{Bridge, BridgeEnv, BridgeMessage, transmit_bridge}
use cfs_telemetry_app.Mavlink.Send.{send_mavlink_v2, send_frame, max_frame_len}
use cfs_telemetry_app.Mavlink.Publish.{
  state_payload_len, six_floats, publish_attitude, publish_ekf_local,
  publish_global_position_as_local, publish_gps_raw, publish_ekf_status, handle_sys_time, u16_at,
  u64_at,
}
use cfs_telemetry_app.Mavlink.Receive.{take_command_ack}

-- The state `t` has the missions and the link of `s`.
abbrev pub IsQuiet : Bridge → Bridge → Type 0
IsQuiet s t =
    (t.upload ≡ s.upload)
    × (t.download ≡ s.download)
    × (t.active ≡ s.active)
    × (t.link_state ≡ s.link_state)

abbrev pub quiet : (s : Bridge) → IsQuiet s s
quiet s = (refl, refl, refl, refl)

pub transmit_bridge-IsQuiet :
    (env : BridgeEnv) (m : BridgeMessage) (s : Bridge) → IsQuiet s (transmit_bridge env m s)
unfolding transmit_bridge
transmit_bridge-IsQuiet env m s =
    if_cases (IsQuiet s) (env.delivers m) _ _ (λ _. quiet s) (λ _. quiet s)

abbrev IsQuietSend : Bridge → Bridge × Bool → Type 0
IsQuietSend s r = IsQuiet s r.0

pub send_frame-IsQuiet :
    (env : BridgeEnv) (msg_id : ℕ) (payload : List ℕ) (crc_extra : ℕ) (s : Bridge)
    → IsQuiet s (send_frame env msg_id payload crc_extra s)
unfolding send_mavlink_v2
send_frame-IsQuiet env msg_id payload crc_extra s =
    if_cases (IsQuietSend s) (not s.is_serial_open) _ _ (λ _. quiet s)
      (λ _.
        if_cases (IsQuietSend s)
          (ltb max_payload_len (length payload) || ltb max_frame_len (10 + length payload + 2)) _ _
          (λ _. quiet s)
          (λ _.
            if_cases (IsQuietSend s)
              (env.writes (mavlink_frame s.tx_sequence msg_id payload crc_extra)) _ _ (λ _. quiet s)
              (λ _. quiet s)))

module _ (env : BridgeEnv) (now : ℕ) (p : Parser) (s : Bridge) where
  pub publish_attitude-IsQuiet : IsQuiet s (publish_attitude env p s)
  unfolding publish_attitude
  publish_attitude-IsQuiet =
      if_cases (IsQuiet s) (ltb state_payload_len p.payload_len) _ _ (λ _. quiet s)
        (λ _.
          if_cases (IsQuiet s) (not (all_finite (six_floats p.payload))) _ _ (λ _. quiet s)
            (λ _. transmit_bridge-IsQuiet env _ _))

  pub publish_ekf_local-IsQuiet : IsQuiet s (publish_ekf_local env p s)
  unfolding publish_ekf_local
  publish_ekf_local-IsQuiet =
      if_cases (IsQuiet s) (ltb state_payload_len p.payload_len) _ _ (λ _. quiet s)
        (λ _.
          if_cases (IsQuiet s) (not (all_finite (six_floats p.payload))) _ _ (λ _. quiet s)
            (λ _. transmit_bridge-IsQuiet env _ _))

  pub publish_global-IsQuiet : IsQuiet s (publish_global_position_as_local env p s)
  unfolding publish_global_position_as_local
  publish_global-IsQuiet =
      if_cases (IsQuiet s) (ltb state_payload_len p.payload_len) _ _ (λ _. quiet s)
        (λ _. transmit_bridge-IsQuiet env _ _)

  pub publish_gps_raw-IsQuiet : IsQuiet s (publish_gps_raw env p s)
  unfolding publish_gps_raw
  publish_gps_raw-IsQuiet =
      if_cases (IsQuiet s) (ltb p.payload_len 30) _ _ (λ _. quiet s)
        (λ _.
          if_cases (IsQuiet s) (leb 3 (byte_at p.payload 28)) _ _
            (λ _. transmit_bridge-IsQuiet env _ _) (λ _. transmit_bridge-IsQuiet env _ _))

  pub publish_ekf_status-IsQuiet : IsQuiet s (publish_ekf_status env now p s)
  unfolding publish_ekf_status
  publish_ekf_status-IsQuiet =
      if_cases (IsQuiet s) (ltb p.payload_len 21) _ _ (λ _. quiet s)
        (λ _.
          if_cases (IsQuiet s) (not (u16_at p.payload 20 == 0)) _ _
            (λ _. transmit_bridge-IsQuiet env _ _) (λ _. transmit_bridge-IsQuiet env _ _))

  pub handle_sys_time-IsQuiet : IsQuiet s (handle_sys_time env now p s)
  unfolding handle_sys_time
  handle_sys_time-IsQuiet =
      if_cases (IsQuiet s) (ltb 12 p.payload_len) _ _ (λ _. quiet s)
        (λ _.
          if_cases (IsQuiet s) (u64_at p.payload 0 == 0) _ _ (λ _. quiet s)
            (λ _. transmit_bridge-IsQuiet env _ _))

  pub take_command_ack-IsQuiet : IsQuiet s (take_command_ack p s)
  unfolding take_command_ack
  take_command_ack-IsQuiet = if_cases (IsQuiet s) _ _ _ (λ _. quiet s) (λ _. quiet s)
