-- ===== src/Mavlink/Receive/Cases.antt =====
-- To prove something of the state after a frame, prove it of each branch that has a part in the
-- mission protocol or the link.
use cfs_telemetry_app.Common.{ℕ, ◌≡◌, ◌&&◌, ◌==◌, leb, if_cases, if◌then◌else◌, ltb, arith}
use cfs_telemetry_app.Mavlink.Parser.{Parser, compute_frame_crc, received_crc}
use cfs_telemetry_app.Mavlink.State.{
  Bridge, BridgeEnv, link_connected, wait_count, wait_item, error_parse_fail, record_parse_error,
}
use cfs_telemetry_app.Mavlink.Send.{
  mission_request_id, mission_request_int_id, mission_ack_id, mission_count_id, mission_item_int_id,
  mission_current_id,
}
use cfs_telemetry_app.Mavlink.Readback.{set_link_state}
use cfs_telemetry_app.Mavlink.Publish.{u16_at}
use cfs_telemetry_app.Mavlink.Mission.{
  note_frame, take_mission_request_int, take_mission_request, take_mission_ack, take_mission_count,
  take_mission_item_int, take_mission_current,
}
use cfs_telemetry_app.Mavlink.Receive.{
  when_valid, lock_target, take_heartbeat, handle_frame_complete,
}
use cfs_telemetry_app.Mavlink.Quiet.{
  IsQuiet, quiet, publish_attitude-IsQuiet, publish_ekf_local-IsQuiet, publish_global-IsQuiet,
  publish_gps_raw-IsQuiet, publish_ekf_status-IsQuiet, handle_sys_time-IsQuiet,
  take_command_ack-IsQuiet,
}

lock_target-IsQuiet : (p : Parser) (s : Bridge) → IsQuiet s (lock_target p s)
lock_target-IsQuiet p s = if_cases (IsQuiet s) _ _ _ (λ _. quiet s) (λ _. quiet s)

module _ (P : Bridge → Type 0) (stays : (s t : Bridge) → IsQuiet s t → P s → P t) (env : BridgeEnv)
    (now : ℕ) (connects : (s : Bridge) → P s → P (set_link_state env link_connected s))
    (resumes : (s : Bridge) (i : ℕ)
      → P s
      → P (record s { active = record s.active { resume_index = i } })) where
  when_valid_cases :
      (crc_extra min_len : ℕ) (p : Parser) (handler : Bridge → Bridge) (s : Bridge)
      → P s
      → P (handler s)
      → P (when_valid crc_extra min_len p handler s)
  unfolding when_valid
  when_valid_cases crc_extra min_len p handler s k h =
      if_cases P (compute_frame_crc p crc_extra == received_crc p && leb min_len p.payload_len) _ _
        (λ _. h) (λ _. stays s (record_parse_error error_parse_fail s) (quiet s) k)

  note_frame_cases : (s : Bridge) → P s → P (note_frame env now s)
  note_frame_cases s k = connects _ (stays s _ (quiet s) k)

  take_heartbeat_cases : (p : Parser) (s : Bridge) → P s → P (take_heartbeat env now p s)
  unfolding take_heartbeat
  take_heartbeat_cases p s k =
      let s' : Bridge = lock_target p s in
      let k' : P s' = stays s s' (lock_target-IsQuiet p s) k in
      let heard : Bridge = record s' { last_rx_timestamp_ms = now } in
      let linked : Bridge = set_link_state env link_connected heard in
      if_cases P (p.sys_id == s'.target_system_id) _ _
        (λ _. stays linked _ (quiet linked) (connects heard (stays s' heard (quiet s') k')))
        (λ _. k')

  take_mission_current_cases :
      (p : Parser) (s : Bridge) → P s → P (take_mission_current env now p s)
  unfolding take_mission_current
  take_mission_current_cases p s k =
      resumes (note_frame env now s)
        (if ltb 255 (u16_at p.payload 0) then 255 else u16_at p.payload 0) (note_frame_cases s k)

  pub handle_frame_complete_cases :
      (p : Parser) (s : Bridge)
      → P (take_mission_request_int env now p s)
      → P (take_mission_request env now p s)
      → P (take_mission_ack env now p s)
      → (s.download.state ≡ wait_count → P (take_mission_count env now p s))
      → (s.download.state ≡ wait_item → P (take_mission_item_int env now p s))
      → P s
      → P (handle_frame_complete env now p s)
  unfolding handle_frame_complete
  handle_frame_complete_cases p s request_int request ack count item k =
      let n : P (note_frame env now s) = note_frame_cases s k in
      if_cases P (p.msg_id == 0 && leb 9 p.payload_len) _ _
        (λ _. when_valid_cases _ _ p _ s k (take_heartbeat_cases p s k))
        (λ _.
          if_cases P (p.msg_id == 77) _ _
            (λ _. when_valid_cases _ _ p _ s k (stays s _ (take_command_ack-IsQuiet env now p s) k))
            (λ _.
              if_cases P (p.msg_id == 30) _ _
                (λ _.
                  when_valid_cases _ _ p _ s k
                    (stays (note_frame env now s) _ (publish_attitude-IsQuiet env now p _) n))
                (λ _.
                  if_cases P (p.msg_id == 32) _ _
                    (λ _.
                      when_valid_cases _ _ p _ s k
                        (stays (note_frame env now s) _ (publish_ekf_local-IsQuiet env now p _) n))
                    (λ _.
                      if_cases P (p.msg_id == 33) _ _
                        (λ _.
                          when_valid_cases _ _ p _ s k
                            (stays (note_frame env now s) _ (publish_global-IsQuiet env now p _) n))
                        (λ _.
                          if_cases P (p.msg_id == 24) _ _
                            (λ _. when_valid_cases _ _ p _ s k (
                              stays (note_frame env now s) _ (publish_gps_raw-IsQuiet env now p _)
                                n))
                            (λ _.
                              if_cases P (p.msg_id == 193) _ _
                                (λ _. when_valid_cases _ _ p _ s k (
                                  stays (note_frame env now s) _
                                    (publish_ekf_status-IsQuiet env now p _) n))
                                (λ _.
                                  if_cases P (p.msg_id == 2) _ _
                                    (λ _. when_valid_cases _ _ p _ s k (
                                      stays (note_frame env now s) _
                                        (handle_sys_time-IsQuiet env now p _) n))
                                    (λ _.
                                      if_cases P (p.msg_id == mission_request_int_id) _ _
                                        (λ _. when_valid_cases _ _ p _ s k request_int)
                                        (λ _.
                                          if_cases P (p.msg_id == mission_request_id) _ _
                                            (λ _. when_valid_cases _ _ p _ s k request)
                                            (λ _.
                                              if_cases P (p.msg_id == mission_ack_id) _ _
                                                (λ _. when_valid_cases _ _ p _ s k ack)
                                                (λ _.
                                                  if_cases P
                                                    (p.msg_id == mission_count_id
                                                      && s.download.state == wait_count)
                                                    _ _
                                                    (λ e.
                                                      when_valid_cases _ _ p _ s k
                                                        (count (ground arith)))
                                                    (λ _.
                                                      if_cases P
                                                        (p.msg_id == mission_item_int_id
                                                          && s.download.state == wait_item)
                                                        _ _
                                                        (λ e.
                                                          when_valid_cases _ _ p _ s k
                                                            (item (ground arith)))
                                                        (λ _.
                                                          if_cases P
                                                            (p.msg_id == mission_current_id) _ _
                                                            (λ _.
                                                            when_valid_cases _ _ p _ s k
                                                            (take_mission_current_cases p s k))
                                                            (λ _. k))))))))))))))
