-- ===== src/Mavlink/Steps/Uploads.antt =====
-- What each step does to the upload.
use cfs_telemetry_app.Common.{ℕ, ◌≡◌, refl, ◌∙◌, Bool, not, ◌&&◌, ◌==◌, leb, if_cases}
use cfs_telemetry_app.Mavlink.Parser.{Parser}
use cfs_telemetry_app.Mavlink.State.{
  Download, Bridge, BridgeEnv, link_connected, link_disconnected, upload_idle, download_idle,
}
use cfs_telemetry_app.Mavlink.Send.{
  send_mission_request_list, send_mission_request_int, send_mission_ack_accepted,
}
use cfs_telemetry_app.Mavlink.Readback.{
  is_reached, start_fc_mission_readback, publish_fc_mission_readback, mission_query,
  check_mission_download_timeout, on_connected, set_link_state, retry_readback,
}
use cfs_telemetry_app.Mavlink.Publish.{u16_at}
use cfs_telemetry_app.Mavlink.Mission.{take_mission_count, take_mission_item_int, store_item}
use cfs_telemetry_app.Mavlink.Quiet.{transmit_bridge-IsQuiet, send_frame-IsQuiet}

-- The state `t` has the upload of `s`.
abbrev pub KeepsUpload : Bridge → Bridge → Type 0
KeepsUpload s t = t.upload ≡ s.upload

module _ (env : BridgeEnv) where
  pub start_fc_mission_readback-KeepsUpload :
      (s : Bridge) → KeepsUpload s (start_fc_mission_readback env s)
  unfolding start_fc_mission_readback send_mission_request_list
  start_fc_mission_readback-KeepsUpload s = (send_frame-IsQuiet env _ _ _ _).0

  publish_fc_mission_readback-KeepsUpload :
      (s : Bridge) → KeepsUpload s (publish_fc_mission_readback env s)
  unfolding publish_fc_mission_readback
  publish_fc_mission_readback-KeepsUpload s = (transmit_bridge-IsQuiet env _ _).0

  pub mission_query-KeepsUpload :
      (fits : Bool) (s : Bridge) → KeepsUpload s (mission_query env fits s)
  unfolding mission_query send_mission_request_list
  mission_query-KeepsUpload fits s =
      if_cases (KeepsUpload s) fits _ _
        (λ _.
          if_cases (KeepsUpload s) (not (s.link_state == link_connected)) _ _ (λ _. refl)
            (λ _. (send_frame-IsQuiet env _ _ _ _).0))
        (λ _. refl)

  on_connected-KeepsUpload : (s : Bridge) → KeepsUpload s (on_connected env s)
  unfolding on_connected
  on_connected-KeepsUpload s =
      if_cases (KeepsUpload s) (s.upload.state == upload_idle && s.download.state == download_idle)
        _ _ (λ _. start_fc_mission_readback-KeepsUpload _) (λ _. refl)

  pub set_link_state-KeepsUpload :
      (state : ℕ) (s : Bridge) → KeepsUpload s (set_link_state env state s)
  unfolding set_link_state
  set_link_state-KeepsUpload state s =
      if_cases (KeepsUpload s) (state == link_connected && not (s.link_state == link_connected)) _ _
        (λ _. on_connected-KeepsUpload _)
        (λ _. if_cases (KeepsUpload s) (state == link_disconnected) _ _ (λ _. refl) (λ _. refl))

  pub retry_readback-KeepsUpload : (now : ℕ) (s : Bridge) → KeepsUpload s (retry_readback env now s)
  unfolding retry_readback
  retry_readback-KeepsUpload now s =
      if_cases (KeepsUpload s) _ _ _ (λ _. start_fc_mission_readback-KeepsUpload s) (λ _. refl)

  pub take_mission_count-KeepsUpload :
      (now : ℕ) (p : Parser) (s : Bridge) → KeepsUpload s (take_mission_count env now p s)
  unfolding take_mission_count send_mission_ack_accepted send_mission_request_int
  take_mission_count-KeepsUpload now p s =
      if_cases (KeepsUpload s) (u16_at p.payload 0 == 0) _ _
        (λ _. publish_fc_mission_readback-KeepsUpload _ ∙ (send_frame-IsQuiet env _ _ _ _).0)
        (λ _. (send_frame-IsQuiet env _ _ _ _).0)

  pub take_mission_item_int-KeepsUpload :
      (now : ℕ) (p : Parser) (s : Bridge) → KeepsUpload s (take_mission_item_int env now p s)
  unfolding take_mission_item_int send_mission_ack_accepted send_mission_request_int
  take_mission_item_int-KeepsUpload now p s =
      let d : Download = store_item p s.download in
      if_cases (KeepsUpload s) (leb d.expected_count d.seq) _ _
        (λ _. publish_fc_mission_readback-KeepsUpload _ ∙ (send_frame-IsQuiet env _ _ _ _).0)
        (λ _. (send_frame-IsQuiet env _ _ _ _).0)

pub check_mission_download_timeout-KeepsUpload :
    (now : ℕ) (s : Bridge) → KeepsUpload s (check_mission_download_timeout now s)
unfolding check_mission_download_timeout
check_mission_download_timeout-KeepsUpload now s =
    if_cases (KeepsUpload s) (s.download.state == download_idle) _ _ (λ _. refl)
      (λ _.
        if_cases (KeepsUpload s) (not (is_reached now s.download.timeout_ms)) _ _ (λ _. refl)
          (λ _.
            if_cases (KeepsUpload s) (s.link_state == link_connected) _ _ (λ _. refl) (λ _. refl)))
