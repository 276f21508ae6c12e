-- ===== src/Mavlink/Steps/Exclusive.antt =====
-- Whether mavlink_bridge_app sends a route and reads one back at the same time: not in the runs without
-- a query of the ground, and what such a query does.
use cfs_telemetry_app.Common.{
  ℕ, ◌+◌, ◌≡◌, ◌≢◌, ◌⊎◌, ◌↔◌, inl, inr, refl, ap, ◌∙◌, Bool, true, false, Bool-cases, u8, not, ◌&&◌,
  List, [], ◌∷◌, ◌==◌, ltb, if_cases, arith, All, Option, none, some,
}
use mathlib.Core.Path.{sym}
use cfs_telemetry_app.CfsCore.State.{RouteTlm}
use cfs_telemetry_app.Mavlink.Parser.{Parser}
use cfs_telemetry_app.Mavlink.State.{
  Upload, Download, Bridge, BridgeEnv, upload_idle, upload_clearing, upload_active, download_idle,
  link_connected, link_disconnected, wait_count,
}
use cfs_telemetry_app.Mavlink.Send.{
  send_mission_item_int, send_mission_item, send_mission_count, send_mission_clear_all,
  send_mission_request_list,
}
use cfs_telemetry_app.Mavlink.Readback.{
  is_reached, on_connected, set_link_state, retry_readback, check_mission_download_timeout,
  mission_query,
}
use cfs_telemetry_app.Mavlink.Upload.{
  max_retries, Edit, edit_route, begin_upload, start_mission_upload, check_mission_upload_timeout,
}
use cfs_telemetry_app.Mavlink.Publish.{u16_at}
use cfs_telemetry_app.Mavlink.Mission.{
  is_wanted, extend_upload, take_mission_request_int, take_mission_request, take_mission_ack,
  ack_result, confirm_upload,
}
use cfs_telemetry_app.Mavlink.Quiet.{IsQuiet, send_frame-IsQuiet}
use cfs_telemetry_app.Mavlink.Receive.{handle_frame_complete}
use cfs_telemetry_app.Mavlink.Receive.Cases.{handle_frame_complete_cases}
use cfs_telemetry_app.Mavlink.Steps.{
  BridgeEvent, frame_received, upload_timer, download_timer, readback_timer, link_changed,
  route_update_received, mission_query_received, bridge_step, run_bridge,
}
use cfs_telemetry_app.Mavlink.Steps.Uploads.{
  KeepsUpload, start_fc_mission_readback-KeepsUpload, take_mission_count-KeepsUpload,
  take_mission_item_int-KeepsUpload, mission_query-KeepsUpload,
}

unfoldable pub IsExclusive : Bridge → Type 0
IsExclusive s = (s.upload.state ≡ upload_idle) ⊎ (s.download.state ≡ download_idle)

abbrev upload_state : Upload → ℕ
upload_state u = u.state

abbrev download_state : Download → ℕ
download_state d = d.state

stays :
    (s t : Bridge)
    → t.upload.state ≡ s.upload.state
    → t.download.state ≡ s.download.state
    → IsExclusive s
    → IsExclusive t
unfolding IsExclusive
stays s t e f (inl k) = inl (e ∙ k)
stays s t e f (inr k) = inr (f ∙ k)

of_quiet : (s t : Bridge) → IsQuiet s t → IsExclusive s → IsExclusive t
of_quiet s t q k = stays s t (ap upload_state q.0) (ap download_state q.1) k

uploads_nothing : (s : Bridge) → s.upload.state ≡ upload_idle → IsExclusive s
unfolding IsExclusive
uploads_nothing s e = inl e

pub downloads_nothing : (s : Bridge) → s.download.state ≡ download_idle → IsExclusive s
unfolding IsExclusive
downloads_nothing s e = inr e

-- A download that may start or go on, with the upload idle and left alone.
of_upload : (s t : Bridge) → KeepsUpload s t → s.upload.state ≡ upload_idle → IsExclusive t
of_upload s t e k = uploads_nothing t (ap upload_state e ∙ k)

upload_is_idle :
    (s : Bridge) → IsExclusive s → s.download.state ≢ download_idle → s.upload.state ≡ upload_idle
unfolding IsExclusive
upload_is_idle s (inl k) n = k
upload_is_idle s (inr k) n = absurd (n k)

download_is_idle :
    (s : Bridge) → IsExclusive s → s.upload.state ≢ upload_idle → s.download.state ≡ download_idle
unfolding IsExclusive
download_is_idle s (inl k) n = absurd (n k)
download_is_idle s (inr k) n = k

both_idle : (a b : ℕ) → (a == upload_idle && b == download_idle) ≡ true → a ≡ upload_idle
both_idle a b h = ground arith

module _ (env : BridgeEnv) where
  on_connected-IsExclusive : (s : Bridge) → IsExclusive s → IsExclusive (on_connected env s)
  unfolding on_connected
  on_connected-IsExclusive s k =
      if_cases IsExclusive (s.upload.state == upload_idle && s.download.state == download_idle) _ _
        (λ e. of_upload s _ (start_fc_mission_readback-KeepsUpload env _) (both_idle _ _ e))
        (λ _. stays s _ refl refl k)

  set_link_state-IsExclusive :
      (state : ℕ) (s : Bridge) → IsExclusive s → IsExclusive (set_link_state env state s)
  unfolding set_link_state
  set_link_state-IsExclusive state s k =
      if_cases IsExclusive (state == link_connected && not (s.link_state == link_connected)) _ _
        (λ _. on_connected-IsExclusive _ (stays s _ refl refl k))
        (λ _.
          if_cases IsExclusive (state == link_disconnected) _ _ (λ _. stays s _ refl refl k)
            (λ _. stays s _ refl refl k))

  take_mission_request_int-IsExclusive :
      (now : ℕ) (p : Parser) (s : Bridge)
      → IsExclusive s
      → IsExclusive (take_mission_request_int env now p s)
  unfolding take_mission_request_int send_mission_item_int
  take_mission_request_int-IsExclusive now p s k =
      if_cases IsExclusive (is_wanted (u16_at p.payload 0) s) _ _
        (λ _.
          of_quiet (extend_upload now s) _ (send_frame-IsQuiet env _ _ _ _)
            (stays s (extend_upload now s) refl refl k))
        (λ _. k)

  take_mission_request-IsExclusive :
      (now : ℕ) (p : Parser) (s : Bridge)
      → IsExclusive s
      → IsExclusive (take_mission_request env now p s)
  unfolding take_mission_request send_mission_item
  take_mission_request-IsExclusive now p s k =
      if_cases IsExclusive (is_wanted (u16_at p.payload 0) s) _ _
        (λ _.
          of_quiet (extend_upload now s) _ (send_frame-IsQuiet env _ _ _ _)
            (stays s (extend_upload now s) refl refl k))
        (λ _. k)

  take_mission_ack-IsExclusive :
      (now : ℕ) (p : Parser) (s : Bridge)
      → IsExclusive s
      → IsExclusive (take_mission_ack env now p s)
  unfolding take_mission_ack confirm_upload
  take_mission_ack-IsExclusive now p s k =
      if_cases IsExclusive (not (s.upload.state == upload_active)) _ _ (λ _. k)
        (λ _.
          if_cases IsExclusive (ack_result p == 0) _ _
            (λ _.
              if_cases IsExclusive (s.download.state == download_idle) _ _
                (λ _.
                  of_upload (confirm_upload now s) _ (start_fc_mission_readback-KeepsUpload env _)
                    refl)
                (λ _. uploads_nothing _ refl))
            (λ _. uploads_nothing _ refl))

  handle_frame_complete-IsExclusive :
      (now : ℕ) (p : Parser) (s : Bridge)
      → IsExclusive s
      → IsExclusive (handle_frame_complete env now p s)
  handle_frame_complete-IsExclusive now p s k =
      handle_frame_complete_cases IsExclusive of_quiet env now
        (set_link_state-IsExclusive link_connected) (λ s i h. stays s _ refl refl h) p s
        (take_mission_request_int-IsExclusive now p s k)
        (take_mission_request-IsExclusive now p s k) (take_mission_ack-IsExclusive now p s k)
        (λ e.
          of_upload s _ (take_mission_count-KeepsUpload env now p s)
            (upload_is_idle s k (λ d. absurd (omega arith))))
        (λ e.
          of_upload s _ (take_mission_item_int-KeepsUpload env now p s)
            (upload_is_idle s k (λ d. absurd (omega arith))))
        k

  retry_readback-IsExclusive :
      (now : ℕ) (s : Bridge) → IsExclusive s → IsExclusive (retry_readback env now s)
  unfolding retry_readback
  retry_readback-IsExclusive now s k =
      if_cases IsExclusive
        (s.download.is_pending
          && is_reached now s.download.next_retry_ms
          && s.link_state == link_connected
          && s.upload.state == upload_idle
          && s.download.state == download_idle)
        _ _ (λ e. of_upload s _ (start_fc_mission_readback-KeepsUpload env s) (ground arith))
        (λ _. k)

  begin_upload-IsExclusive :
      (e : Option Edit) (s : Bridge)
      → s.download.state ≡ download_idle
      → IsExclusive s
      → IsExclusive (begin_upload env e s)
  unfolding send_mission_clear_all
  begin_upload-IsExclusive none s d k = k
  begin_upload-IsExclusive (some e) s d k =
      downloads_nothing _ (ap download_state (send_frame-IsQuiet env _ _ _ _).1 ∙ d)

  start_mission_upload-IsExclusive :
      (msg : RouteTlm) (s : Bridge) → IsExclusive s → IsExclusive (start_mission_upload env msg s)
  unfolding start_mission_upload
  start_mission_upload-IsExclusive msg s k =
      if_cases IsExclusive (not (s.link_state == link_connected)) _ _ (λ _. k)
        (λ _.
          if_cases IsExclusive (not (s.download.state == download_idle)) _ _ (λ _. k)
            (λ d.
              begin_upload-IsExclusive (edit_route msg s.active s.upload.pending) s (ground arith)
                k))

  -- The timer of an upload that is under way: the download is idle and left alone.
  upload_timer-IsExclusive :
      (now : ℕ) (s : Bridge) → IsExclusive s → IsExclusive (check_mission_upload_timeout env now s)
  unfolding check_mission_upload_timeout send_mission_count send_mission_clear_all
  upload_timer-IsExclusive now s k =
      if_cases IsExclusive (s.upload.state == upload_clearing) _ _
        (λ c.
          if_cases IsExclusive (is_reached now s.upload.timeout_ms) _ _
            (λ _. downloads_nothing _ (
              ap download_state (send_frame-IsQuiet env _ _ _ _).1
              ∙ download_is_idle s k (λ i. absurd (ground arith))))
            (λ _. k))
        (λ _.
          if_cases IsExclusive (not (s.upload.state == upload_active)) _ _ (λ _. k)
            (λ c.
              if_cases IsExclusive (not (is_reached now s.upload.timeout_ms)) _ _ (λ _. k)
                (λ _.
                  if_cases IsExclusive (ltb s.upload.retry max_retries) _ _
                    (λ _. downloads_nothing _ (
                      ap download_state
                        ((send_frame-IsQuiet env _ _ _ _).1 ∙ (send_frame-IsQuiet env _ _ _ _).1)
                      ∙ download_is_idle s k (λ i. absurd (ground arith))))
                    (λ _. uploads_nothing _ refl))))

download_timer-IsExclusive :
    (now : ℕ) (s : Bridge) → IsExclusive s → IsExclusive (check_mission_download_timeout now s)
unfolding check_mission_download_timeout
download_timer-IsExclusive now s k =
    if_cases IsExclusive (s.download.state == download_idle) _ _ (λ _. k)
      (λ _.
        if_cases IsExclusive (not (is_reached now s.download.timeout_ms)) _ _ (λ _. k)
          (λ _.
            if_cases IsExclusive (s.link_state == link_connected) _ _
              (λ _. downloads_nothing _ refl) (λ _. downloads_nothing _ refl)))

-- Every event but a query of the ground.
abbrev pub IsNoQuery : BridgeEvent → Type 0
IsNoQuery (mission_query_received fits) = ⊥
IsNoQuery _ = Unit

bridge_step-IsExclusive :
    (env : BridgeEnv) (e : BridgeEvent) (s : Bridge)
    → IsNoQuery e
    → IsExclusive s
    → IsExclusive (bridge_step env e s)
unfolding bridge_step
bridge_step-IsExclusive env (frame_received now p) s q k =
    handle_frame_complete-IsExclusive env now p s k
bridge_step-IsExclusive env (upload_timer now) s q k = upload_timer-IsExclusive env now s k
bridge_step-IsExclusive env (download_timer now) s q k = download_timer-IsExclusive now s k
bridge_step-IsExclusive env (readback_timer now) s q k = retry_readback-IsExclusive env now s k
bridge_step-IsExclusive env (link_changed state) s q k = set_link_state-IsExclusive env state s k
bridge_step-IsExclusive env (route_update_received msg) s q k =
    start_mission_upload-IsExclusive env msg s k
bridge_step-IsExclusive env (mission_query_received fits) s q k = elim q [ ]

-- In every run without a query of the ground, whatever the flight controller sends, whatever routes
-- arrive and whenever the timers run, the bridge never sends a route while it reads one back: where it
-- does one of the two, the other is idle. Then an answer of the flight controller belongs to one of
-- them only.
pub run_bridge-IsExclusive :
    (turns : List (BridgeEnv × BridgeEvent)) (s : Bridge)
    → All (λ turn. IsNoQuery turn.1) turns
    → IsExclusive s
    → IsExclusive (run_bridge turns s)
unfolding run_bridge
run_bridge-IsExclusive [] s q k = k
run_bridge-IsExclusive ((env, e) ∷ rest) s q k =
    run_bridge-IsExclusive rest (bridge_step env e s) q.1 (bridge_step-IsExclusive env e s q.0 k)

mission_query-waits :
    (env : BridgeEnv) (s : Bridge)
    → s.link_state ≡ link_connected
    → (mission_query env true s).download.state ≡ wait_count
unfolding mission_query send_mission_request_list
mission_query-waits env s l =
    if_cases {A = Bridge} (λ t. t.download.state ≡ wait_count)
      (not (s.link_state == link_connected)) _ _ (λ f. absurd (ground arith))
      (λ _. ap download_state (send_frame-IsQuiet env _ _ _ _).1)

-- The query is carried out: the download starts, and the upload is left as it was.
pub record IsStarted (fits : Bool) (s t : Bridge) : Type 0 where
  pub sized : fits ≡ true
  pub link : s.link_state ≡ link_connected
  pub waits : t.download.state ≡ wait_count
  pub same_upload : t.upload ≡ s.upload
  pub exclusive : IsExclusive t ↔ (s.upload.state ≡ upload_idle)

-- The query is counted as an error, and nothing else happens.
pub record IsRefused (fits : Bool) (s t : Bridge) : Type 0 where
  pub cause : (fits ≡ false) ⊎ (s.link_state ≢ link_connected)
  pub counted : t ≡ record s { err_counter = u8 (s.err_counter + 1) }

waits-IsExclusive :
    (s t : Bridge)
    → t.upload ≡ s.upload
    → t.download.state ≡ wait_count
    → IsExclusive t ↔ (s.upload.state ≡ upload_idle)
unfolding IsExclusive
waits-IsExclusive s t u d = (
  (λ k. elim k [ inl i ↦ sym (ap upload_state u) ∙ i | inr i ↦ absurd (omega (arith, d, i)) ]),
  (λ i. inl (ap upload_state u ∙ i)),
)

mission_query-refused :
    (env : BridgeEnv) (fits : Bool) (s : Bridge)
    → (fits ≡ false) ⊎ (s.link_state ≢ link_connected)
    → mission_query env fits s ≡ record s { err_counter = u8 (s.err_counter + 1) }
unfolding mission_query
mission_query-refused env fits s c = ground arith

-- A query of the ground is carried out if it has the right length and the link is up, and is counted
-- as an error, with nothing else changed, if not. Carried out, it makes the bridge wait for the count
-- of a mission and leaves the upload as it was, whatever the upload is doing: sending and reading
-- exclude each other then exactly when no route is being sent.
pub mission_query_overlaps :
    (env : BridgeEnv) (fits : Bool) (s : Bridge)
    → IsStarted fits s (mission_query env fits s) ⊎ IsRefused fits s (mission_query env fits s)
mission_query_overlaps env false s =
    inr (record { cause = inl refl; counted = mission_query-refused env false s (inl refl) })
mission_query_overlaps env true s = elim (Bool-cases (s.link_state == link_connected)) [
  | inl e ↦
      let link : s.link_state ≡ link_connected = ground arith in
      let same = mission_query-KeepsUpload env true s in
      let waits = mission_query-waits env s link in
      inl (record {
        sized = refl;
        link = link;
        waits = waits;
        same_upload = same;
        exclusive = waits-IsExclusive s (mission_query env true s) same waits;
      })
  | inr e ↦
      let link : s.link_state ≢ link_connected = ground arith in
      inr (record { cause = inr link; counted = mission_query-refused env true s (inr link) })
]
