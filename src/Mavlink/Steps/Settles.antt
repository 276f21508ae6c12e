-- ===== src/Mavlink/Steps/Settles.antt =====
-- An upload comes to an end.
use cfs_telemetry_app.Common.{
  ℕ, suc, ◌+◌, ◌-◌, ◌≤◌, ◌≡◌, ◌∙◌, Bool, true, false, not, List, [], ◌∷◌, ◌==◌, ltb, if_cases,
  if◌then◌else◌, arith, All, u8, u32, Bool-cases, inl, inr,
}
use mathlib.Core.Path.{subst, sym}
use cfs_telemetry_app.Mavlink.Parser.{Parser}
use cfs_telemetry_app.Mavlink.State.{
  Upload, Bridge, BridgeEnv, upload_idle, upload_clearing, upload_active, download_idle,
  link_connected,
}
use cfs_telemetry_app.Mavlink.Send.{
  send_mission_item_int, send_mission_item, send_mission_count, send_mission_clear_all,
}
use cfs_telemetry_app.Mavlink.Readback.{
  is_reached, start_fc_mission_readback, set_link_state, mission_query, retry_readback,
  check_mission_download_timeout,
}
use cfs_telemetry_app.Mavlink.Upload.{
  max_retries, upload_timeout_ms, check_mission_upload_timeout, retry_upload, announce_count,
}
use cfs_telemetry_app.Mavlink.Publish.{u16_at}
use cfs_telemetry_app.Mavlink.Mission.{
  is_wanted, extend_upload, take_mission_request_int, take_mission_request, take_mission_ack,
  ack_result, take_mission_count, take_mission_item_int, confirm_upload,
}
use cfs_telemetry_app.Mavlink.Quiet.{send_frame-IsQuiet}
use cfs_telemetry_app.Mavlink.Receive.{handle_frame_complete}
use cfs_telemetry_app.Mavlink.Receive.Cases.{handle_frame_complete_cases}
use cfs_telemetry_app.Mavlink.Steps.{
  BridgeEvent, frame_received, upload_timer, download_timer, readback_timer, link_changed,
  route_update_received, mission_query_received, bridge_step, run_bridge, is_expiry, expiries,
}
use cfs_telemetry_app.Mavlink.Steps.Uploads.{
  start_fc_mission_readback-KeepsUpload, mission_query-KeepsUpload, set_link_state-KeepsUpload,
  retry_readback-KeepsUpload, take_mission_count-KeepsUpload, take_mission_item_int-KeepsUpload,
  check_mission_download_timeout-KeepsUpload,
}

-- How many more times the upload can wait for its timer.
abbrev upload_rank : Upload → ℕ
upload_rank u =
    if u.state == upload_clearing
    then 2 + (3 - u.retry)
    else if u.state == upload_active
    then 1 + (3 - u.retry)
    else 0

-- One of the three states, with at most `n` waits left.
abbrev IsRanked : ℕ → Upload → Type 0
IsRanked n u = (u.state ≤ 2) × (upload_rank u ≤ n)

abbrev HasRank : ℕ → Bridge → Type 0
HasRank n s = IsRanked n s.upload

of_upload : (n : ℕ) (u : Upload) (t : Bridge) → t.upload ≡ u → IsRanked n u → HasRank n t
of_upload n u t e k = subst (IsRanked n) (sym e) k

stays : (n : ℕ) (s t : Bridge) → t.upload ≡ s.upload → HasRank n s → HasRank n t
stays n s t e k = of_upload n s.upload t e k

module _ (env : BridgeEnv) (n : ℕ) where
  take_mission_request_int-HasRank :
      (now : ℕ) (p : Parser) (s : Bridge)
      → HasRank n s
      → HasRank n (take_mission_request_int env now p s)
  unfolding take_mission_request_int send_mission_item_int
  take_mission_request_int-HasRank now p s k =
      let seq = u16_at p.payload 0 in
      let s' : Bridge = extend_upload now s in
      if_cases (HasRank n) (is_wanted seq s) _ _
        (λ _.
          stays n s' (send_mission_item_int env (u8 seq) s') (send_frame-IsQuiet env _ _ _ _).0 k)
        (λ _. k)

  take_mission_request-HasRank :
      (now : ℕ) (p : Parser) (s : Bridge)
      → HasRank n s
      → HasRank n (take_mission_request env now p s)
  unfolding take_mission_request send_mission_item
  take_mission_request-HasRank now p s k =
      let seq = u16_at p.payload 0 in
      let s' : Bridge = extend_upload now s in
      if_cases (HasRank n) (is_wanted seq s) _ _
        (λ _. stays n s' (send_mission_item env (u8 seq) s') (send_frame-IsQuiet env _ _ _ _).0 k)
        (λ _. k)

  confirm_upload-HasRank : (now : ℕ) (s : Bridge) → HasRank n (confirm_upload now s)
  unfolding confirm_upload
  confirm_upload-HasRank now s = (omega arith, omega arith)

  take_mission_ack-HasRank :
      (now : ℕ) (p : Parser) (s : Bridge) → HasRank n s → HasRank n (take_mission_ack env now p s)
  unfolding take_mission_ack
  take_mission_ack-HasRank now p s k =
      let s' : Bridge = confirm_upload now s in
      if_cases (HasRank n) (not (s.upload.state == upload_active)) _ _ (λ _. k)
        (λ _.
          if_cases (HasRank n) (ack_result p == 0) _ _
            (λ _.
              if_cases (HasRank n) (s.download.state == download_idle) _ _
                (λ _.
                  stays n s' (start_fc_mission_readback env s')
                    (start_fc_mission_readback-KeepsUpload env s') (confirm_upload-HasRank now s))
                (λ _. confirm_upload-HasRank now s))
            (λ _. (omega arith, omega arith)))

  handle_frame_complete-HasRank :
      (now : ℕ) (p : Parser) (s : Bridge)
      → HasRank n s
      → HasRank n (handle_frame_complete env now p s)
  handle_frame_complete-HasRank now p s k =
      handle_frame_complete_cases (HasRank n) (λ s t q. stays n s t q.0) env now
        (λ s.
          stays n s (set_link_state env link_connected s)
            (set_link_state-KeepsUpload env link_connected s))
        (λ s i h. h) p s (take_mission_request_int-HasRank now p s k)
        (take_mission_request-HasRank now p s k) (take_mission_ack-HasRank now p s k)
        (λ _.
          stays n s (take_mission_count env now p s) (take_mission_count-KeepsUpload env now p s) k)
        (λ _.
          stays n s (take_mission_item_int env now p s)
            (take_mission_item_int-KeepsUpload env now p s) k)
        k

  announce_count-HasRank :
      (now : ℕ) (s : Bridge)
      → s.upload.state ≡ upload_clearing
      → HasRank (suc n) s
      → HasRank n (announce_count env now s)
  unfolding send_mission_count
  announce_count-HasRank now s e k =
      let u : Upload = record s.upload {
        state = upload_active;
        timeout_ms = u32 (now + upload_timeout_ms);
      } in
      of_upload n u (announce_count env now s) (send_frame-IsQuiet env _ _ _ _).0
        (omega arith, ground (arith, k))

  retry_upload-HasRank :
      (now : ℕ) (s : Bridge)
      → s.upload.state ≡ upload_active
      → ltb s.upload.retry max_retries ≡ true
      → HasRank (suc n) s
      → HasRank n (retry_upload env now s)
  unfolding send_mission_count send_mission_clear_all
  retry_upload-HasRank now s e r k =
      let u : Upload = record s.upload {
        retry = u8 (s.upload.retry + 1);
        timeout_ms = u32 (now + upload_timeout_ms);
      } in
      of_upload n u (retry_upload env now s)
        ((send_frame-IsQuiet env _ _ _ _).0 ∙ (send_frame-IsQuiet env _ _ _ _).0)
        (k.0, ground (arith, k))

  -- An expiry uses up a wait.
  expiry-HasRank :
      (now : ℕ) (s : Bridge)
      → is_reached now s.upload.timeout_ms ≡ true
      → HasRank (suc n) s
      → HasRank n (check_mission_upload_timeout env now s)
  unfolding check_mission_upload_timeout
  expiry-HasRank now s r k =
      if_cases (HasRank n) (s.upload.state == upload_clearing) _ _
        (λ c.
          if_cases (HasRank n) (is_reached now s.upload.timeout_ms) _ _
            (λ _. announce_count-HasRank now s (ground arith) k) (λ f. absurd (ground arith)))
        (λ c.
          if_cases (HasRank n) (not (s.upload.state == upload_active)) _ _
            (λ d. (k.0, ground (arith, c, d)))
            (λ d.
              if_cases (HasRank n) (not (is_reached now s.upload.timeout_ms)) _ _
                (λ f. absurd (ground arith))
                (λ _.
                  if_cases (HasRank n) (ltb s.upload.retry max_retries) _ _
                    (λ l. retry_upload-HasRank now s (ground arith) l k)
                    (λ _. (omega arith, omega arith)))))

  -- The timer while its time is not reached.
  waiting-HasRank :
      (now : ℕ) (s : Bridge)
      → is_reached now s.upload.timeout_ms ≡ false
      → HasRank n s
      → HasRank n (check_mission_upload_timeout env now s)
  unfolding check_mission_upload_timeout
  waiting-HasRank now s r k =
      if_cases (HasRank n) (s.upload.state == upload_clearing) _ _
        (λ c.
          if_cases (HasRank n) (is_reached now s.upload.timeout_ms) _ _ (λ f. absurd (ground arith))
            (λ _. k))
        (λ c.
          if_cases (HasRank n) (not (s.upload.state == upload_active)) _ _ (λ d. k)
            (λ d.
              if_cases (HasRank n) (not (is_reached now s.upload.timeout_ms)) _ _ (λ _. k)
                (λ f. absurd (ground arith))))

-- Every event but a new route.
abbrev pub IsNoUpdate : BridgeEvent → Type 0
IsNoUpdate (route_update_received msg) = ⊥
IsNoUpdate _ = Unit

bridge_step-HasRank :
    (env : BridgeEnv) (e : BridgeEvent) (n : ℕ) (s : Bridge)
    → IsNoUpdate e
    → HasRank (if is_expiry e s then suc n else n) s
    → HasRank n (bridge_step env e s)
unfolding bridge_step
bridge_step-HasRank env (frame_received now p) n s q k =
    handle_frame_complete-HasRank env n now p s k
bridge_step-HasRank env (upload_timer now) n s q k =
    elim (Bool-cases (is_reached now s.upload.timeout_ms)) [
      | inl r ↦
          expiry-HasRank env n now s r (subst (λ b. IsRanked (if b then suc n else n) s.upload) r k)
      | inr r ↦
          waiting-HasRank env n now s r
            (subst (λ b. IsRanked (if b then suc n else n) s.upload) r k)
    ]
bridge_step-HasRank env (download_timer now) n s q k =
    stays n s (check_mission_download_timeout now s)
      (check_mission_download_timeout-KeepsUpload now s) k
bridge_step-HasRank env (readback_timer now) n s q k =
    stays n s (retry_readback env now s) (retry_readback-KeepsUpload env now s) k
bridge_step-HasRank env (link_changed state) n s q k =
    stays n s (set_link_state env state s) (set_link_state-KeepsUpload env state s) k
bridge_step-HasRank env (route_update_received msg) n s q k = elim q [ ]
bridge_step-HasRank env (mission_query_received fits) n s q k =
    stays n s (mission_query env fits s) (mission_query-KeepsUpload env fits s) k

abbrev NoUpdates : List (BridgeEnv × BridgeEvent) → Type 0
NoUpdates turns = All (λ turn. IsNoUpdate turn.1) turns

carry :
    (b : Bool) (r n later : ℕ)
    → r ≤ n + (if b then later + 1 else later)
    → r ≤ (if b then suc (n + later) else n + later)
carry true r n later h = omega (arith, h)
carry false r n later h = h

run_bridge-HasRank :
    (turns : List (BridgeEnv × BridgeEvent)) (n : ℕ) (s : Bridge)
    → NoUpdates turns
    → HasRank (n + expiries turns s) s
    → HasRank n (run_bridge turns s)
unfolding run_bridge expiries
run_bridge-HasRank [] n s q k = (k.0, omega (arith, k))
run_bridge-HasRank ((env, e) ∷ rest) n s q k = run_bridge-HasRank rest n (bridge_step env e s) q.1 (
    bridge_step-HasRank env e (n + expiries rest (bridge_step env e s)) s q.0
      (k.0, carry (is_expiry e s) (upload_rank s.upload) n _ k.1))

upload_rank-bound : (u : Upload) → upload_rank u ≤ 5
upload_rank-bound u = ground arith

upload_rank-idle : (u : Upload) → IsRanked 0 u → u.state ≡ upload_idle
upload_rank-idle u k = ground (arith, k)

-- Once a route is being sent, in whatever state, the upload is over after the fifth time at most that
-- its timer is found to have run out: whatever frames the flight controller sends or fails to send,
-- in whatever order, and whether or not the port takes the frames, as long as no other route is asked
-- for.
pub run_bridge-settles :
    (turns : List (BridgeEnv × BridgeEvent)) (s : Bridge)
    → s.upload.state ≤ 2
    → NoUpdates turns
    → 5 ≤ expiries turns s
    → (run_bridge turns s).upload.state ≡ upload_idle
run_bridge-settles turns s b q e =
    upload_rank-idle (run_bridge turns s).upload
      (run_bridge-HasRank turns 0 s q (b, omega (arith, upload_rank-bound s.upload, e)))
