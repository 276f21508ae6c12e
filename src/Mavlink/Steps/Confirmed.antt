-- ===== src/Mavlink/Steps/Confirmed.antt =====
-- A route that the flight controller confirms is the edit that the ground asked for.
use cfs_telemetry_app.Common.{
  ℕ, ◌≤◌, ◌≡◌, refl, ap, sym, ◌∙◌, not, List, [], ◌∷◌, some, All, ◌==◌, ltb, if_cases, take, length,
  length-take, arith,
}
use mathlib.Core.Path.{subst}
use cfs_telemetry_app.Uplink.Messages.{Waypoint}
use cfs_telemetry_app.CfsCore.State.{RouteTlm}
use cfs_telemetry_app.Mavlink.Parser.{Parser}
use cfs_telemetry_app.Mavlink.State.{
  Upload, Bridge, BridgeEnv, upload_clearing, upload_active, download_idle, link_connected,
}
use cfs_telemetry_app.Mavlink.Send.{
  waypoint_at, send_mission_item_int, send_mission_item, send_mission_count, send_mission_clear_all,
  send_mission_request_list,
}
use cfs_telemetry_app.Mavlink.Readback.{is_reached, start_fc_mission_readback}
use cfs_telemetry_app.Mavlink.Upload.{
  max_retries, Edit, edit_route, begin_upload, start_mission_upload, check_mission_upload_timeout,
}
use cfs_telemetry_app.Mavlink.Upload.Edits.{
  route_of, edited, IsArray, IsRoute, Holds, loop_holds, edit_route-edited, read-take,
}
use cfs_telemetry_app.Mavlink.Publish.{u16_at}
use cfs_telemetry_app.Mavlink.Mission.{
  is_wanted, extend_upload, take_mission_request_int, take_mission_request, take_mission_ack,
  ack_result, confirm_upload,
}
use cfs_telemetry_app.Mavlink.Quiet.{send_frame-IsQuiet}
use cfs_telemetry_app.Mavlink.Receive.{handle_frame_complete}
use cfs_telemetry_app.Mavlink.Receive.Cases.{handle_frame_complete_cases}
use cfs_telemetry_app.Mavlink.Steps.{
  BridgeEvent, frame_received, upload_timer, download_timer, readback_timer, link_changed,
  route_update_received, mission_query_received, bridge_step, run_bridge,
}
use cfs_telemetry_app.Mavlink.Steps.Settles.{IsNoUpdate}
use cfs_telemetry_app.Mavlink.Steps.Uploads.{
  start_fc_mission_readback-KeepsUpload, mission_query-KeepsUpload, set_link_state-KeepsUpload,
  retry_readback-KeepsUpload, take_mission_count-KeepsUpload, take_mission_item_int-KeepsUpload,
  check_mission_download_timeout-KeepsUpload,
}

-- The route that is pending is `r`, within its array.
abbrev IsPendingRoute : List Waypoint → Upload → Type 0
IsPendingRoute r u = (take u.wp_count u.pending ≡ r) × IsArray u.pending × (u.wp_count ≤ 37)

unfoldable HasPending : List Waypoint → Bridge → Type 0
HasPending r s = IsPendingRoute r s.upload

abbrev pending_of : Upload → List Waypoint
pending_of u = u.pending

abbrev wp_count_of : Upload → ℕ
wp_count_of u = u.wp_count

same :
    (r : List Waypoint) (s t : Bridge)
    → t.upload.pending ≡ s.upload.pending
    → t.upload.wp_count ≡ s.upload.wp_count
    → HasPending r s
    → HasPending r t
unfolding HasPending
same r s t e f k = rw (e, f) k

stays : (r : List Waypoint) (s t : Bridge) → t.upload ≡ s.upload → HasPending r s → HasPending r t
stays r s t e k = same r s t (ap pending_of e) (ap wp_count_of e) k

module _ (env : BridgeEnv) (r : List Waypoint) where
  take_mission_request_int-HasPending :
      (now : ℕ) (p : Parser) (s : Bridge)
      → HasPending r s
      → HasPending r (take_mission_request_int env now p s)
  unfolding take_mission_request_int send_mission_item_int
  take_mission_request_int-HasPending now p s k =
      if_cases (HasPending r) (is_wanted (u16_at p.payload 0) s) _ _
        (λ _.
          stays r (extend_upload now s) _ (send_frame-IsQuiet env _ _ _ _).0
            (same r s (extend_upload now s) refl refl k))
        (λ _. k)

  take_mission_request-HasPending :
      (now : ℕ) (p : Parser) (s : Bridge)
      → HasPending r s
      → HasPending r (take_mission_request env now p s)
  unfolding take_mission_request send_mission_item
  take_mission_request-HasPending now p s k =
      if_cases (HasPending r) (is_wanted (u16_at p.payload 0) s) _ _
        (λ _.
          stays r (extend_upload now s) _ (send_frame-IsQuiet env _ _ _ _).0
            (same r s (extend_upload now s) refl refl k))
        (λ _. k)

  take_mission_ack-HasPending :
      (now : ℕ) (p : Parser) (s : Bridge)
      → HasPending r s
      → HasPending r (take_mission_ack env now p s)
  unfolding take_mission_ack confirm_upload
  take_mission_ack-HasPending now p s k =
      if_cases (HasPending r) (not (s.upload.state == upload_active)) _ _ (λ _. k)
        (λ _.
          if_cases (HasPending r) (ack_result p == 0) _ _
            (λ _.
              if_cases (HasPending r) (s.download.state == download_idle) _ _
                (λ _.
                  stays r (confirm_upload now s) _
                    (start_fc_mission_readback-KeepsUpload env (confirm_upload now s))
                    (same r s _ refl refl k))
                (λ _. same r s _ refl refl k))
            (λ _. same r s _ refl refl k))

  handle_frame_complete-HasPending :
      (now : ℕ) (p : Parser) (s : Bridge)
      → HasPending r s
      → HasPending r (handle_frame_complete env now p s)
  handle_frame_complete-HasPending now p s k =
      handle_frame_complete_cases (HasPending r) (λ s t q. stays r s t q.0) env now
        (λ s. stays r s _ (set_link_state-KeepsUpload env link_connected s))
        (λ s i h. same r s _ refl refl h) p s (take_mission_request_int-HasPending now p s k)
        (take_mission_request-HasPending now p s k) (take_mission_ack-HasPending now p s k)
        (λ _. stays r s _ (take_mission_count-KeepsUpload env now p s) k)
        (λ _. stays r s _ (take_mission_item_int-KeepsUpload env now p s) k) k

  upload_timer-HasPending :
      (now : ℕ) (s : Bridge)
      → HasPending r s
      → HasPending r (check_mission_upload_timeout env now s)
  unfolding check_mission_upload_timeout send_mission_count send_mission_clear_all
  upload_timer-HasPending now s k =
      if_cases (HasPending r) (s.upload.state == upload_clearing) _ _
        (λ _.
          if_cases (HasPending r) (is_reached now s.upload.timeout_ms) _ _
            (λ _.
              let q = (send_frame-IsQuiet env _ _ _ _).0 in
              same r s _ (ap pending_of q) (ap wp_count_of q) k)
            (λ _. k))
        (λ _.
          if_cases (HasPending r) (not (s.upload.state == upload_active)) _ _ (λ _. k)
            (λ _.
              if_cases (HasPending r) (not (is_reached now s.upload.timeout_ms)) _ _ (λ _. k)
                (λ _.
                  if_cases (HasPending r) (ltb s.upload.retry max_retries) _ _
                    (λ _.
                      let q =
                        (send_frame-IsQuiet env _ _ _ _).0 ∙ (send_frame-IsQuiet env _ _ _ _).0 in
                      same r s _ (ap pending_of q) (ap wp_count_of q) k)
                    (λ _. same r s _ refl refl k))))

  bridge_step-HasPending :
      (e : BridgeEvent) (s : Bridge)
      → IsNoUpdate e
      → HasPending r s
      → HasPending r (bridge_step env e s)
  unfolding bridge_step
  bridge_step-HasPending (frame_received now p) s q k = handle_frame_complete-HasPending now p s k
  bridge_step-HasPending (upload_timer now) s q k = upload_timer-HasPending now s k
  bridge_step-HasPending (download_timer now) s q k =
      stays r s _ (check_mission_download_timeout-KeepsUpload now s) k
  bridge_step-HasPending (readback_timer now) s q k =
      stays r s _ (retry_readback-KeepsUpload env now s) k
  bridge_step-HasPending (link_changed state) s q k =
      stays r s _ (set_link_state-KeepsUpload env state s) k
  bridge_step-HasPending (route_update_received msg) s q k = elim q [ ]
  bridge_step-HasPending (mission_query_received fits) s q k =
      stays r s _ (mission_query-KeepsUpload env fits s) k

run_bridge-HasPending :
    (r : List Waypoint) (turns : List (BridgeEnv × BridgeEvent)) (s : Bridge)
    → All (λ turn. IsNoUpdate turn.1) turns
    → HasPending r s
    → HasPending r (run_bridge turns s)
unfolding run_bridge
run_bridge-HasPending r [] s q k = k
run_bridge-HasPending r ((env, e) ∷ rest) s q k =
    run_bridge-HasPending r rest (bridge_step env e s) q.1 (bridge_step-HasPending env r e s q.0 k)

begin_upload-HasPending :
    (env : BridgeEnv) (e : Edit) (r : List Waypoint) (s : Bridge)
    → Holds r e
    → HasPending r (begin_upload env (some e) s)
unfolding HasPending send_mission_clear_all
begin_upload-HasPending env e r s h =
    let q = (send_frame-IsQuiet env _ _ _ _).0 in subst (IsPendingRoute r) (sym q) h

start_mission_upload-HasPending :
    (env : BridgeEnv) (msg : RouteTlm) (e : Edit) (r : List Waypoint) (s : Bridge)
    → s.link_state ≡ link_connected
    → s.download.state ≡ download_idle
    → edit_route msg s.active s.upload.pending ≡ some e
    → Holds r e
    → HasPending r (start_mission_upload env msg s)
unfolding start_mission_upload
start_mission_upload-HasPending env msg e r s l d f h =
    if_cases (HasPending r) (not (s.link_state == link_connected)) _ _ (λ g. absurd (ground arith))
      (λ _.
        if_cases (HasPending r) (not (s.download.state == download_idle)) _ _
          (λ g. absurd (ground arith))
          (λ _.
            subst (λ o. HasPending r (begin_upload env o s)) (sym f)
              (begin_upload-HasPending env e r s h)))

-- What an accepting answer makes of the active route.
confirmed :
    (t : Bridge) (now : ℕ) (r : List Waypoint)
    → HasPending r t
    → IsArray t.active.waypoints
    → route_of (confirm_upload now t).active ≡ r
unfolding HasPending confirm_upload
confirmed t now r k a =
    let u = t.upload in
    let l : length (take u.wp_count u.pending) ≡ u.wp_count =
      omega (arith, length-take u.wp_count u.pending, k) in
    loop_holds u.wp_count (waypoint_at u.pending) t.active.waypoints (take u.wp_count u.pending)
      (omega (arith, a, k)) l (λ j h. sym (read-take u.wp_count u.pending j h))
    ∙ k.0

start_fc_mission_readback-active :
    (env : BridgeEnv) (s : Bridge) → (start_fc_mission_readback env s).active ≡ s.active
unfolding start_fc_mission_readback send_mission_request_list
start_fc_mission_readback-active env s = (send_frame-IsQuiet env _ _ _ _).2

take_mission_ack-active :
    (env : BridgeEnv) (now : ℕ) (p : Parser) (s : Bridge)
    → s.upload.state ≡ upload_active
    → ack_result p ≡ 0
    → (take_mission_ack env now p s).active ≡ (confirm_upload now s).active
unfolding take_mission_ack
take_mission_ack-active env now p s u z =
    if_cases {A = Bridge} (λ t. t.active ≡ (confirm_upload now s).active)
      (not (s.upload.state == upload_active)) _ _ (λ f. absurd (ground arith))
      (λ _.
        if_cases {A = Bridge} (λ t. t.active ≡ (confirm_upload now s).active) (ack_result p == 0) _
          _
          (λ _.
            if_cases {A = Bridge} (λ t. t.active ≡ (confirm_upload now s).active)
              (s.download.state == download_idle) _ _
              (λ _. start_fc_mission_readback-active env (confirm_upload now s)) (λ _. refl))
          (λ f. absurd (ground arith)))

-- A route update that is taken while the link is up and no mission is read back: whatever happens
-- until the next one, if the flight controller then accepts the upload that is under way, the route
-- that the bridge holds for active is the edit of the old one that the update asked for. An addition
-- is cut at 37 waypoints, a removal and a change are those of the entry with the index, and a
-- replacement is the new list. The arrays have their 37 entries.
pub route_confirmed :
    (env env' : BridgeEnv) (msg : RouteTlm) (s : Bridge) (turns : List (BridgeEnv × BridgeEvent))
    (now : ℕ) (p : Parser) (e : Edit)
    → s.link_state ≡ link_connected
    → s.download.state ≡ download_idle
    → IsRoute s.active
    → IsArray s.upload.pending
    → IsArray msg.waypoints
    → edit_route msg s.active s.upload.pending ≡ some e
    → All (λ turn. IsNoUpdate turn.1) turns
    → let t = run_bridge turns (start_mission_upload env msg s) in
      t.upload.state ≡ upload_active
      → IsArray t.active.waypoints
      → ack_result p ≡ 0
      → route_of (take_mission_ack env' now p t).active ≡ edited msg (route_of s.active)
route_confirmed env env' msg s turns now p e l d a b m f q u w z =
    let r = edited msg (route_of s.active) in
    let t = run_bridge turns (start_mission_upload env msg s) in
    let h : Holds r e = edit_route-edited msg s.active s.upload.pending a b m e f in
    ap route_of (take_mission_ack-active env' now p t u z)
    ∙ confirmed t now r
        (run_bridge-HasPending r turns _ q (start_mission_upload-HasPending env msg e r s l d f h))
        w
