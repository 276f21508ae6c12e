-- ===== src/Mavlink/Items/Restored.antt =====
-- A route on its way out and back: the items that MAVLINK_BRIDGE_APP_SendMissionItemInt writes, read by
-- MAVLINK_BRIDGE_APP_HandleFrameComplete in a download (mavlink_bridge_app/fsw/src/
-- mavlink_bridge_app_utils.c).
use cfs_telemetry_app.Common.{
  ℕ, zero, suc, ◌+◌, ◌≤◌, ◌≡◌, refl, ap, sym, ◌∙◌, true, List, [], ◌∷◌, length, take, arith,
}
use mathlib.Core.Path.{subst}
use cfs_telemetry_app.CfsCore.State.{RouteTlm}
use cfs_telemetry_app.Mavlink.Parser.{Parser, wait_stx, frames_of, compute_frame_crc, received_crc}
use cfs_telemetry_app.Mavlink.State.{
  Bridge, BridgeMessage, BridgeEnv, fc_mission_readback_tlm, wait_item, download_idle,
}
use cfs_telemetry_app.Mavlink.Send.{mission_item_int_id, waypoint_at}
use cfs_telemetry_app.Mavlink.Upload.{set_at}
use cfs_telemetry_app.Mavlink.Mission.{take_mission_item_int}
use cfs_telemetry_app.Mavlink.Receive.{when_valid, handle_frame_complete}
use cfs_telemetry_app.Mavlink.Items.{item_of-payload, item_parsed, item_parsed-crc}
use cfs_telemetry_app.Mavlink.Items.Stream.{
  item_stream, item_numbers, upward, IsSender, waypoint_at-IsWireWaypoint, item_sent, items_parsed,
  item_sent-IsSender, frames_of-item_stream, item_numbers-items_parsed,
}
use cfs_telemetry_app.Mavlink.Items.Stored.{
  IsReader, length-set_at, take-set_at, take_mission_item_int-IsNext, take_mission_item_int-IsLast,
}

-- What a reader does with each frame.
unfoldable pub handle_frames : BridgeEnv → ℕ → List Parser → Bridge → Bridge
handle_frames env now [] s = s
handle_frames env now (q ∷ qs) s = handle_frames env now qs (handle_frame_complete env now q s)

-- The download has ended, and the first n waypoints of the sender's route are published.
pub record IsPublished (r : Bridge) (n : ℕ) (s t : Bridge) : Type 0 where
  pub idle : t.download.state ≡ download_idle
  pub tlm : RouteTlm
  pub published : t.sent ≡ fc_mission_readback_tlm tlm ∷ s.sent
  pub count : tlm.waypoint_count ≡ n
  pub route : tlm.waypoints ≡ take n r.upload.pending

-- The branch that an item takes in a download.
handle-item :
    (env : BridgeEnv) (now : ℕ) (q : Parser) (s : Bridge)
    → q.msg_id ≡ mission_item_int_id
    → s.download.state ≡ wait_item
    → compute_frame_crc q 38 ≡ received_crc q
    → 32 ≤ q.payload_len
    → handle_frame_complete env now q s ≡ take_mission_item_int env now q s
unfolding handle_frame_complete when_valid
handle-item env now q s e k c l = ground (arith, e, k, c, l)

-- What a download keeps between two items: the entries so far are those of the route.
module _ (env : BridgeEnv) (now : ℕ) (delivers : (m : BridgeMessage) → env.delivers m ≡ true) where
  handle-item_parsed :
      (i : ℕ) (r s : Bridge)
      → s.download.state ≡ wait_item
      → handle_frame_complete env now (item_parsed r i (waypoint_at r.upload.pending i)) s
        ≡ take_mission_item_int env now (item_parsed r i (waypoint_at r.upload.pending i)) s
  handle-item_parsed i r s e =
      handle-item env now (item_parsed r i (waypoint_at r.upload.pending i)) s refl e
        (item_parsed-crc r i (waypoint_at r.upload.pending i)) (omega arith)

  handle_frames-items :
      (out : BridgeEnv) (m i n : ℕ) (r s : Bridge)
      → i + suc m ≡ n
      → IsSender out r
      → IsReader i n s
      → n ≤ 37
      → take i s.download.waypoints ≡ take i r.upload.pending
      → IsPublished r n s (handle_frames env now (items_parsed (suc m) i r) s)
  unfolding handle_frames
  handle_frames-items out zero i n r s l a k h e =
      let w = waypoint_at r.upload.pending i in
      let q = item_parsed r i w in
      let one : n ≡ suc i = omega arith in
      let k' : IsReader i (suc i) s = record {
        state = k.state;
        next = k.next;
        expected = k.expected ∙ one;
        whole = k.whole;
      } in
      let last = take_mission_item_int-IsLast env now q i s delivers k' (omega arith) in
      let same = item_of-payload r i w (waypoint_at-IsWireWaypoint r.upload.pending i a.wire) in
      subst (IsPublished r n s) (sym (handle-item_parsed i r s k.state)) (record {
        idle = last.state;
        tlm = last.tlm;
        published = last.sent;
        count = last.count ∙ sym one;
        route =
            last.waypoints
            ∙ ap (λ x. take (suc i) (set_at s.download.waypoints i x)) same
            ∙ take-set_at s.download.waypoints r.upload.pending i (omega (arith, k.whole))
                (omega (arith, a.whole)) e
            ∙ ap (λ c. take c r.upload.pending) (sym one);
      })
  handle_frames-items out (suc m) i n r s l a k h e =
      let w = waypoint_at r.upload.pending i in
      let q = item_parsed r i w in
      let t = take_mission_item_int env now q s in
      let step = take_mission_item_int-IsNext env now q i n s k (omega arith) (omega arith) in
      let same = item_of-payload r i w (waypoint_at-IsWireWaypoint r.upload.pending i a.wire) in
      let k' : IsReader (suc i) n t = record {
        state = step.state ∙ k.state;
        next = step.next;
        expected = step.expected ∙ k.expected;
        whole = ap length step.waypoints ∙ length-set_at s.download.waypoints i _ ∙ k.whole;
      } in
      let taken : take (suc i) t.download.waypoints ≡ take (suc i) r.upload.pending =
        ap (take (suc i)) step.waypoints
        ∙ ap (λ x. take (suc i) (set_at s.download.waypoints i x)) same
        ∙ take-set_at s.download.waypoints r.upload.pending i (omega (arith, k.whole))
            (omega (arith, a.whole)) e in
      let rest =
        handle_frames-items out m (suc i) n (item_sent i r) t (omega arith)
          (item_sent-IsSender out i r a) k' h taken in
      subst
        (λ u.
          IsPublished r n s
            (handle_frames env now (items_parsed (suc m) (suc i) (item_sent i r)) u))
        (sym (handle-item_parsed i r s k.state))
        (record {
          idle = rest.idle;
          tlm = rest.tlm;
          published = rest.published ∙ ap (λ log. fc_mission_readback_tlm rest.tlm ∷ log) step.sent;
          count = rest.count;
          route = rest.route;
        })

-- The items of a route of 1 to 37 waypoints, as one bridge sends them in their order, arrive one after
-- the other at a bridge that waits for the first of that many. Each is read as one frame with its own
-- number, from 0 on. The download ends, and the one message that it publishes has all the waypoints,
-- in their order and with every field to the bit. The sender's port is open and takes each frame, the
-- reader's parser waits for the start of one and its bus takes each message, the buffers of both have
-- 37 places, and the fields of the waypoints have the widths of their types.
pub route_read_back :
    (out env : BridgeEnv) (now n : ℕ) (r s : Bridge) (p : Parser)
    → IsSender out r
    → IsReader 0 n s
    → 1 ≤ n
    → n ≤ 37
    → ((m : BridgeMessage) → env.delivers m ≡ true)
    → p.state ≡ wait_stx
    → let frames = frames_of (item_stream out n 0 r) p in
      (item_numbers frames ≡ upward n 0) × IsPublished r n s (handle_frames env now frames s)
route_read_back out env now zero r s p a k lo hi d e = absurd (omega arith)
route_read_back out env now (suc m) r s p a k lo hi d e =
    rw (frames_of-item_stream out (suc m) 0 r p a e) (
      item_numbers-items_parsed (suc m) 0 r (omega arith),
      handle_frames-items env now d out m 0 (suc m) r s (omega arith) a k hi refl,
    )
