-- ===== src/Mavlink/Items/Stored.antt =====
-- What a download does with one item (the MISSION_ITEM_INT branch of
-- MAVLINK_BRIDGE_APP_HandleFrameComplete, mavlink_bridge_app/fsw/src/mavlink_bridge_app_utils.c).
use cfs_telemetry_app.Common.{
  ℕ, Bool, ◌||◌, zero, suc, ◌+◌, ◌<◌, ◌≡◌, refl, ap, true, false, not, List, [], ◌∷◌, length, take,
  u8, leb, ltb, if_cases, arith,
}
use cfs_telemetry_app.Common.Time.{get_time_ms}
use cfs_telemetry_app.Uplink.Messages.{Waypoint}
use cfs_telemetry_app.CfsCore.State.{RouteTlm}
use cfs_telemetry_app.Mavlink.Parser.{Parser, max_payload_len}
use cfs_telemetry_app.Mavlink.Frame.{mavlink_frame}
use cfs_telemetry_app.Mavlink.State.{
  Download, Bridge, BridgeMessage, BridgeEnv, fc_mission_readback_tlm, transmit_bridge, wait_item,
  download_idle,
}
use cfs_telemetry_app.Mavlink.Send.{
  max_frame_len, mission_ack_id, addressed, waypoint_at, send_mavlink_v2, send_frame,
  send_mission_request_int, send_mission_ack_accepted,
}
use cfs_telemetry_app.Mavlink.Upload.{set_at}
use cfs_telemetry_app.Mavlink.Readback.{readback_tlm, publish_fc_mission_readback}
use cfs_telemetry_app.Mavlink.Mission.{item_of, store_item, take_mission_item_int}
use cfs_telemetry_app.Mavlink.Quiet.{send_frame-IsQuiet}

-- A bridge that waits for the item i of n.
pub record IsReader (i n : ℕ) (s : Bridge) : Type 0 where
  pub state : s.download.state ≡ wait_item
  pub next : s.download.seq ≡ i
  pub expected : s.download.expected_count ≡ n
  pub whole : length s.download.waypoints ≡ 37

pub take-set_at :
    (ws ps : List Waypoint) (i : ℕ)
    → i < length ws
    → i < length ps
    → take i ws ≡ take i ps
    → take (suc i) (set_at ws i (waypoint_at ps i)) ≡ take (suc i) ps
take-set_at [] ps i h k e = absurd (omega arith)
take-set_at (w ∷ ws) [] i h k e = absurd (omega arith)
take-set_at (w ∷ ws) (p ∷ ps) zero h k e = refl
take-set_at (w ∷ ws) (p ∷ ps) (suc i) h k e =
    let same : w ≡ p = cc in
    let rest : take i ws ≡ take i ps = cc in
    rw (same, take-set_at ws ps i (omega arith) (omega arith) rest) refl

pub length-set_at : (ws : List Waypoint) (i : ℕ) (w : Waypoint) → length (set_at ws i w) ≡ length ws
length-set_at [] i w = refl
length-set_at (x ∷ ws) zero w = refl
length-set_at (x ∷ ws) (suc i) w = ap suc (length-set_at ws i w)

abbrev HasLog : List BridgeMessage → Bridge × Bool → Type 0
HasLog log r = r.0.sent ≡ log

send_frame-sent :
    (env : BridgeEnv) (msg_id : ℕ) (payload : List ℕ) (crc_extra : ℕ) (s : Bridge)
    → (send_frame env msg_id payload crc_extra s).sent ≡ s.sent
unfolding send_mavlink_v2
send_frame-sent env msg_id payload crc_extra s =
    if_cases (HasLog s.sent) (not s.is_serial_open) _ _ (λ _. refl)
      (λ _.
        if_cases (HasLog s.sent)
          (ltb max_payload_len (length payload) || ltb max_frame_len (10 + length payload + 2)) _ _
          (λ _. refl)
          (λ _.
            if_cases (HasLog s.sent)
              (env.writes (mavlink_frame s.tx_sequence msg_id payload crc_extra)) _ _ (λ _. refl)
              (λ _. refl)))

-- The download after the item i.
abbrev item_stored : ℕ → Waypoint → Download → Download
item_stored i w d = record d { waypoints = set_at d.waypoints i w; seq = suc i }

store_item-stored :
    (q : Parser) (i n : ℕ) (s : Bridge)
    → IsReader i n s
    → i < 37
    → store_item q s.download ≡ item_stored i (item_of q.payload) s.download
unfolding store_item
store_item-stored q i n s k h =
    let small : ltb i 37 ≡ true = ground arith in
    let next : u8 (i + 1) ≡ suc i = omega arith in simp (k.next, small, next) refl

-- An item that is not the last one is stored, and the next one is asked for.
pub record IsNext (i : ℕ) (w : Waypoint) (s t : Bridge) : Type 0 where
  pub state : t.download.state ≡ s.download.state
  pub next : t.download.seq ≡ suc i
  pub expected : t.download.expected_count ≡ s.download.expected_count
  pub waypoints : t.download.waypoints ≡ set_at s.download.waypoints i w
  pub sent : t.sent ≡ s.sent

of_download :
    (i : ℕ) (w : Waypoint) (s t : Bridge) (d : Download) (time : ℕ)
    → d ≡ item_stored i w s.download
    → t.download ≡ record d { timeout_ms = time }
    → t.sent ≡ s.sent
    → IsNext i w s t
of_download i w s t d time e f g = ground (arith, e, f, g)

pub take_mission_item_int-IsNext :
    (env : BridgeEnv) (now : ℕ) (q : Parser) (i n : ℕ) (s : Bridge)
    → IsReader i n s
    → i < 37
    → suc i < n
    → IsNext i (item_of q.payload) s (take_mission_item_int env now q s)
unfolding take_mission_item_int send_mission_request_int
take_mission_item_int-IsNext env now q i n s k h l =
    let stored = store_item-stored q i n s k h in
    if_cases (IsNext i (item_of q.payload) s)
      (leb (store_item q s.download).expected_count (store_item q s.download).seq) _ _
      (λ e. absurd (ground (arith, e, stored, k.expected)))
      (λ _.
        of_download i _ s _ _ _ stored (send_frame-IsQuiet env _ _ _ _).1
          (send_frame-sent env _ _ _ _))

-- The last one ends the download, and the route is published.
pub record IsLast (i : ℕ) (w : Waypoint) (s t : Bridge) : Type 0 where
  pub state : t.download.state ≡ download_idle
  pub tlm : RouteTlm
  pub sent : t.sent ≡ fc_mission_readback_tlm tlm ∷ s.sent
  pub count : tlm.waypoint_count ≡ suc i
  pub waypoints : tlm.waypoints ≡ take (suc i) (set_at s.download.waypoints i w)

publish_fc_mission_readback-IsLast :
    (env : BridgeEnv) (i : ℕ) (w : Waypoint) (s t : Bridge)
    → ((m : BridgeMessage) → env.delivers m ≡ true)
    → i < 37
    → t.download.state ≡ download_idle
    → t.download.expected_count ≡ suc i
    → t.download.waypoints ≡ set_at s.download.waypoints i w
    → t.sent ≡ s.sent
    → IsLast i w s (publish_fc_mission_readback env t)
unfolding publish_fc_mission_readback transmit_bridge
publish_fc_mission_readback-IsLast env i w s t d h idle expected waypoints same =
    let tlm = readback_tlm (get_time_ms env.time) t.download in
    let bound : ltb 37 t.download.expected_count ≡ false = ground (arith, expected) in
    let count : tlm.waypoint_count ≡ suc i = ground (arith, expected, bound) in
    record {
      state = ground (arith, idle, d (fc_mission_readback_tlm tlm));
      tlm = tlm;
      sent = ground (arith, same, d (fc_mission_readback_tlm tlm));
      count = count;
      waypoints = simp (count, waypoints) refl;
    }

pub take_mission_item_int-IsLast :
    (env : BridgeEnv) (now : ℕ) (q : Parser) (i : ℕ) (s : Bridge)
    → ((m : BridgeMessage) → env.delivers m ≡ true)
    → IsReader i (suc i) s
    → i < 37
    → IsLast i (item_of q.payload) s (take_mission_item_int env now q s)
unfolding take_mission_item_int send_mission_ack_accepted
take_mission_item_int-IsLast env now q i s d k h =
    let stored = store_item-stored q i (suc i) s k h in
    let acked =
      send_frame-IsQuiet env mission_ack_id (addressed s (0 ∷ [])) 153
        (record s { download = store_item q s.download }) in
    if_cases (IsLast i (item_of q.payload) s)
      (leb (store_item q s.download).expected_count (store_item q s.download).seq) _ _
      (λ _.
        publish_fc_mission_readback-IsLast env i _ s _ d h refl
          (ground (arith, acked.1, stored, k.expected)) (ground (arith, acked.1, stored))
          (send_frame-sent env _ _ _ _))
      (λ e. absurd (ground (arith, e, stored, k.expected)))
