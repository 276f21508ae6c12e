-- ===== src/Uplink/Payload/Route.antt =====
-- The route payload: what UPLINK_APP_ParseRouteUpdatePayload lets through.
use cfs_telemetry_app.Common.{
  ℕ, zero, suc, sym, ◌∙◌, not, if◌then◌else◌, ap, ◌+◌, ◌*◌, ◌/◌, ◌%◌, ◌≤◌, ◌<◌, ◌≡◌, ◌≢◌, ◌⊎◌, inl,
  inr, refl, Bool, true, false, Option, none, some, List, [], ◌∷◌, length, drop, All, byte_at,
  arith,
}
use cfs_telemetry_app.Uplink.Messages.{
  accept, ProcessUplinkCmd, Waypoint, RouteUpdatePayload, route_op_replace, route_op_add,
  route_op_delete, route_op_modify,
}
use cfs_telemetry_app.Uplink.Admission.{validate_proxy_command}
use cfs_telemetry_app.Uplink.Admission.Policy.{validate_proxy_command_iff}
use cfs_telemetry_app.Uplink.Payload.{
  is_waypoint_finite, is_waypoint_altitude_valid, parse_waypoint_wire, with_first, with_waypoints,
  parse_waypoints, route_header, parse_route_update_payload,
}

-- A bit pattern of a finite number, and one of a number from 2.0 to 8.0: these are positive, so
-- their patterns are ordered as they are.
abbrev pub IsFiniteNumber : ℕ → Type 0
IsFiniteNumber w = w / 8388608 % 256 ≢ 255

abbrev pub IsAltitude : ℕ → Type 0
IsAltitude w = (0x40000000 ≤ w) × (w ≤ 0x41000000)

abbrev pub IsFlyable : Waypoint → Type 0
IsFlyable w =
    IsFiniteNumber w.param1
    × IsFiniteNumber w.param2
    × IsFiniteNumber w.param3
    × IsFiniteNumber w.param4
    × IsAltitude w.z

IsAltitude-of_test : (w : Waypoint) → is_waypoint_altitude_valid w ≡ true → IsAltitude w.z
unfolding is_waypoint_altitude_valid
IsAltitude-of_test w a = ground arith

IsFlyable-of_tests :
    (w : Waypoint) → is_waypoint_finite w ≡ true → is_waypoint_altitude_valid w ≡ true → IsFlyable w
unfolding is_waypoint_finite
IsFlyable-of_tests w f a =
    let z = IsAltitude-of_test w a in (ground arith, ground arith, ground arith, ground arith, z)

round_lem :
    (f a : Bool) (w : Waypoint) (o : Option (List Waypoint)) (ws : List Waypoint)
    → (if not f then none else if not a then none else with_first w o) ≡ some ws
    → (f ≡ true) × (a ≡ true) × (rest : List Waypoint) × (o ≡ some rest) × (ws ≡ w ∷ rest)
round_lem true true w (some rest) ws h = (refl, refl, rest, refl, cc)
round_lem true true w none ws h = cc
round_lem true false w o ws h = cc
round_lem false a w o ws h = cc

pub parse_waypoints-IsFlyable :
    (n : ℕ) (raw : List ℕ) (ws : List Waypoint)
    → parse_waypoints n raw ≡ some ws
    → All IsFlyable ws × (length ws ≡ n)
unfolding parse_waypoints
parse_waypoints-IsFlyable zero raw [] h = (tt, refl)
parse_waypoints-IsFlyable zero raw (w ∷ ws) h = cc
parse_waypoints-IsFlyable (suc n) raw ws h =
    let r = round_lem _ _ (parse_waypoint_wire raw) (parse_waypoints n (drop 29 raw)) ws h in
    let ih = parse_waypoints-IsFlyable n (drop 29 raw) r.2 r.3 in
    rw r.4 ((IsFlyable-of_tests (parse_waypoint_wire raw) r.0 r.1, ih.0), ap suc ih.1)

-- What the waypoints of an accepted payload are, by its operation.
pub record IsRouteAccepted (cmd : ProcessUplinkCmd) (p : RouteUpdatePayload) : Type 0 where
  pub flyable : All IsFlyable p.waypoints
  pub version : p.route_version ≡ 2
  pub kind : byte_at cmd.payload 0 ≡ p.route_type
  pub count_or_index : byte_at cmd.payload 2 ≡ p.waypoint_count
  pub operation :
      (p.route_type ≡ route_op_delete)
        × (p.waypoint_count < 37)
        × (cmd.payload_length ≡ 4)
        × (length p.waypoints ≡ 0)
      ⊎ (p.route_type ≡ route_op_modify)
        × (p.waypoint_count < 37)
        × (cmd.payload_length ≡ 33)
        × (length p.waypoints ≡ 1)
      ⊎ ((p.route_type ≡ route_op_replace) ⊎ (p.route_type ≡ route_op_add))
        × (0 < p.waypoint_count)
        × (p.waypoint_count ≤ 37)
        × (cmd.payload_length ≡ 4 + p.waypoint_count * 29)
        × (length p.waypoints ≡ p.waypoint_count)

with_waypoints_lem :
    (p : RouteUpdatePayload) (o : Option (List Waypoint)) (q : RouteUpdatePayload)
    → with_waypoints p o ≡ some q
    → (ws : List Waypoint) × (o ≡ some ws) × (q ≡ record p { waypoints = ws })
with_waypoints_lem p none q h = cc
with_waypoints_lem p (some ws) q h = (ws, refl, cc)

module _ (cmd : ProcessUplinkCmd) (q : RouteUpdatePayload)
    (h : parse_route_update_payload cmd ≡ some q) where
  delete_lem :
      (route_header cmd.payload).route_type ≡ route_op_delete
      → ((route_header cmd.payload).waypoint_count < 37)
        × (cmd.payload_length ≡ 4)
        × (q ≡ route_header cmd.payload)
  unfolding parse_route_update_payload
  delete_lem op = ground arith

  modify_lem :
      (route_header cmd.payload).route_type ≡ route_op_modify
      → ((route_header cmd.payload).waypoint_count < 37)
        × (cmd.payload_length ≡ 33)
        × (with_waypoints (route_header cmd.payload) (parse_waypoints 1 (drop 4 cmd.payload))
            ≡ some q)
  unfolding parse_route_update_payload
  modify_lem op = ground arith

  list_lem :
      ((route_header cmd.payload).route_type ≡ route_op_replace)
        ⊎ ((route_header cmd.payload).route_type ≡ route_op_add)
      → (0 < (route_header cmd.payload).waypoint_count)
        × ((route_header cmd.payload).waypoint_count ≤ 37)
        × (cmd.payload_length ≡ 4 + (route_header cmd.payload).waypoint_count * 29)
        × (with_waypoints
              (route_header cmd.payload)
              (parse_waypoints (route_header cmd.payload).waypoint_count (drop 4 cmd.payload))
            ≡ some q)
  unfolding parse_route_update_payload
  list_lem op = ground arith

  header_lem :
      ((route_header cmd.payload).route_version ≡ 2)
      × (((route_header cmd.payload).route_type ≡ route_op_delete)
          ⊎ ((route_header cmd.payload).route_type ≡ route_op_modify)
          ⊎ (((route_header cmd.payload).route_type ≡ route_op_replace)
              ⊎ ((route_header cmd.payload).route_type ≡ route_op_add)))
  unfolding parse_route_update_payload
  header_lem = ground arith

accepted_list :
    (cmd : ProcessUplinkCmd) (q : RouteUpdatePayload) (n : ℕ)
    → with_waypoints (route_header cmd.payload) (parse_waypoints n (drop 4 cmd.payload)) ≡ some q
    → All IsFlyable q.waypoints
      × (length q.waypoints ≡ n)
      × (q.route_version ≡ (route_header cmd.payload).route_version)
      × (q.route_type ≡ (route_header cmd.payload).route_type)
      × (q.waypoint_count ≡ (route_header cmd.payload).waypoint_count)
accepted_list cmd q n e =
    let r = with_waypoints_lem (route_header cmd.payload) _ q e in
    let f = parse_waypoints-IsFlyable n (drop 4 cmd.payload) r.0 r.1 in
    rw r.2 (f.0, f.1, refl, refl, refl)

-- An accepted route payload has version 2 and one of four operations, with a length that fits it:
-- a deletion has an index below 37 and no waypoint, a modification an index below 37 and one
-- waypoint, a replacement or an addition as many waypoints as it announces, from 1 to 37. Every
-- waypoint's numbers are finite, and its altitude lies from 2 to 8 metres.
pub parse_route_update_payload-IsRouteAccepted :
    (cmd : ProcessUplinkCmd) (q : RouteUpdatePayload)
    → parse_route_update_payload cmd ≡ some q
    → IsRouteAccepted cmd q
unfolding route_header
parse_route_update_payload-IsRouteAccepted cmd q h =
    let head = header_lem cmd q h in
    elim head.1 [
      | inl op ↦
          let d = delete_lem cmd q h op in
          rw d.2 (record {
            flyable = tt;
            version = head.0;
            kind = refl;
            count_or_index = refl;
            operation = inl (op, d.0, d.1, refl);
          })
      | inr (inl op) ↦
          let m = modify_lem cmd q h op in
          let f = accepted_list cmd q 1 m.2 in
          record {
            flyable = f.0;
            version = f.2 ∙ head.0;
            kind = sym f.3;
            count_or_index = sym f.4;
            operation = inr (inl (f.3 ∙ op, omega (arith, f.4, m.0), m.1, f.1));
          }
      | inr (inr op) ↦
          let l = list_lem cmd q h op in
          let f = accepted_list cmd q (route_header cmd.payload).waypoint_count l.3 in
          record {
            flyable = f.0;
            version = f.2 ∙ head.0;
            kind = sym f.3;
            count_or_index = sym f.4;
            operation = inr (
                inr (
                  ground (arith, f.3, op),
                  omega (arith, f.4, l.0),
                  omega (arith, f.4, l.1),
                  omega (arith, f.4, l.2),
                  f.1 ∙ sym f.4,
                ));
          }
    ]

-- A payload of a validated command has at most 196 bytes, so a replacement or an addition that is
-- accepted has at most 6 waypoints, although the message and the parser have room for 37.
pub accepted_route_count :
    (cmd : ProcessUplinkCmd) (q : RouteUpdatePayload)
    → parse_route_update_payload cmd ≡ some q
    → validate_proxy_command cmd ≡ accept
    → length q.waypoints ≤ 6
accepted_route_count cmd q h v =
    let r = parse_route_update_payload-IsRouteAccepted cmd q h in
    let length_cap = ((validate_proxy_command_iff cmd).0 v).1 in
    elim r.operation [ inl d ↦ omega arith | inr (inl m) ↦ omega arith | inr (inr l) ↦ omega arith ]
