-- ===== src/Mavlink/Upload/Edits.antt =====
-- The four operations on a route, as edits of a list.
use cfs_telemetry_app.Common.{
  ℕ, suc, ◌+◌, ◌-◌, ◌≤◌, ◌<◌, ◌≡◌, sym, ◌∙◌, inl, inr, Bool, true, false, not, List, ◌∷◌, ◌++◌,
  Option, none, some, length, length-append, length-take, get_or-take, get_or-append,
  get_or-append_right, take, drop, arith, ◌==◌, ltb, if◌then◌else◌, if_cases, Bool-cases,
}
use Prim.Native.Nat.{min}
use mathlib.Core.Path.{subst}
use cfs_telemetry_app.Uplink.Messages.{Waypoint, route_max_waypoints}
use cfs_telemetry_app.CfsCore.State.{RouteTlm}
use cfs_telemetry_app.CfsCore.Main.{empty_waypoint}
use cfs_telemetry_app.Mavlink.State.{ActiveRoute}
use cfs_telemetry_app.Mavlink.Send.{waypoint_at}
use cfs_telemetry_app.Mavlink.Upload.{
  op_add, op_delete, op_modify, copy_loop, Edit, add_route, delete_waypoint, modify_waypoint,
  replace_route, edit_route,
}
use cfs_telemetry_app.Mavlink.Upload.Loop.{
  length-copy_loop, copy_loop-before, copy_loop-inside, list_ext, waypoint_at-drop, length-drop,
}

-- The waypoints of a route.
abbrev pub route_of : ActiveRoute → List Waypoint
route_of a = take a.count a.waypoints

-- What the operations mean.
abbrev pub edited : RouteTlm → List Waypoint → List Waypoint
edited msg r =
    let index = msg.waypoint_count in
    if msg.route_type == op_add
    then take route_max_waypoints (r ++ take msg.waypoint_count msg.waypoints)
    else if msg.route_type == op_delete
    then take index r ++ drop (index + 1) r
    else if msg.route_type == op_modify
    then take index r ++ (waypoint_at msg.waypoints 0 ∷ drop (index + 1) r)
    else take msg.waypoint_count msg.waypoints

-- An array of the size of the program.
abbrev pub IsArray : List Waypoint → Type 0
IsArray xs = length xs ≡ 37

abbrev pub IsRoute : ActiveRoute → Type 0
IsRoute a = IsArray a.waypoints × (a.count ≤ 37)

-- The pending route is the list `ys`, within its array.
abbrev pub Holds : List Waypoint → Edit → Type 0
Holds ys e = (take e.count e.pending ≡ ys) × IsArray e.pending × (e.count ≤ 37)

pub read-take :
    (n : ℕ) (xs : List Waypoint) (j : ℕ) → j < n → waypoint_at (take n xs) j ≡ waypoint_at xs j
read-take n xs j h = get_or-take n xs j empty_waypoint h

abbrev HoldsIf : List Waypoint → Option Edit → Type 0
HoldsIf ys none = Unit
HoldsIf ys (some e) = Holds ys e

-- Two conditionals on the same test.
both_cases :
    (Q : List Waypoint → Option Edit → Type 0) (b : Bool) (xs ys : List Waypoint)
    (e f : Option Edit)
    → Q xs e
    → Q ys f
    → Q (if b then xs else ys) (if b then e else f)
both_cases Q true xs ys e f yes_case no_case = yes_case
both_cases Q false xs ys e f yes_case no_case = no_case

-- What a loop from the start leaves.
pub loop_holds :
    (n : ℕ) (source : ℕ → Waypoint) (pending ys : List Waypoint)
    → n ≤ length pending
    → length ys ≡ n
    → ((j : ℕ) → j < n → source j ≡ waypoint_at ys j)
    → take n (copy_loop n 0 source pending) ≡ ys
loop_holds n source pending ys b l h =
    let l' : length (take n (copy_loop n 0 source pending)) ≡ n =
      omega (
        arith,
        length-take n (copy_loop n 0 source pending),
        length-copy_loop source n 0 pending,
      ) in
    list_ext _ ys (omega arith) (λ j k.
      read-take n (copy_loop n 0 source pending) j (omega arith)
      ∙ copy_loop-inside source n 0 j pending (omega arith) (omega arith) (omega arith)
      ∙ h j (omega arith))

-- What a loop over `kept` entries and a second one from there leave.
loops_hold :
    (n kept : ℕ) (first second : ℕ → Waypoint) (pending ys : List Waypoint)
    → kept ≤ n
    → n ≤ length pending
    → length ys ≡ n
    → ((j : ℕ) → j < kept → first j ≡ waypoint_at ys j)
    → ((j : ℕ) → kept ≤ j → j < n → second j ≡ waypoint_at ys j)
    → take n (copy_loop (n - kept) kept second (copy_loop kept 0 first pending)) ≡ ys
loops_hold n kept first second pending ys k b l f g =
    let half = copy_loop kept 0 first pending in
    let whole = copy_loop (n - kept) kept second half in
    let half_length : length half ≡ length pending = length-copy_loop first kept 0 pending in
    let whole_length : length (take n whole) ≡ n =
      omega
        (arith, length-take n whole, length-copy_loop second (n - kept) kept half, half_length) in
    list_ext (take n whole) ys (omega arith) (λ j h.
      read-take n whole j (omega arith) ∙ elim (Bool-cases (ltb j kept)) [
        | inl e ↦
            let c : j < kept = ground arith in
            copy_loop-before second (n - kept) kept j half c
            ∙ copy_loop-inside first kept 0 j pending (omega arith) (omega arith) (omega arith)
            ∙ f j c
        | inr e ↦
            let c : kept ≤ j = ground arith in
            copy_loop-inside second (n - kept) kept j half c (omega arith) (omega arith)
            ∙ g j c (omega arith)
      ])

kept_part : (n count : ℕ) → (if ltb n count then n else count) ≡ min n count
kept_part n count = ground arith

clamped : (n : ℕ) → (if ltb route_max_waypoints n then route_max_waypoints else n) ≡ min 37 n
clamped n = ground arith

module _ (msg : RouteTlm) (a : ActiveRoute) (pending : List Waypoint) (route : IsRoute a)
    (array : IsArray pending) (message : IsArray msg.waypoints) where
  replace_route-Holds : Holds (take msg.waypoint_count msg.waypoints) (replace_route msg a pending)
  unfolding replace_route
  replace_route-Holds =
      let n = msg.waypoint_count in
      let count = (if ltb route_max_waypoints n then route_max_waypoints else n) in
      let e = clamped n in
      let m = msg.waypoints in
      (
        loop_holds count (waypoint_at m) pending (take n m) (omega (arith, e, array))
            (omega (arith, length-take n m, e, message))
            (λ j h. sym (read-take n m j (omega (arith, e, h)))),
        length-copy_loop (waypoint_at m) count 0 pending ∙ array,
        omega (arith, e),
      )

  length-route_of : length (route_of a) ≡ a.count
  length-route_of = omega (arith, length-take a.count a.waypoints, route)

  removed-length :
      msg.waypoint_count < a.count
      → length (take msg.waypoint_count (route_of a) ++ drop (msg.waypoint_count + 1) (route_of a))
        ≡ a.count - 1
  removed-length i =
      let index = msg.waypoint_count in
      let r = route_of a in
      omega (
        arith,
        length-append (take index r) (drop (index + 1) r),
        length-take index r,
        length-drop (index + 1) r,
        length-route_of,
      )

  removed-read :
      (j : ℕ)
      → msg.waypoint_count < a.count
      → j < a.count - 1
      → waypoint_at a.waypoints (if ltb j msg.waypoint_count then j else j + 1)
        ≡ waypoint_at
            (take msg.waypoint_count (route_of a) ++ drop (msg.waypoint_count + 1) (route_of a))
            j
  removed-read j i h =
      let index = msg.waypoint_count in
      let r = route_of a in
      let l : length (take index r) ≡ index = omega (arith, length-take index r, length-route_of) in
      if_cases (λ k. waypoint_at a.waypoints k ≡ waypoint_at (take index r ++ drop (index + 1) r) j)
        (ltb j index) j (j + 1)
        (λ e.
          let b : j < index = ground arith in
          sym (
            get_or-append (take index r) (drop (index + 1) r) j empty_waypoint (omega arith)
            ∙ read-take index r j b
            ∙ read-take a.count a.waypoints j (omega arith)))
        (λ e.
          let b : index ≤ j = ground arith in
          sym (
            get_or-append_right (take index r) (drop (index + 1) r) j (j - index) empty_waypoint
              (omega arith)
            ∙ waypoint_at-drop (index + 1) r (j + 1) (j - index) (omega arith)
            ∙ read-take a.count a.waypoints (j + 1) (omega arith)))

  delete_waypoint-Holds :
      HoldsIf
        (take msg.waypoint_count (route_of a) ++ drop (msg.waypoint_count + 1) (route_of a))
        (delete_waypoint msg a pending)
  unfolding delete_waypoint
  delete_waypoint-Holds =
      let index = msg.waypoint_count in
      let ys = take index (route_of a) ++ drop (index + 1) (route_of a) in
      let source : ℕ → Waypoint = λ i. waypoint_at a.waypoints (if ltb i index then i else i + 1) in
      if_cases (HoldsIf ys) (not (ltb index a.count)) _ _ (λ _. tt)
        (λ e.
          let b : index < a.count = ground arith in
          if_cases (HoldsIf ys) (index == a.resume_index) _ _ (λ _. tt)
            (λ _. (
              loop_holds (a.count - 1) source pending ys (omega (arith, array, route))
                  (removed-length b) (λ j h. removed-read j b h),
              length-copy_loop source (a.count - 1) 0 pending ∙ array,
              omega (arith, route),
            )))

  -- The entry that MODIFY sets, and the others.
  changed-read :
      (j : ℕ)
      → msg.waypoint_count < a.count
      → j < a.count
      → (if j == msg.waypoint_count then waypoint_at msg.waypoints 0 else waypoint_at a.waypoints j)
        ≡ waypoint_at
            (take msg.waypoint_count (route_of a)
              ++ (waypoint_at msg.waypoints 0 ∷ drop (msg.waypoint_count + 1) (route_of a)))
            j
  changed-read j i h =
      let index = msg.waypoint_count in
      let r = route_of a in
      let w = waypoint_at msg.waypoints 0 in
      let rest = w ∷ drop (index + 1) r in
      let l : length (take index r) ≡ index = omega (arith, length-take index r, length-route_of) in
      if_cases (λ x. x ≡ waypoint_at (take index r ++ rest) j) (j == index) w
        (waypoint_at a.waypoints j)
        (λ e.
          let b : j ≡ index = ground arith in
          sym (get_or-append_right (take index r) rest j 0 empty_waypoint (omega arith)))
        (λ e. elim (Bool-cases (ltb j index)) [
          | inl f ↦
              let b : j < index = ground arith in
              sym (
                get_or-append (take index r) rest j empty_waypoint (omega arith)
                ∙ read-take index r j b
                ∙ read-take a.count a.waypoints j (omega arith))
          | inr f ↦
              let b : index < j = ground arith in
              sym (
                get_or-append_right (take index r) rest j (suc (j - index - 1)) empty_waypoint
                  (omega arith)
                ∙ waypoint_at-drop (index + 1) r j (j - index - 1) (omega arith)
                ∙ read-take a.count a.waypoints j (omega arith))
        ])

  modify_waypoint-Holds :
      HoldsIf
        (take msg.waypoint_count (route_of a)
          ++ (waypoint_at msg.waypoints 0 ∷ drop (msg.waypoint_count + 1) (route_of a)))
        (modify_waypoint msg a pending)
  unfolding modify_waypoint
  modify_waypoint-Holds =
      let index = msg.waypoint_count in
      let r = route_of a in
      let rest = waypoint_at msg.waypoints 0 ∷ drop (index + 1) r in
      let ys = take index r ++ rest in
      let source : ℕ → Waypoint =
        λ i. if i == index then waypoint_at msg.waypoints 0 else waypoint_at a.waypoints i in
      if_cases (HoldsIf ys) (not (ltb index a.count)) _ _ (λ _. tt)
        (λ e.
          let b : index < a.count = ground arith in
          (
            loop_holds a.count source pending ys (omega (arith, array, route))
                (omega (
                  arith,
                  length-append (take index r) rest,
                  length-take index r,
                  length-drop (index + 1) r,
                  length-route_of,
                ))
                (λ j h. changed-read j b h),
            length-copy_loop source a.count 0 pending ∙ array,
            omega (arith, route),
          ))

  add_route-Holds :
      Holds
        (take 37 (route_of a ++ take msg.waypoint_count msg.waypoints))
        (add_route msg a pending)
  unfolding add_route
  add_route-Holds =
      let r = route_of a in
      let new = take msg.waypoint_count msg.waypoints in
      let wide = a.count + msg.waypoint_count in
      let count = (if ltb route_max_waypoints wide then route_max_waypoints else wide) in
      let kept = (if ltb count a.count then count else a.count) in
      let c : count ≡ min 37 wide = clamped wide in
      let k : kept ≡ a.count = omega (arith, kept_part count a.count, c, route) in
      let first = waypoint_at a.waypoints in
      let second : ℕ → Waypoint = λ i. waypoint_at msg.waypoints (i - a.count) in
      let l : length r ≡ a.count = length-route_of in
      let m : length new ≡ min msg.waypoint_count 37 =
        omega (arith, length-take msg.waypoint_count msg.waypoints, message) in
      (
        loops_hold count kept first second pending (take 37 (r ++ new)) (omega (arith, c, k, route))
            (omega (arith, c, array))
            (omega (arith, length-take 37 (r ++ new), length-append r new))
            (λ j h. sym (
              read-take 37 (r ++ new) j (omega (arith, route))
              ∙ get_or-append r new j empty_waypoint (omega arith)
              ∙ read-take a.count a.waypoints j (omega arith)))
            (λ j b h. sym (
              read-take 37 (r ++ new) j (omega arith)
              ∙ get_or-append_right r new j (j - a.count) empty_waypoint (omega arith)
              ∙ read-take msg.waypoint_count msg.waypoints (j - a.count) (omega (arith, c)))),
        length-copy_loop second (count - kept) kept (copy_loop kept 0 first pending)
            ∙ length-copy_loop first kept 0 pending
            ∙ array,
        omega (arith, c),
      )

  edit_route-HoldsIf : HoldsIf (edited msg (route_of a)) (edit_route msg a pending)
  unfolding edit_route
  edit_route-HoldsIf = both_cases HoldsIf (msg.route_type == op_add) _ _ _ _ add_route-Holds (
      both_cases HoldsIf (msg.route_type == op_delete) _ _ _ _ delete_waypoint-Holds (
        both_cases HoldsIf (msg.route_type == op_modify) _ _ _ _ modify_waypoint-Holds
          replace_route-Holds))

  pub edit_route-edited :
      (e : Edit) → edit_route msg a pending ≡ some e → Holds (edited msg (route_of a)) e
  edit_route-edited e s = subst (HoldsIf (edited msg (route_of a))) s edit_route-HoldsIf
