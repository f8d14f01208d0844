-- ===== src/Handler/Coords.antt =====
-- What a `coords` frame stores (server/src/ws-handler.ts).
use lo_lprox_chat.Common.{
  ℕ, ◌-◌, ◌≡◌, ◌≢◌, refl, sym, ap, ◌∙◌, Bool, Option, none, some, arith, nat_eq, nat_beq_iff,
  if◌then◌else◌, Bool-cases, Option-cases, inl, inr, ◌⊎◌, [], min,
}
use lo_lprox_chat.Common.Dict.{lookup}
use lo_lprox_chat.Common.Int.{pos_part}
use lo_lprox_chat.Json.{is_true}
use lo_lprox_chat.Client.{Client, Point, Stamped}
use lo_lprox_chat.Messages.{ClientMessage, coords_needs_xy}
use lo_lprox_chat.Rooms.{
  Rooms, get_client_info, bind, change, set_position, set_camera, clear_camera, clear_position,
  with_position, with_camera, without_camera, without_position, seen_stamp,
}
use lo_lprox_chat.Rooms.Invariant.{Inv, set_position-Inv}
use lo_lprox_chat.Rooms.Info.{get_client_info-change}
use lo_lprox_chat.Handshake.{send_error}
use lo_lprox_chat.Client.{read_point}
use lo_lprox_chat.Handler.{
  read_ago, read_seen, store_camera, store_coords, coords_as, handle_coords,
}

abbrev pub stamp : ℕ → Point → Stamped
stamp now p = record { point = p; updated_ms = now }

-- The entry of a client after it has reported the point `p`: a true position clears the last place
-- and brings the camera, if the message has one; a stale one clears both and leaves the last place,
-- if the client stands by it, no more than 20 s back.
abbrev pub reported : ℕ → ClientMessage → Point → Client → Client
reported now m p me =
    if is_true m.stale
    then record me {
      position = none;
      camera = none;
      last_seen =
          if is_true m.seen
          then some (record {
            point = p;
            updated_ms = now - min (pos_part (read_ago m.seen_ago_ms)) 20000;
          })
          else none;
    }
    else record me {
      position = some (stamp now p);
      camera = bind (read_point m.cx m.cy) (λ q. some (stamp now q));
      last_seen = none;
    }

-- A change of one socket's entry leaves every other entry as it is.
get_client_info-change_other :
    (s : Rooms) (ws other : ℕ) (f : Client → Client)
    → Inv s
    → other ≢ ws
    → get_client_info (change s ws f) other ≡ get_client_info s other
unfolding get_client_info change
get_client_info-change_other s ws other f v n = elim (Option-cases (lookup ws s.clients)) [
  | inl e ↦ rw (e, change)
  | inr (i, e) ↦ elim (Option-cases (lookup other s.clients)) [
    | inl o ↦ rw (e, change) (rw (o))
    | inr (j, o) ↦
        let apart : j ≢ i = λ q. n (
          sym (v.entries_hold other j o).socket
          ∙ ap (λ k. (s.heap k).ws) q
          ∙ (v.entries_hold ws i e).socket) in
        rw (e, change) (rw o (ground (arith, apart, nat_beq_iff j i)))
  ]
]

stored : Rooms → ℕ → ℕ → ClientMessage → Point → Rooms
stored s ws now m p =
    if is_true m.stale
    then clear_position s ws (read_seen m p) now
    else store_camera (set_position s ws p now) ws now (read_point m.cx m.cy)

abbrev set_view : ℕ → Option Point → Client → Client
set_view now q c = record c { camera = bind q (λ p. some (stamp now p)) }

store_camera_self :
    (s : Rooms) (ws now : ℕ) (q : Option Point)
    → get_client_info (store_camera s ws now q) ws
      ≡ bind (get_client_info s ws) (λ c. some (set_view now q c))
unfolding store_camera set_camera clear_camera
store_camera_self s ws now none = get_client_info-change s ws without_camera
store_camera_self s ws now (some p) = get_client_info-change s ws (with_camera p now)

store_camera-other :
    (s : Rooms) (ws other now : ℕ) (q : Option Point)
    → Inv s
    → other ≢ ws
    → get_client_info (store_camera s ws now q) other ≡ get_client_info s other
unfolding store_camera set_camera clear_camera
store_camera-other s ws other now none v n =
    get_client_info-change_other s ws other without_camera v n
store_camera-other s ws other now (some p) v n =
    get_client_info-change_other s ws other (with_camera p now) v n

stored_self :
    (s : Rooms) (ws now : ℕ) (m : ClientMessage) (p : Point) (me : Client)
    → get_client_info s ws ≡ some me
    → get_client_info (stored s ws now m p) ws ≡ some (reported now m p me)
unfolding stored clear_position set_position seen_stamp
stored_self s ws now m p me e = elim (Bool-cases (is_true m.stale)) [
  | inl stale ↦ rw stale (
      get_client_info-change s ws (without_position (read_seen m p) now)
      ∙ ap (λ o. bind o (λ c. some (without_position (read_seen m p) now c))) e
      ∙ ground arith)
  | inr fresh ↦ rw fresh (
      store_camera_self (change s ws (with_position p now)) ws now (read_point m.cx m.cy)
      ∙ ap (λ (o : Option Client). bind o (λ c. some (set_view now (read_point m.cx m.cy) c)))
          (get_client_info-change s ws (with_position p now)
            ∙ ap (λ o. bind o (λ c. some (with_position p now c))) e))
]

position_other :
    (s : Rooms) (ws other now : ℕ) (p : Point)
    → Inv s
    → other ≢ ws
    → get_client_info (set_position s ws p now) other ≡ get_client_info s other
unfolding set_position
position_other s ws other now p v n =
    get_client_info-change_other s ws other (with_position p now) v n

stored_other :
    (s : Rooms) (ws other now : ℕ) (m : ClientMessage) (p : Point)
    → Inv s
    → other ≢ ws
    → get_client_info (stored s ws now m p) other ≡ get_client_info s other
unfolding stored clear_position
stored_other s ws other now m p v n = elim (Bool-cases (is_true m.stale)) [
  | inl stale ↦
      rw stale (get_client_info-change_other s ws other (without_position (read_seen m p) now) v n)
  | inr fresh ↦ rw fresh (
      store_camera-other (set_position s ws p now) ws other now (read_point m.cx m.cy)
        (set_position-Inv s ws p now v) n
      ∙ position_other s ws other now p v n)
]

stored_outcome :
    (is_open : ℕ → Bool) (s : Rooms) (ws now : ℕ) (m : ClientMessage) (p : Point)
    → store_coords is_open s ws now m (some p) ≡ (stored s ws now m p, [])
unfolding store_coords stored
stored_outcome is_open s ws now m p = elim (Bool-cases (is_true m.stale)) [
  | inl stale ↦ rw stale
  | inr fresh ↦ rw fresh
]

-- A `coords` frame of a client in a room is refused, with nothing changed, if its two coordinates
-- are not finite numbers. Otherwise nothing is sent, the client's entry is what it has reported,
-- and that of every other socket stays as it is.
pub handle_coords_lem :
    (is_open : ℕ → Bool) (s : Rooms) (ws now : ℕ) (m : ClientMessage) (me : Client)
    → Inv s
    → get_client_info s ws ≡ some me
    → let out = handle_coords is_open s ws now m in
      ((read_point m.x m.y ≡ none) × (out ≡ (s, send_error is_open ws coords_needs_xy)))
      ⊎ ((p : Point) × (read_point m.x m.y ≡ some p)
          × (out.1 ≡ [])
          × (get_client_info out.0 ws ≡ some (reported now m p me))
          × ((other : ℕ) → other ≢ ws → get_client_info out.0 other ≡ get_client_info s other))
unfolding handle_coords coords_as store_coords
handle_coords_lem is_open s ws now m me v e = elim (Option-cases (read_point m.x m.y)) [
  | inl none_read ↦ inl (none_read, rw (e, coords_as) (rw (none_read, store_coords)))
  | inr (p, q) ↦
      let result : handle_coords is_open s ws now m ≡ (stored s ws now m p, []) =
        rw (e, coords_as) (rw (q, store_coords) (stored_outcome is_open s ws now m p)) in
      inr (
        rw result (
          p,
          q,
          refl,
          stored_self s ws now m p me e,
          λ other n. stored_other s ws other now m p v n,
        ))
]
