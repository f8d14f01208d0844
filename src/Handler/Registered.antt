-- ===== src/Handler/Registered.antt =====
-- A frame of a socket (server/src/ws-handler.ts) registers no other socket in the rooms.
use lo_lprox_chat.Common.{
  ℕ, String, ◌≡◌, ◌≢◌, refl, sym, ap, ◌∙◌, Bool, true, false, not, ◌&&◌, Option, none, some, List,
  [], ◌∷◌, arith, ◌==◌, nat_eq, string_eq, nat_beq_iff, if_holds, Option-cases, inl, inr,
  if◌then◌else◌,
}
use lo_lprox_chat.Common.Dict.{Dict, lookup, erase, lookup-insert, lookup-erase}
use lo_lprox_chat.Json.{Json, str, is_true}
use lo_lprox_chat.Client.{Client, Point, read_point, Team}
use lo_lprox_chat.Validate.{JoinValidation, valid, invalid, validate_join}
use lo_lprox_chat.Rooms.{
  Rooms, members, named, find, change, join, evict_entry, leave, leave_client, leave_room,
  shrink_room, get_client_info, set_team, set_position, set_camera, clear_camera, clear_position,
  set_shared_reset, try_stamp_room_reset, stamp_sender_reset, too_soon, sender_reset_allowed,
  with_shared_reset, with_team, without_camera, with_camera, without_position, with_position,
}
use lo_lprox_chat.Messages.{ClientMessage, Frame, bad_json, not_object, object}
use lo_lprox_chat.Handshake.{
  Outcome, handle_join, join_valid, join_as, enter, move, rejoin, refresh_team, read_team,
}
use lo_lprox_chat.Handler.{
  handle_frame, handle_kind, switch_on, handle_signal, handle_position, handle_shared_reset,
  shared_reset_as, handle_reset_all, reset_all_as, relay_reset, handle_coords, coords_as,
  store_coords, store_camera, read_seen, opted_in, shared_reset_sender_ms, shared_reset_room_ms,
}
use lo_lprox_chat.Handler.Preserved.{switch_on_cases}

-- Any other socket that is registered after was so before.
abbrev pub RegistersOnly : ℕ → Dict ℕ ℕ → Dict ℕ ℕ → Type 0
RegistersOnly ws before after = (w : ℕ) → w ≢ ws → lookup w after ≢ none → lookup w before ≢ none

RegistersOnly-refl : (ws : ℕ) (d e : Dict ℕ ℕ) → e ≡ d → RegistersOnly ws d e
RegistersOnly-refl ws d e q w n h = rw (sym q) h

RegistersOnly-trans :
    (ws : ℕ) (d e f : Dict ℕ ℕ) → RegistersOnly ws d e → RegistersOnly ws e f → RegistersOnly ws d f
RegistersOnly-trans ws d e f h k w n l = h w n (k w n l)

change-clients : (s : Rooms) (ws : ℕ) (f : Client → Client) → (change s ws f).clients ≡ s.clients
unfolding change
change-clients s ws f = elim (Option-cases (lookup ws s.clients)) [
  | inl e ↦ rw (e, change) refl
  | inr (i, e) ↦ rw (e, change) refl
]

evict_entry-RegistersOnly :
    (s : Rooms) (ws : ℕ) (o : Option ℕ) → RegistersOnly ws s.clients (evict_entry s o)
unfolding evict_entry
evict_entry-RegistersOnly s ws none w n h = h
evict_entry-RegistersOnly s ws (some d) w n h =
    λ e. h (ground (arith, lookup-erase (s.heap d).ws w s.clients, e))

join-RegistersOnly :
    (s : Rooms) (room name : String) (ws : ℕ) (team : Option Team)
    → RegistersOnly ws s.clients (join s room name ws team).0.clients
unfolding join
join-RegistersOnly s room name ws team w n h =
    let evicted = evict_entry s (find (named s name) (members s room)) in
    evict_entry-RegistersOnly s ws (find (named s name) (members s room)) w n
      (λ e. h (ground (arith, n, lookup-insert ws w s.next evicted, nat_beq_iff ws w, e)))

shrink_room-clients :
    (s : Rooms) (room : String) (left : List ℕ) → (shrink_room s room left).clients ≡ s.clients
unfolding shrink_room
shrink_room-clients s room [] = refl
shrink_room-clients s room (i ∷ left) = refl

leave_room-clients :
    (s : Rooms) (i : ℕ) (o : Option (List ℕ)) → (leave_room s i o).0.clients ≡ s.clients
unfolding leave_room
leave_room-clients s i none = refl
leave_room-clients s i (some refs) = shrink_room-clients s (s.heap i).room_id _

-- A leave takes the socket out of the map, and no other.
pub leave-clients :
    (s : Rooms) (ws w : ℕ)
    → lookup w (leave s ws).0.clients ≡ (if ws == w then none else lookup w s.clients)
unfolding leave leave_client
leave-clients s ws w = elim (Option-cases (lookup ws s.clients)) [
  | inl e ↦ rw e (ground (arith, e, nat_beq_iff ws w))
  | inr (i, e) ↦ rw e (
      ap (lookup w) (leave_room-clients (record s { clients = erase ws s.clients }) i _)
      ∙ lookup-erase ws w s.clients)
]

leave-RegistersOnly : (s : Rooms) (ws : ℕ) → RegistersOnly ws s.clients (leave s ws).0.clients
leave-RegistersOnly s ws w n h e = h (ground (arith, leave-clients s ws w, e))

set_shared_reset-clients :
    (s : Rooms) (ws : ℕ) (on : Bool) → (set_shared_reset s ws on).clients ≡ s.clients
unfolding set_shared_reset
set_shared_reset-clients s ws on = change-clients s ws (with_shared_reset on)

module _ (is_open : ℕ → Bool) (ws : ℕ) where
  -- What an outcome of the socket `ws` may register.
  abbrev Fine : Rooms → Outcome → Type 0
  Fine s out = RegistersOnly ws s.clients out.0.clients

  enter-Fine :
      (s : Rooms) (m : ClientMessage) (room name : String) → Fine s (enter is_open s ws m room name)
  unfolding enter
  enter-Fine s m room name =
      let joined = join s room name ws (read_team m.team) in
      RegistersOnly-trans ws s.clients joined.0.clients _
        (join-RegistersOnly s room name ws (read_team m.team))
        (RegistersOnly-refl ws joined.0.clients _
          (set_shared_reset-clients joined.0 ws (is_true m.shared_reset)))

  refresh_team-clients : (s : Rooms) (o : Option Team) → (refresh_team s ws o).clients ≡ s.clients
  unfolding refresh_team set_team
  refresh_team-clients s none = refl
  refresh_team-clients s (some team) = change-clients s ws (with_team team)

  rejoin-Fine : (s : Rooms) (m : ClientMessage) → Fine s (rejoin is_open s ws m)
  unfolding rejoin
  rejoin-Fine s m = RegistersOnly-refl ws s.clients _ (
      set_shared_reset-clients (refresh_team s ws (read_team m.team)) ws (is_true m.shared_reset)
      ∙ refresh_team-clients s (read_team m.team))

  move-Fine :
      (s : Rooms) (m : ClientMessage) (room name : String) → Fine s (move is_open s ws m room name)
  unfolding move
  move-Fine s m room name =
      RegistersOnly-trans ws s.clients (leave s ws).0.clients _ (leave-RegistersOnly s ws)
        (enter-Fine (leave s ws).0 m room name)

  join_as-Fine :
      (s : Rooms) (m : ClientMessage) (room name : String) (o : Option Client)
      → Fine s (join_as is_open s ws m room name o)
  unfolding join_as
  join_as-Fine s m room name none = enter-Fine s m room name
  join_as-Fine s m room name (some c) =
      if_holds (Fine s) (c.room_id == room && c.name == name) _ _ (λ _. rejoin-Fine s m)
        (λ _. move-Fine s m room name)

  join_valid-Fine :
      (s : Rooms) (m : ClientMessage) (v : JoinValidation) → Fine s (join_valid is_open s ws m v)
  unfolding join_valid
  join_valid-Fine s m (invalid e) = λ w n h. h
  join_valid-Fine s m (valid room name) = join_as-Fine s m room name (get_client_info s ws)

  handle_join-Fine : (s : Rooms) (m : ClientMessage) → Fine s (handle_join is_open s ws m)
  unfolding handle_join
  handle_join-Fine s m = join_valid-Fine s m (validate_join m.room m.name)

  shared_reset-Fine :
      (s : Rooms) (m : ClientMessage) (o : Option Client)
      → Fine s (shared_reset_as is_open s ws m o)
  unfolding shared_reset_as
  shared_reset-Fine s m none = λ w n h. h
  shared_reset-Fine s m (some c) =
      RegistersOnly-refl ws s.clients _ (set_shared_reset-clients s ws (is_true m.on))

  relay-Fine :
      (s : Rooms) (now : ℕ) (info : Client) (p : Rooms × Bool)
      → p.0.clients ≡ s.clients
      → Fine s (relay_reset is_open ws now info p)
  unfolding relay_reset stamp_sender_reset
  relay-Fine s now info (t, false) e = RegistersOnly-refl ws s.clients _ e
  relay-Fine s now info (t, true) e = RegistersOnly-refl ws s.clients _ e

  try_stamp-clients :
      (s : Rooms) (room : String) (now cooldown_ms : ℕ)
      → (try_stamp_room_reset s room now cooldown_ms).0.clients ≡ s.clients
  unfolding try_stamp_room_reset
  try_stamp-clients s room now cooldown_ms =
      if_holds (λ (p : Rooms × Bool). p.0.clients ≡ s.clients)
        (too_soon now cooldown_ms (lookup room s.room_reset_ms)) _ _ (λ _. refl) (λ _. refl)

  reset_all-Fine :
      (s : Rooms) (now : ℕ) (o : Option Client) → Fine s (reset_all_as is_open s ws now o)
  unfolding reset_all_as
  reset_all-Fine s now none = λ w n h. h
  reset_all-Fine s now (some info) =
      if_holds (Fine s) (not (opted_in info)) _ _ (λ _ w n h. h)
        (λ _.
          if_holds (Fine s)
            (not (sender_reset_allowed s info.room_id info.name now shared_reset_sender_ms)) _ _
            (λ _ w n h. h)
            (λ _.
              relay-Fine s now info (try_stamp_room_reset s info.room_id now shared_reset_room_ms)
                (try_stamp-clients s info.room_id now shared_reset_room_ms)))

  store_camera-clients :
      (s : Rooms) (now : ℕ) (o : Option Point) → (store_camera s ws now o).clients ≡ s.clients
  unfolding store_camera clear_camera set_camera
  store_camera-clients s now none = change-clients s ws without_camera
  store_camera-clients s now (some p) = change-clients s ws (with_camera p now)

  store_coords-Fine :
      (s : Rooms) (now : ℕ) (m : ClientMessage) (o : Option Point)
      → Fine s (store_coords is_open s ws now m o)
  unfolding store_coords clear_position set_position
  store_coords-Fine s now m none = λ w n h. h
  store_coords-Fine s now m (some p) =
      if_holds (Fine s) (is_true m.stale) _ _
        (λ _.
          RegistersOnly-refl ws s.clients _
            (change-clients s ws (without_position (read_seen m p) now)))
        (λ _. RegistersOnly-refl ws s.clients _ (
          store_camera-clients (set_position s ws p now) now (read_point m.cx m.cy)
          ∙ change-clients s ws (with_position p now)))

  coords-Fine :
      (s : Rooms) (now : ℕ) (m : ClientMessage) (o : Option Client)
      → Fine s (coords_as is_open s ws now m o)
  unfolding coords_as
  coords-Fine s now m none = λ w n h. h
  coords-Fine s now m (some c) = store_coords-Fine s now m (read_point m.x m.y)

  switch_on-Fine :
      (s : Rooms) (now : ℕ) (m : ClientMessage) (kind : String)
      → Fine s (switch_on is_open s ws now m kind)
  unfolding handle_signal handle_position handle_shared_reset handle_reset_all handle_coords
  switch_on-Fine s now m kind =
      switch_on_cases (Fine s) is_open s ws now m kind (handle_join-Fine s m) (λ w n h. h)
        (λ w n h. h) (shared_reset-Fine s m (get_client_info s ws))
        (reset_all-Fine s now (get_client_info s ws)) (coords-Fine s now m (get_client_info s ws))
        (λ w n h. h)

  handle_kind-Fine :
      (s : Rooms) (now : ℕ) (m : ClientMessage) (kind : Json)
      → Fine s (handle_kind is_open s ws now m kind)
  unfolding handle_kind
  handle_kind-Fine s now m (str kind) = switch_on-Fine s now m kind
  handle_kind-Fine s now m _ = λ w n h. h

  pub handle_frame-RegistersOnly :
      (s : Rooms) (now : ℕ) (frame : Frame)
      → RegistersOnly ws s.clients (handle_frame is_open s ws now frame).0.clients
  unfolding handle_frame
  handle_frame-RegistersOnly s now bad_json = λ w n h. h
  handle_frame-RegistersOnly s now not_object = λ w n h. h
  handle_frame-RegistersOnly s now (object m) = handle_kind-Fine s now m m.kind
