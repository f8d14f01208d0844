-- ===== src/Handler/Delivery.antt =====
-- Who is sent what by a `join`, and by any frame (server/src/ws-handler.ts).
use lo_lprox_chat.Common.{
  ℕ, String, ◌≡◌, refl, Bool, ◌&&◌, Option, none, some, ◌==◌, nat_eq, string_eq, if_holds,
  Option-cases, inl, inr, All, All-append,
}
use lo_lprox_chat.Common.Dict.{lookup}
use lo_lprox_chat.Json.{Json, str}
use lo_lprox_chat.Client.{Client}
use lo_lprox_chat.Validate.{JoinValidation, valid, invalid, validate_join}
use lo_lprox_chat.Messages.{
  ClientMessage, Frame, bad_json, not_object, object, peer_joined, peer_left, room_state,
}
use lo_lprox_chat.Rooms.{
  Rooms, members, join, leave, leave_client, joined, get_client_info, get_others_in_room,
}
use lo_lprox_chat.Rooms.Invariant.{Inv}
use lo_lprox_chat.Rooms.Leave.{leave_found}
use lo_lprox_chat.Handshake.{
  Outcome, enter, move, rejoin, join_as, join_valid, handle_join, announce_left, read_team,
}
use lo_lprox_chat.Handshake.Sending.{send-All, broadcast-All, In-map-remove_first}
use lo_lprox_chat.Handshake.Takeover.{get_client_info-enter, entered}
use lo_lprox_chat.Handler.{
  handle_signal, handle_position, handle_shared_reset, handle_reset_all, handle_coords, switch_on,
  handle_kind, handle_frame,
}
use lo_lprox_chat.Handler.Preserved.{switch_on_cases}
use lo_lprox_chat.Handler.Isolation.{
  IsAllowed, get_others-In, error-IsAllowed, evict-Allowed, position-Allowed, signal-Allowed,
  reset_all-Allowed, coords-Allowed, shared_reset-Allowed,
}

-- What a socket that enters a room leads to is allowed, whichever rooms it comes from.
enter-IsAllowed :
    (is_open : ℕ → Bool) (from s : Rooms) (ws : ℕ) (m : ClientMessage) (room name : String)
    → let out = enter is_open s ws m room name in All (IsAllowed from out.0 ws) out.1
unfolding enter joined
enter-IsAllowed is_open from s ws m room name =
    let t = (enter is_open s ws m room name).0 in
    let P = IsAllowed from t ws in
    All-append P _ _
      (evict-Allowed is_open from ws t (join s room name ws (read_team m.team)).1.evicted)
      (All-append P _ _ (send-All is_open P ws (room_state _) (λ _. refl)) (
        broadcast-All is_open P (peer_joined name) (get_others_in_room t ws) λ c k _.
          let e = get_client_info-enter is_open s ws m room name in
          let (here, n) = get_others-In t ws (entered s ws m room name) c e k in
          (entered s ws m room name, e, refl, here, n)))

leave-nowhere : (s : Rooms) (ws : ℕ) → lookup ws s.clients ≡ none → leave s ws ≡ (s, none)
unfolding leave leave_client
leave-nowhere s ws e = rw (e, leave_client)

announce-IsAllowed :
    (is_open : ℕ → Bool) (s t : Rooms) (ws : ℕ)
    → Inv s
    → All (IsAllowed s t ws) (announce_left is_open (leave s ws).1)
unfolding announce_left get_client_info
announce-IsAllowed is_open s t ws v = elim (Option-cases (lookup ws s.clients)) [
  | inl e ↦ rw (leave-nowhere s ws e) tt
  | inr (i, e) ↦ rw (leave_found s v ws i e) (
      broadcast-All is_open (IsAllowed s t ws) (peer_left (s.heap i).name) _ λ c k _. (
        s.heap i,
        rw e,
        refl,
        (c, In-map-remove_first s.heap _ (members s (s.heap i).room_id) c k, refl),
      ))
]

module _ (is_open : ℕ → Bool) (s : Rooms) (ws : ℕ) (v : Inv s) where
  -- The effects of an outcome are allowed from `s` to its own rooms.
  abbrev Fine : Outcome → Type 0
  Fine o = All (IsAllowed s o.0 ws) o.1

  rejoin-Fine : (m : ClientMessage) → Fine (rejoin is_open s ws m)
  unfolding rejoin
  rejoin-Fine m =
      send-All is_open (IsAllowed s (rejoin is_open s ws m).0 ws) ws (room_state _) (λ _. refl)

  move-Fine : (m : ClientMessage) (room name : String) → Fine (move is_open s ws m room name)
  unfolding move
  move-Fine m room name =
      All-append (IsAllowed s (move is_open s ws m room name).0 ws) _ _
        (announce-IsAllowed is_open s (move is_open s ws m room name).0 ws v)
        (enter-IsAllowed is_open s (leave s ws).0 ws m room name)

  join_as-Fine :
      (m : ClientMessage) (room name : String) (o : Option Client)
      → Fine (join_as is_open s ws m room name o)
  unfolding join_as
  join_as-Fine m room name none = enter-IsAllowed is_open s s ws m room name
  join_as-Fine m room name (some c) =
      if_holds Fine (c.room_id == room && c.name == name) _ _ (λ _. rejoin-Fine m)
        (λ _. move-Fine m room name)

  join_valid-Fine : (m : ClientMessage) (j : JoinValidation) → Fine (join_valid is_open s ws m j)
  unfolding join_valid
  join_valid-Fine m (invalid e) = error-IsAllowed is_open s s ws _
  join_valid-Fine m (valid room name) = join_as-Fine m room name (get_client_info s ws)

  switch_on-Fine :
      (now : ℕ) (m : ClientMessage) (kind : String) → Fine (switch_on is_open s ws now m kind)
  unfolding handle_join handle_signal handle_position handle_shared_reset handle_reset_all
      handle_coords
  switch_on-Fine now m kind =
      switch_on_cases Fine is_open s ws now m kind (join_valid-Fine m (validate_join m.room m.name))
        (signal-Allowed is_open s ws m (get_client_info s ws) refl)
        (position-Allowed is_open s ws m (get_client_info s ws) refl)
        (shared_reset-Allowed is_open s ws _ m (get_client_info s ws))
        (reset_all-Allowed is_open s ws _ now (get_client_info s ws) refl)
        (coords-Allowed is_open s ws _ now m (get_client_info s ws))
        (error-IsAllowed is_open s s ws _)

  handle_kind-Fine :
      (now : ℕ) (m : ClientMessage) (kind : Json) → Fine (handle_kind is_open s ws now m kind)
  unfolding handle_kind
  handle_kind-Fine now m (str kind) = switch_on-Fine now m kind
  handle_kind-Fine now m _ = error-IsAllowed is_open s s ws _

  -- Every effect of a frame is allowed. Errors and `room_state` go to its sender; a signal goes to a
  -- member of the sender's room, and presence, `peer_joined` and a shared RESET to its other sockets,
  -- all under the sender's own name; a shared RESET, only if both have opted in; `peer_left` goes to
  -- the room that the sender leaves; and no socket but another is closed, with the takeover code.
  pub handle_frame-IsAllowed :
      (now : ℕ) (frame : Frame)
      → let out = handle_frame is_open s ws now frame in All (IsAllowed s out.0 ws) out.1
  unfolding handle_frame
  handle_frame-IsAllowed now bad_json = error-IsAllowed is_open s s ws _
  handle_frame-IsAllowed now not_object = error-IsAllowed is_open s s ws _
  handle_frame-IsAllowed now (object m) = handle_kind-Fine now m m.kind
