-- ===== src/Handler.antt =====
-- server/src/ws-handler.ts: what one frame of a socket does to the rooms.
pub mod Preserved
pub mod Registered
pub mod Isolation
pub mod Delivery
pub mod SharedReset
pub mod Coords
use lo_lprox_chat.Common.{
  ℕ, String, Bool, true, false, not, Option, none, some, List, [], ◌∷◌, ◌++◌, map, filter, ◌==◌,
  nat_eq, string_eq, if◌then◌else◌,
}
use lo_lprox_chat.Json.{Json, absent, null, infinite, bool, num, str, other, is_true}
use lo_lprox_chat.Common.Int.{ℤ, pos, negsuc}
use lo_lprox_chat.Client.{Client, Point}
use lo_lprox_chat.Client.{read_point}
use lo_lprox_chat.Json.{is_falsy}
use lo_lprox_chat.Rooms.{
  Rooms, Seen, get_client_info, get_others_in_room, find_in_room, set_position, set_camera,
  clear_camera, clear_position, set_shared_reset, sender_reset_allowed, try_stamp_room_reset,
  stamp_sender_reset,
}
use lo_lprox_chat.Messages.{
  ClientMessage, Frame, bad_json, not_object, object, Effect, sends, signal, position, reset,
  invalid_json, invalid_message, not_in_room, signal_needs_to, coords_needs_xy, peer_not_found,
  peer_not_reachable, unknown_type,
}
use lo_lprox_chat.Handshake.{Outcome, send_error, broadcast, handle_join}

-- `SHARED_RESET_ROOM_MS` and `SHARED_RESET_SENDER_MS`.
abbrev pub shared_reset_room_ms : ℕ
shared_reset_room_ms = 15000

abbrev pub shared_reset_sender_ms : ℕ
shared_reset_sender_ms = 30000

abbrev pub read_ago : Json → ℤ
read_ago (num n) = n
read_ago _ = pos 0

abbrev pub opted_in : Client → Bool
opted_in c = elim c.shared_reset [ some true ↦ true | some false ↦ false | none ↦ false ]

unfoldable pub store_camera : Rooms → ℕ → ℕ → Option Point → Rooms
store_camera s ws now none = clear_camera s ws
store_camera s ws now (some p) = set_camera s ws p now

abbrev pub read_seen : ClientMessage → Point → Option Seen
read_seen m p =
    if is_true m.seen then some (record { point = p; ago_ms = read_ago m.seen_ago_ms }) else none

-- The peer that `to` names; what is no text names none.
unfoldable pub find_target : Rooms → String → Json → Option Client
find_target s room (str name) = find_in_room s room name
find_target s room _ = none

-- `is_open` says which sockets are open (`ws.readyState`) while the handler runs.
module _ (is_open : ℕ → Bool) where
  unfoldable pub signal_to : ℕ → String → ClientMessage → Option Client → List Effect
  unfolding send_error
  signal_to ws from m none = send_error is_open ws (peer_not_found m.to)
  signal_to ws from m (some target) =
      if is_open target.ws
      then sends target.ws (signal from m.payload) ∷ []
      else send_error is_open ws (peer_not_reachable m.to)

  unfoldable pub signal_effects : Rooms → ℕ → ClientMessage → Option Client → List Effect
  unfolding signal_to find_target send_error
  signal_effects s ws m none = send_error is_open ws not_in_room
  signal_effects s ws m (some info) =
      if is_falsy m.to
      then send_error is_open ws signal_needs_to
      else signal_to ws info.name m (find_target s info.room_id m.to)

  unfoldable pub handle_signal : Rooms → ℕ → ClientMessage → Outcome
  unfolding signal_effects
  handle_signal s ws m = (s, signal_effects s ws m (get_client_info s ws))

  unfoldable pub position_effects : Rooms → ℕ → ClientMessage → Option Client → List Effect
  unfolding broadcast send_error
  position_effects s ws m none = send_error is_open ws not_in_room
  position_effects s ws m (some info) =
      broadcast is_open (position info.name m.blob) (get_others_in_room s ws)

  unfoldable pub handle_position : Rooms → ℕ → ClientMessage → Outcome
  unfolding position_effects
  handle_position s ws m = (s, position_effects s ws m (get_client_info s ws))

  unfoldable pub shared_reset_as : Rooms → ℕ → ClientMessage → Option Client → Outcome
  unfolding send_error
  shared_reset_as s ws m none = (s, send_error is_open ws not_in_room)
  shared_reset_as s ws m (some _) = (set_shared_reset s ws (is_true m.on), [])

  unfoldable pub handle_shared_reset : Rooms → ℕ → ClientMessage → Outcome
  unfolding shared_reset_as
  handle_shared_reset s ws m = shared_reset_as s ws m (get_client_info s ws)

  -- The relay itself, once the room's cooldown allows it.
  unfoldable pub relay_reset : ℕ → ℕ → Client → Rooms × Bool → Outcome
  unfolding broadcast
  relay_reset ws now info (t, false) = (t, [])
  relay_reset ws now info (t, true) =
      let u = stamp_sender_reset t info.room_id info.name now in
      (u, broadcast is_open (reset info.name) (filter opted_in (get_others_in_room u ws)))

  unfoldable pub reset_all_as : Rooms → ℕ → ℕ → Option Client → Outcome
  unfolding relay_reset send_error
  reset_all_as s ws now none = (s, send_error is_open ws not_in_room)
  reset_all_as s ws now (some info) =
      if not (opted_in info)
      then (s, [])
      else if not (sender_reset_allowed s info.room_id info.name now shared_reset_sender_ms)
      then (s, [])
      else relay_reset ws now info (try_stamp_room_reset s info.room_id now shared_reset_room_ms)

  unfoldable pub handle_reset_all : Rooms → ℕ → ℕ → Outcome
  unfolding reset_all_as
  handle_reset_all s ws now = reset_all_as s ws now (get_client_info s ws)

  unfoldable pub store_coords : Rooms → ℕ → ℕ → ClientMessage → Option Point → Outcome
  unfolding store_camera send_error
  store_coords s ws now m none = (s, send_error is_open ws coords_needs_xy)
  store_coords s ws now m (some p) =
      if is_true m.stale
      then (clear_position s ws (read_seen m p) now, [])
      else (store_camera (set_position s ws p now) ws now (read_point m.cx m.cy), [])

  unfoldable pub coords_as : Rooms → ℕ → ℕ → ClientMessage → Option Client → Outcome
  unfolding store_coords send_error
  coords_as s ws now m none = (s, send_error is_open ws not_in_room)
  coords_as s ws now m (some _) = store_coords s ws now m (read_point m.x m.y)

  unfoldable pub handle_coords : Rooms → ℕ → ℕ → ClientMessage → Outcome
  unfolding coords_as
  handle_coords s ws now m = coords_as s ws now m (get_client_info s ws)

  -- `switch (msg.type)`.
  unfoldable pub switch_on : Rooms → ℕ → ℕ → ClientMessage → String → Outcome
  switch_on s ws now m kind =
      if kind == "join"
      then handle_join is_open s ws m
      else if kind == "signal"
      then handle_signal s ws m
      else if kind == "position"
      then handle_position s ws m
      else if kind == "shared_reset"
      then handle_shared_reset s ws m
      else if kind == "reset_all"
      then handle_reset_all s ws now
      else if kind == "coords"
      then handle_coords s ws now m
      else (s, send_error is_open ws (unknown_type m.kind))

  unfoldable pub handle_kind : Rooms → ℕ → ℕ → ClientMessage → Json → Outcome
  handle_kind s ws now m (str kind) = switch_on s ws now m kind
  handle_kind s ws now m _ = (s, send_error is_open ws (unknown_type m.kind))

  unfoldable pub handle_frame : Rooms → ℕ → ℕ → Frame → Outcome
  handle_frame s ws now bad_json = (s, send_error is_open ws invalid_json)
  handle_frame s ws now not_object = (s, send_error is_open ws invalid_message)
  handle_frame s ws now (object m) = handle_kind s ws now m m.kind
