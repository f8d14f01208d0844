-- ===== src/Handshake.antt =====
-- server/src/ws-handler.ts: sending, the `join` of a socket, and its closing.
pub mod Preserved
pub mod Takeover
pub mod Sending
use lo_lprox_chat.Common.{
  ℕ, String, Bool, true, false, not, ◌&&◌, Option, none, some, List, [], ◌∷◌, ◌++◌, map, filter,
  ◌==◌, nat_eq, string_eq, if◌then◌else◌,
}
use lo_lprox_chat.Common.Dict.{Dict, lookup, insert}
use lo_lprox_chat.Common.Int.{ℤ, pos, negsuc}
use lo_lprox_chat.Json.{Json, absent, null, infinite, bool, num, str, other, is_true}
use lo_lprox_chat.Client.{Client, Team, order, chaos, Point}
use lo_lprox_chat.Validate.{validate_join, JoinValidation, valid, invalid}
use lo_lprox_chat.Limits.Rejections.{ws_messages as ws_messages_reason}
use lo_lprox_chat.Limits.Bucket.{Bucket, ws_messages, try_consume}
use lo_lprox_chat.Heartbeat.{Alive, mark_alive}
use lo_lprox_chat.Rooms.{
  Rooms, Seen, JoinResult, LeaveResult, join, leave, get_client_info, get_others_in_room,
  find_in_room, or_nil, set_team, set_position, set_camera, clear_camera, clear_position,
  set_shared_reset, sender_reset_allowed, try_stamp_room_reset, stamp_sender_reset,
}
use lo_lprox_chat.Messages.{
  ClientMessage, Frame, bad_json, not_object, object, ErrorText, ServerMessage, Effect, sends,
  closes, terminates_after, peer_joined, peer_left, signal, position, room_state, error, reset,
  rate_limited, invalid_json, invalid_message, not_in_room, signal_needs_to, coords_needs_xy,
  join_error, peer_not_found, peer_not_reachable, unknown_type,
}

-- `TAKEOVER_CLOSE_CODE` and `EVICT_TERMINATE_MS`.
abbrev pub takeover_close_code : ℕ
takeover_close_code = 4000

abbrev pub evict_terminate_ms : ℕ
evict_terminate_ms = 1000

abbrev pub Outcome : Type 0
Outcome = Rooms × List Effect

abbrev pub read_team : Json → Option Team
read_team (str s) = if s == "ORDER" then some order else if s == "CHAOS" then some chaos else none
read_team _ = none

abbrev pub names : List Client → List String
names = map (λ c. c.name)

unfoldable pub refresh_team : Rooms → ℕ → Option Team → Rooms
refresh_team s ws none = s
refresh_team s ws (some team) = set_team s ws team

-- `is_open` says which sockets are open (`ws.readyState`) while the handler runs.
module _ (is_open : ℕ → Bool) where
  unfoldable pub send : ℕ → ServerMessage → List Effect
  send ws msg = if is_open ws then sends ws msg ∷ [] else []

  unfoldable pub send_error : ℕ → ErrorText → List Effect
  unfolding send
  send_error ws text = send ws (error text)

  unfoldable pub broadcast : ServerMessage → List Client → List Effect
  unfolding send
  broadcast msg [] = []
  broadcast msg (c ∷ cs) = send c.ws msg ++ broadcast msg cs

  -- Closes the connection that a name is taken from, if it is another one.
  unfoldable pub evict : ℕ → Option Client → List Effect
  evict ws none = []
  evict ws (some c) =
      if c.ws == ws
      then []
      else closes c.ws takeover_close_code ∷ terminates_after c.ws evict_terminate_ms ∷ []

  -- The end of `join`: the socket enters the room.
  unfoldable pub enter : Rooms → ℕ → ClientMessage → String → String → Outcome
  unfolding evict send broadcast
  enter s ws m room name =
      let joined = join s room name ws (read_team m.team) in
      let t = set_shared_reset joined.0 ws (is_true m.shared_reset) in
      (
        t,
        evict ws joined.1.evicted
            ++ (send ws (room_state joined.1.peers)
                ++ broadcast (peer_joined name) (get_others_in_room t ws)),
      )

  unfoldable pub announce_left : Option LeaveResult → List Effect
  unfolding broadcast
  announce_left none = []
  announce_left (some gone) = broadcast (peer_left gone.name) gone.remaining

  -- A `join` of a socket that is in another room, or under another name.
  unfoldable pub move : Rooms → ℕ → ClientMessage → String → String → Outcome
  unfolding enter announce_left
  move s ws m room name =
      let left = leave s ws in
      let entered = enter left.0 ws m room name in (entered.0, announce_left left.1 ++ entered.1)

  -- A repeated `join`.
  unfoldable pub rejoin : Rooms → ℕ → ClientMessage → Outcome
  unfolding refresh_team send
  rejoin s ws m =
      let t = set_shared_reset (refresh_team s ws (read_team m.team)) ws (is_true m.shared_reset) in
      (t, send ws (room_state (names (get_others_in_room t ws))))

  unfoldable pub join_as : Rooms → ℕ → ClientMessage → String → String → Option Client → Outcome
  unfolding enter move rejoin
  join_as s ws m room name none = enter s ws m room name
  join_as s ws m room name (some existing) =
      if existing.room_id == room && existing.name == name
      then rejoin s ws m
      else move s ws m room name

  unfoldable pub join_valid : Rooms → ℕ → ClientMessage → JoinValidation → Outcome
  unfolding join_as send_error
  join_valid s ws m (invalid e) = (s, send_error ws (join_error e))
  join_valid s ws m (valid room name) = join_as s ws m room name (get_client_info s ws)

  unfoldable pub handle_join : Rooms → ℕ → ClientMessage → Outcome
  unfolding join_valid
  handle_join s ws m = join_valid s ws m (validate_join m.room m.name)

  -- The `close` event.
  unfoldable pub on_close : Rooms → ℕ → Outcome
  unfolding announce_left
  on_close s ws = let left = leave s ws in (left.0, announce_left left.1)
