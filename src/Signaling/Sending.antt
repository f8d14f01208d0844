-- ===== src/Signaling/Sending.antt =====
-- src/services/signaling.ts: what the client sends of itself, and the steps of the service.
use lo_lprox_chat.Common.{
  ℕ, String, Bool, true, false, not, ◌&&◌, Option, none, some, List, [], ◌∷◌, ◌++◌, if◌then◌else◌,
}
use lo_lprox_chat.Common.Int.{ℤ}
use lo_lprox_chat.Client.{Team}
use lo_lprox_chat.Json.{Json}
use lo_lprox_chat.Signaling.Wire.{
  CameraReport, VisibleEnemy, Outgoing, Incoming, round, camera_fields, visible_entries,
}
use lo_lprox_chat.Signaling.{
  Signaling, Act, Done, join_room, on_open, on_message, on_close, on_timer, leave_room,
}

-- What an optional number of `sendCoords` becomes.
abbrev pub rounded : Option ℤ → Option ℤ
rounded none = none
rounded (some ago) = some (round ago)

abbrev pub same_flag : Bool → Bool → Bool
same_flag true b = b
same_flag false b = not b

-- `is_open` says which sockets are open (`ws.readyState`).
module _ (is_open : ℕ → Bool) where
  -- `this.ws?.readyState === WebSocket.OPEN`.
  abbrev pub connected : Option ℕ → Bool
  connected none = false
  connected (some w) = is_open w

  unfoldable pub write : Option ℕ → Outgoing → List Act
  write none m = []
  write (some w) m = if is_open w then Act.sends w m ∷ [] else []

  unfoldable pub broadcast_position : Signaling → Json → Done
  unfolding write
  broadcast_position s blob = (s, write s.ws (Outgoing.position_blob blob))

  unfoldable pub send_coords :
      Signaling → ℤ → ℤ → Bool → Option CameraReport → Option ℤ → Option (List VisibleEnemy) → Done
  unfolding write
  send_coords s x y stale camera seen_ago visible = (
    s,
    write s.ws (
        if stale
        then Outgoing.stale_coords x y (rounded seen_ago)
        else Outgoing.fresh_coords x y (camera_fields camera) (visible_entries visible)),
  )

  unfoldable pub set_shared_reset : Signaling → Bool → Done
  unfolding write
  set_shared_reset s on =
      if same_flag on s.shared_reset
      then (s, [])
      else (record s { shared_reset = on }, write s.ws (Outgoing.shared_reset on))

  -- With whether it was sent.
  unfoldable pub request_reset_all : Signaling → Done × Bool
  unfolding write
  request_reset_all s =
      if s.shared_reset && connected s.ws
      then ((s, write s.ws Outgoing.reset_all), true)
      else ((s, []), false)

  -- `envelope` is the object that `sendSignal` puts the type and the payload into.
  unfoldable pub send_signal : Signaling → String → ℕ → Done
  unfolding write
  send_signal s to envelope = (s, write s.ws (Outgoing.signal_to to envelope))

-- `setOnRemoteReset`.
unfoldable pub set_on_remote_reset : Signaling → Bool → Done
set_on_remote_reset s there = (record s { tells_reset = there }, [])

-- A call of the service, or an event of a socket or of the timer.
pub data Event : Type 0 where
  joins : (room name : String) → Option Team → (announces : Bool) → Event
  opened : ℕ → Event
  got : ℕ → Incoming → Event
  closed : ℕ → (code : ℕ) → Event
  timed_out leaves asks_reset : Event
  broadcasts : Json → Event
  reports :
      ℤ
      → ℤ
      → (stale : Bool) → Option CameraReport
      → (seen_ago : Option ℤ) → Option (List VisibleEnemy)
      → Event
  shares_reset tells_reset : Bool → Event
  signals_to : (to : String) → (envelope : ℕ) → Event

module _ (fields : ℕ → Json × Json) (parse : Json → Option Json) where
  unfoldable pub step : (ℕ → Bool) → Signaling → Event → Done
  step is_open s (joins room name team announces) = join_room s room name team announces
  step is_open s (opened w) = on_open s w
  step is_open s (got w m) = on_message fields parse s w m
  step is_open s (closed w code) = on_close s w code
  step is_open s timed_out = on_timer s
  step is_open s leaves = leave_room s
  step is_open s asks_reset = (request_reset_all is_open s).0
  step is_open s (broadcasts blob) = broadcast_position is_open s blob
  step is_open s (reports x y stale camera ago visible) =
      send_coords is_open s x y stale camera ago visible
  step is_open s (shares_reset on) = set_shared_reset is_open s on
  step is_open s (tells_reset there) = set_on_remote_reset s there
  step is_open s (signals_to to i) = send_signal is_open s to i

  -- Every event comes with the sockets that are open then.
  unfoldable pub run : Signaling → List ((ℕ → Bool) × Event) → Done
  unfolding step
  run s [] = (s, [])
  run s ((is_open, e) ∷ events) =
      let one = step is_open s e in let rest = run one.0 events in (rest.0, one.1 ++ rest.1)
