-- ===== src/Signaling.antt =====
-- src/services/signaling.ts: `SignalingService`, the client's connection to the server.
pub mod Wire
pub mod Sending
pub mod Terminal
pub mod Rejoin
pub mod Served
use lo_lprox_chat.Common.{
  ℕ, suc, ◌+◌, ◌-◌, ◌*◌, ◌^◌, min, String, Bool, true, false, not, Option, none, some, List, [],
  ◌∷◌, ◌++◌, ◌==◌, nat_eq, string_eq, if◌then◌else◌,
}
use lo_lprox_chat.Common.Dict.{Dict, lookup, insert}
use lo_lprox_chat.Common.Int.{ℤ}
use lo_lprox_chat.Client.{Team}
use lo_lprox_chat.Json.{Json, str}
use lo_lprox_chat.Signaling.Wire.{
  SignalType, type_text, CameraReport, VisibleEnemy, Outgoing, Incoming, round, camera_fields,
  visible_entries,
}

-- `TAKEOVER_CLOSE_CODE`.
abbrev pub takeover_code : ℕ
takeover_code = 4000

-- What `openSocket` captures for the listeners of its socket. A handler is known by being there:
-- `announces` says whether `onPeerJoined` was given.
pub record Session : Type 0 where
  pub room : String
  pub name : String
  pub team : Option Team
  pub announces : Bool

-- The fields of the service. Sockets are numbered as they are made: `sockets` has what the
-- listeners of each captured, `made` the next number. `handlers` is `currentHandlers`, `timer` the
-- delay of a timer that is set.
pub record Signaling : Type 0 where
  pub ws : Option ℕ
  pub local_name : String
  pub room : Option String
  pub team : Option Team
  pub handlers : Option Bool
  pub attempt : ℕ
  pub timer : Option ℕ
  pub intentionally_closed : Bool
  pub shared_reset : Bool
  pub tells_reset : Bool
  pub sockets : Dict ℕ Session
  pub made : ℕ

abbrev pub new_signaling : Signaling
new_signaling = record {
  ws = none;
  local_name = "";
  room = none;
  team = none;
  handlers = none;
  attempt = 0;
  timer = none;
  intentionally_closed = false;
  shared_reset = false;
  tells_reset = false;
  sockets = [];
  made = 0;
}

-- What the service does: it makes, closes or writes to a socket, sets a timer, calls a handler.
pub data Act : Type 0 where
  opens closes : ℕ → Act
  sends : ℕ → Outgoing → Act
  waits : (delay_ms : ℕ) → Act
  peer_joined peer_left : String → Act
  signals : (kind : Json) → (from to : String) → (payload : Json) → Act
  moves : (broadcast : Json) → Act
  resets : (from : String) → Act

abbrev pub Done : Type 0
Done = Signaling × List Act

abbrev pub close_old : Option ℕ → List Act
close_old none = []
close_old (some w) = closes w ∷ []

unfoldable pub open_for : Signaling → String → Bool → Done
open_for s room announces = (
  record s {
    ws = some s.made;
    sockets =
        insert s.made
          (record { room = room; name = s.local_name; team = s.team; announces = announces })
          s.sockets;
    made = suc s.made;
  },
  close_old s.ws ++ (opens s.made ∷ []),
)

-- `openSocket`: an empty room is no room.
unfoldable pub open_socket_in : Signaling → Option String → Option Bool → Done
unfolding open_for
open_socket_in s (some room) (some announces) =
    if room == "" then (s, []) else open_for s room announces
open_socket_in s _ _ = (s, [])

unfoldable pub open_socket : Signaling → Done
unfolding open_socket_in
open_socket s = open_socket_in s s.room s.handlers

unfoldable pub join_room : Signaling → String → String → Option Team → Bool → Done
unfolding open_socket
join_room s room name team announces = open_socket (record s {
  local_name = name;
  room = some room;
  team = team;
  handlers = some announces;
  intentionally_closed = false;
  attempt = 0;
})

-- Every listener asks first whether its socket is the current one.
abbrev pub is_current : Signaling → ℕ → Bool
is_current s w = elim s.ws [ none ↦ false | some v ↦ v == w ]

-- The `open` event.
unfoldable pub on_open_of : Signaling → ℕ → Option Session → Done
on_open_of s w none = (s, [])
on_open_of s w (some c) =
    if is_current s w
    then (
      record s { attempt = 0 },
      sends w (Outgoing.join_as c.room c.name c.team s.shared_reset) ∷ [],
    )
    else (s, [])

unfoldable pub on_open : Signaling → ℕ → Done
unfolding on_open_of
on_open s w = on_open_of s w (lookup w s.sockets)

-- `onPeerJoined?.(name)`, unless it is our own name.
unfoldable pub announce : Session → String → String → List Act
announce c local name =
    if name == local then [] else if c.announces then peer_joined name ∷ [] else []

unfoldable pub announce_all : Session → String → List String → List Act
unfolding announce
announce_all c local [] = []
announce_all c local (name ∷ peers) = announce c local name ++ announce_all c local peers

-- `typeof msg.from === 'string' ? msg.from : ''`.
abbrev pub text_or_empty : Json → String
text_or_empty (str s) = s
text_or_empty _ = ""

abbrev pub move : Option Json → List Act
move none = []
move (some broadcast) = moves broadcast ∷ []

-- `fields` gives the `type` and the `payload` of a JSON object, `parse` what `JSON.parse` makes of
-- a text.
module _ (fields : ℕ → Json × Json) (parse : Json → Option Json) where
  -- `payload?.type` and `payload?.payload`.
  abbrev pub envelope : Json → Json × Json
  envelope (Json.other i) = fields i
  envelope _ = (Json.absent, Json.absent)

  -- `switch (msg.type)`.
  unfoldable pub read : Signaling → Session → Incoming → List Act
  unfolding announce_all
  read s c Incoming.unreadable = []
  read s c Incoming.unknown = []
  read s c (Incoming.peers_in_room peers) = announce_all c s.local_name peers
  read s c (Incoming.someone_joined name) = announce c s.local_name name
  read s c (Incoming.someone_left name) = peer_left name ∷ []
  read s c (Incoming.signalled from payload) =
      signals (envelope payload).0 from s.local_name (envelope payload).1 ∷ []
  read s c (Incoming.positioned from blob) = if from == s.local_name then [] else move (parse blob)
  read s c (Incoming.reset_by from) =
      if not s.shared_reset
      then []
      else if s.tells_reset
      then resets (text_or_empty from) ∷ []
      else []
  read s c Incoming.server_error = []

  abbrev pub read_by : Signaling → Incoming → Option Session → List Act
  read_by s m none = []
  read_by s m (some c) = read s c m

  -- The `message` event.
  unfoldable pub on_message : Signaling → ℕ → Incoming → Done
  on_message s w m = (s, if is_current s w then read_by s m (lookup w s.sockets) else [])

-- The delay before the `n`th attempt, capped at 30 s.
unfoldable pub backoff_ms : ℕ → ℕ
backoff_ms n = min 30000 (500 * 2 ^ (n - 1))

unfoldable pub schedule : Signaling → Done
unfolding backoff_ms
schedule s =
    let n = s.attempt + 1 in
    (record s { attempt = n; timer = some (backoff_ms n) }, waits (backoff_ms n) ∷ [])

-- The `close` event of a socket.
unfoldable pub on_close : Signaling → ℕ → ℕ → Done
unfolding schedule
on_close s w code =
    if not (is_current s w)
    then (s, [])
    else if s.intentionally_closed
    then (s, [])
    else if code == takeover_code
    then (record s { intentionally_closed = true; timer = none }, [])
    else schedule s

unfoldable pub on_timer_of : Signaling → Option ℕ → Done
unfolding open_socket
on_timer_of s none = (s, [])
on_timer_of s (some delay) = open_socket (record s { timer = none })

-- The timer runs out; one that was cleared does not.
unfoldable pub on_timer : Signaling → Done
unfolding on_timer_of
on_timer s = on_timer_of s s.timer

unfoldable pub leave_room : Signaling → Done
leave_room s = (
  record s {
    intentionally_closed = true;
    timer = none;
    room = none;
    team = none;
    handlers = none;
    ws = none;
  },
  close_old s.ws,
)
