-- ===== src/Server.antt =====
-- server/src/index.ts and the `message` listener of server/src/ws-handler.ts: the sockets of the server,
-- with its rooms, its heartbeat, its limits and its counters.
pub mod Connections
pub mod Reachable
use lo_lprox_chat.Common.{
  ℕ, String, Bool, true, false, Option, none, some, List, [], ◌∷◌, nat_eq, string_eq, if◌then◌else◌,
}
use lo_lprox_chat.Common.Dict.{Dict, lookup, insert, erase}
use lo_lprox_chat.Rooms.{Rooms, no_rooms}
use lo_lprox_chat.Heartbeat.{Alive, Swept, track, mark_alive, sweep}
use lo_lprox_chat.Limits.Bucket.{Bucket, try_consume, ws_messages}
use lo_lprox_chat.Limits.Concurrency.{acquire, release, ws_per_ip}
use lo_lprox_chat.Limits.Rejections.{
  Counters, bump, ws_per_ip as ws_per_ip_reason, ws_messages as ws_messages_reason,
}
use lo_lprox_chat.Messages.{Frame, Effect, closes, rate_limited}
use lo_lprox_chat.Handshake.{Outcome, on_close, send_error}
use lo_lprox_chat.Handler.{handle_frame}

-- What the listeners of one socket close over: the key that its address is counted under, and its
-- message limiter.
pub record Connection : Type 0 where
  pub ip : String
  pub limiter : Dict String Bucket

-- `listening` are the sockets past the limit of connections that have not closed.
pub record Server : Type 0 where
  pub rooms : Rooms
  pub alive : Alive
  pub connections : Dict String ℕ
  pub counters : Counters
  pub listening : Dict ℕ Connection

abbrev pub new_server : Server
new_server = record {
  rooms = no_rooms;
  alive = [];
  connections = [];
  counters = record { totals = []; reported = [] };
  listening = [];
}

-- The code of `ws.close` for one connection too many.
abbrev pub policy_violation : ℕ
policy_violation = 1008

-- What happens to the server. A socket that pings is answered by `ws` itself; `swept` carries the
-- sockets of `wss.clients`.
pub data Event : Type 0 where
  connected : (ws : ℕ) → (ip : String) → Event
  received : (ws now : ℕ) → Frame → Event
  ponged closed : (ws : ℕ) → Event
  swept : (sockets : List ℕ) → Event

-- The message is handled, once the limiter has let it pass.
unfoldable pub pass_message : (ℕ → Bool) → Server → ℕ → ℕ → Frame → Server × List Effect
unfolding handle_frame
pass_message is_open s ws now frame =
    let out = handle_frame is_open s.rooms ws now frame in (record s { rooms = out.0 }, out.1)

unfoldable pub refuse_message : (ℕ → Bool) → Server → ℕ → Server × List Effect
unfolding bump send_error
refuse_message is_open s ws =
    (record s { counters = bump s.counters ws_messages_reason }, send_error is_open ws rate_limited)

-- Whatever becomes of the message, it shows life and is taken from the limiter.
unfoldable pub on_message : (ℕ → Bool) → Server → ℕ → ℕ → Frame → Connection → Server × List Effect
unfolding mark_alive try_consume pass_message refuse_message
on_message is_open s ws now frame c =
    let taken = try_consume ws_messages c.limiter "self" now in
    let t = record s {
      alive = mark_alive s.alive ws;
      listening = insert ws (record c { limiter = taken.0 }) s.listening;
    } in
    if taken.1 then pass_message is_open t ws now frame else refuse_message is_open t ws

unfoldable pub on_connection : Server → ℕ → String → Server × List Effect
unfolding acquire track bump
on_connection s ws ip =
    let got = acquire ws_per_ip s.connections ip in
    if got.1
    then (
      record s {
        connections = got.0;
        alive = track s.alive ws;
        listening = insert ws (record { ip = ip; limiter = [] }) s.listening;
      },
      [],
    )
    else (record s { counters = bump s.counters ws_per_ip_reason }, closes ws policy_violation ∷ [])

-- Both `close` listeners.
unfoldable pub on_closed : (ℕ → Bool) → Server → ℕ → Connection → Server × List Effect
unfolding release on_close
on_closed is_open s ws c =
    let left = on_close is_open s.rooms ws in
    (
      record s {
        connections = release s.connections c.ip;
        rooms = left.0;
        listening = erase ws s.listening;
      },
      left.1,
    )

-- A socket without listeners, one turned away, does nothing.
unfoldable pub step_as : (ℕ → Bool) → Server → Event → Option Connection → Server × List Effect
unfolding on_message on_closed on_connection sweep mark_alive
step_as is_open s (connected ws ip) o = on_connection s ws ip
step_as is_open s (received ws now frame) none = (s, [])
step_as is_open s (received ws now frame) (some c) = on_message is_open s ws now frame c
step_as is_open s (ponged ws) none = (s, [])
step_as is_open s (ponged ws) (some c) = (record s { alive = mark_alive s.alive ws }, [])
step_as is_open s (closed ws) none = (s, [])
step_as is_open s (closed ws) (some c) = on_closed is_open s ws c
step_as is_open s (swept sockets) o = (record s { alive = (sweep s.alive sockets).alive }, [])

abbrev pub socket_of : Event → Option ℕ
socket_of (connected ws ip) = some ws
socket_of (received ws now frame) = some ws
socket_of (ponged ws) = some ws
socket_of (closed ws) = some ws
socket_of (swept sockets) = none

abbrev pub connection_of : Server → Option ℕ → Option Connection
connection_of s none = none
connection_of s (some ws) = lookup ws s.listening

unfoldable pub step : (ℕ → Bool) → Server → Event → Server × List Effect
unfolding step_as
step is_open s e = step_as is_open s e (connection_of s (socket_of e))
