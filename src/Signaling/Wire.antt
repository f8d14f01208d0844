-- ===== src/Signaling/Wire.antt =====
-- The messages of src/services/signaling.ts: what the client sends, as the server reads it, and what
-- it gets. Coordinates are in thousandths of a game unit.
use lo_lprox_chat.Common.{
  ℕ, ◌+◌, ◌-◌, ◌/◌, String, Bool, true, Option, none, some, List, ltb, if◌then◌else◌, map,
}
use lo_lprox_chat.Common.Int.{ℤ, pos, negsuc}
use lo_lprox_chat.Client.{Team, order, chaos}
use lo_lprox_chat.Json.{Json, absent, bool, num, str, other}
use lo_lprox_chat.Messages.{
  ClientMessage, ServerMessage, peer_joined, peer_left, signal, position, room_state, error, reset,
}

-- `Math.round` of a number of thousandths.
unfoldable pub round : ℤ → ℤ
round (pos n) = pos ((n + 500) / 1000)
round (negsuc n) = if ltb n 500 then pos 0 else negsuc ((n + 500) / 1000 - 1)

-- `SignalType`.
pub data SignalType : Type 0 where
  offer answer ice_candidate : SignalType

abbrev pub type_text : SignalType → String
type_text offer = "offer"
type_text answer = "answer"
type_text ice_candidate = "ice-candidate"

-- `CameraReport`: the centre, and the size if it is known.
pub record CameraReport : Type 0 where
  pub x : ℤ
  pub y : ℤ
  pub size : Option (ℤ × ℤ)

-- `VisibleEnemyReport`.
pub record VisibleEnemy : Type 0 where
  pub x : ℤ
  pub y : ℤ
  pub n : ℕ

-- What goes into `ws.send`, field by field.
pub data Outgoing : Type 0 where
  join_as : (room name : String) → Option Team → (shared_reset : Bool) → Outgoing
  position_blob : Json → Outgoing
  stale_coords : ℤ → ℤ → (seen_ago : Option ℤ) → Outgoing
  fresh_coords : ℤ → ℤ → Option CameraReport → (vis : Option (List (ℤ × ℤ × Option ℕ))) → Outgoing
  shared_reset : Bool → Outgoing
  reset_all : Outgoing
  signal_to : (to : String) → (envelope : ℕ) → Outgoing

abbrev pub rounded_size : Option (ℤ × ℤ) → Option (ℤ × ℤ)
rounded_size none = none
rounded_size (some (w, h)) = some (round w, round h)

-- The part of `sendCoords` that writes the camera.
abbrev pub camera_fields : Option CameraReport → Option CameraReport
camera_fields none = none
camera_fields (some c) = some (record c { size = rounded_size c.size })

-- One element of `vis`: the count only if an icon holds several champions.
unfoldable pub visible_entry : VisibleEnemy → ℤ × ℤ × Option ℕ
visible_entry v = (round v.x, round v.y, if ltb 1 v.n then some v.n else none)

abbrev pub visible_entries : Option (List VisibleEnemy) → Option (List (ℤ × ℤ × Option ℕ))
visible_entries none = none
visible_entries (some vs) = some (map visible_entry vs)

abbrev pub team_json : Option Team → Json
team_json none = Json.null
team_json (some order) = str "ORDER"
team_json (some chaos) = str "CHAOS"

abbrev pub no_fields : ClientMessage
no_fields = record {
  kind = absent;
  room = absent;
  name = absent;
  to = absent;
  payload = absent;
  blob = absent;
  x = absent;
  y = absent;
  stale = absent;
  seen = absent;
  seen_ago_ms = absent;
  cx = absent;
  cy = absent;
  team = absent;
  shared_reset = absent;
  on = absent;
}

abbrev pub with_seen : Option ℤ → ClientMessage → ClientMessage
with_seen none m = m
with_seen (some ago) m = record m { seen = bool true; seen_ago_ms = num ago }

abbrev pub with_camera : Option CameraReport → ClientMessage → ClientMessage
with_camera none m = m
with_camera (some c) m = record m { cx = num c.x; cy = num c.y }

-- The fields that the server reads of the JSON that is sent.
abbrev pub as_read : Outgoing → ClientMessage
as_read (join_as room name team on) = record no_fields {
  kind = str "join";
  room = str room;
  name = str name;
  team = team_json team;
  shared_reset = bool on;
}
as_read (position_blob blob) = record no_fields { kind = str "position"; blob = blob }
as_read (stale_coords x y ago) =
    with_seen ago
      (record no_fields { kind = str "coords"; x = num x; y = num y; stale = bool true })
as_read (fresh_coords x y camera vis) =
    with_camera camera (record no_fields { kind = str "coords"; x = num x; y = num y })
as_read (shared_reset on) = record no_fields { kind = str "shared_reset"; on = bool on }
as_read reset_all = record no_fields { kind = str "reset_all" }
as_read (signal_to to envelope) = record no_fields {
  kind = str "signal";
  to = str to;
  payload = other envelope;
}

-- A message as it comes: text that is no JSON, one of the server's, or one of a type that the
-- client does not know. `from` of a reset may be anything.
pub data Incoming : Type 0 where
  unreadable unknown : Incoming
  peers_in_room : List String → Incoming
  someone_joined someone_left : String → Incoming
  signalled : (from : String) → (payload : Json) → Incoming
  positioned : (from : String) → (blob : Json) → Incoming
  reset_by : (from : Json) → Incoming
  server_error : Incoming

abbrev pub from_server : ServerMessage → Incoming
from_server (peer_joined name) = someone_joined name
from_server (peer_left name) = someone_left name
from_server (signal from payload) = signalled from payload
from_server (position from blob) = positioned from blob
from_server (room_state peers) = peers_in_room peers
from_server (error text) = server_error
from_server (reset from) = reset_by (str from)
