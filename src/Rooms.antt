-- ===== src/Rooms.antt =====
-- server/src/rooms.ts: `RoomManager`. A `ClientInfo` object stands both in the list of its room and
-- in the map of sockets, and setters change it in place, so the model has a heap of such objects:
-- the lists and the map hold references into it.
pub mod Entries
pub mod Invariant
pub mod Join
pub mod Leave
pub mod Info
use lo_lprox_chat.Common.{
  ℕ, suc, ◌+◌, ◌-◌, String, Bool, true, false, not, Option, none, some, List, [], ◌∷◌, ◌++◌, map,
  min, ltb, if◌then◌else◌, ◌==◌, nat_eq, string_eq, filter,
}
use lo_lprox_chat.Common.Dict.{Dict, lookup, insert, erase, size}
use lo_lprox_chat.Common.Int.{ℤ, pos_part}
use lo_lprox_chat.Client.{Client, Stamped, Point, Team}

pub record Rooms : Type 0 where
  pub heap : ℕ → Client
  pub next : ℕ
  pub rooms : Dict String (List ℕ)
  pub clients : Dict ℕ ℕ
  pub room_reset_ms : Dict String ℕ
  pub sender_reset_ms : Dict String (Dict String ℕ)

-- What stands at a reference that is not allocated.
abbrev pub no_client : Client
no_client = record {
  room_id = "";
  name = "";
  ws = 0;
  position = none;
  camera = none;
  last_seen = none;
  team = none;
  shared_reset = none;
}

-- `new RoomManager()`.
abbrev pub no_rooms : Rooms
no_rooms = record {
  heap = λ _. no_client;
  next = 0;
  rooms = [];
  clients = [];
  room_reset_ms = [];
  sender_reset_ms = [];
}

abbrev pub or_else {ℓ} : {A : Type ℓ} → Option A → Option A → Option A
or_else (some a) b = some a
or_else none b = b

abbrev pub or_nil {ℓ} : {A : Type ℓ} → Option (List A) → List A
or_nil (some xs) = xs
or_nil none = []

abbrev pub bind {ℓ κ} : {A : Type ℓ} {B : Type κ} → Option A → (A → Option B) → Option B
bind none f = none
bind (some a) f = f a

abbrev pub update : (ℕ → Client) → ℕ → Client → ℕ → Client
update heap i c j = if j == i then c else heap j

-- `array.find(p)`.
unfoldable pub find {ℓ} : {A : Type ℓ} → (A → Bool) → List A → Option A
find p [] = none
find p (x ∷ xs) = if p x then some x else find p xs

-- `array.splice(array.findIndex(p), 1)`, where there is such an index.
unfoldable pub remove_first {ℓ} : {A : Type ℓ} → (A → Bool) → List A → List A
remove_first p [] = []
remove_first p (x ∷ xs) = if p x then xs else x ∷ remove_first p xs

abbrev pub members : Rooms → String → List ℕ
members s room = or_nil (lookup room s.rooms)

abbrev pub named : Rooms → String → ℕ → Bool
named s name i = (s.heap i).name == name

pub record JoinResult : Type 0 where
  pub peers : List String
  pub evicted : Option Client

-- The new entry takes over what it does not bring: `team ?? evicted?.team` and so on.
unfoldable pub joined : String → String → ℕ → Option Team → Option Client → Client
joined room name ws team evicted = record {
  room_id = room;
  name = name;
  ws = ws;
  position = bind evicted (λ c. c.position);
  camera = bind evicted (λ c. c.camera);
  last_seen = bind evicted (λ c. c.last_seen);
  team = or_else team (bind evicted (λ c. c.team));
  shared_reset = none;
}

unfoldable pub evict_entry : Rooms → Option ℕ → Dict ℕ ℕ
evict_entry s none = s.clients
evict_entry s (some d) = erase (s.heap d).ws s.clients

unfoldable pub join : Rooms → String → String → ℕ → Option Team → Rooms × JoinResult
unfolding joined evict_entry
join s room name ws team =
    let existing = members s room in
    let dup = find (named s name) existing in
    let kept = remove_first (named s name) existing in
    let evicted = bind dup (λ d. some (s.heap d)) in
    (
      record s {
        heap = update s.heap s.next (joined room name ws team evicted);
        next = suc s.next;
        rooms = insert room (kept ++ s.next ∷ []) s.rooms;
        clients = insert ws s.next (evict_entry s dup);
      },
      record { peers = map (λ i. (s.heap i).name) kept; evicted = evicted },
    )

pub record LeaveResult : Type 0 where
  pub room_id : String
  pub name : String
  pub remaining : List Client

-- What happens to the room of a client that goes, by the list that is left of it.
unfoldable pub shrink_room : Rooms → String → List ℕ → Rooms
shrink_room s room [] = record s {
  rooms = erase room s.rooms;
  room_reset_ms = erase room s.room_reset_ms;
  sender_reset_ms = erase room s.sender_reset_ms;
}
shrink_room s room (i ∷ rest) = record s { rooms = insert room (i ∷ rest) s.rooms }

unfoldable pub leave_room : Rooms → ℕ → Option (List ℕ) → Rooms × List ℕ
unfolding shrink_room
leave_room s i none = (s, [])
leave_room s i (some refs) =
    let left = remove_first (λ j. j == i) refs in (shrink_room s (s.heap i).room_id left, left)

unfoldable pub leave_client : Rooms → ℕ → Option ℕ → Rooms × Option LeaveResult
unfolding leave_room
leave_client s ws none = (s, none)
leave_client s ws (some i) =
    let info = s.heap i in
    let t = record s { clients = erase ws s.clients } in
    let out = leave_room t i (lookup info.room_id t.rooms) in
    (
      out.0,
      some (record { room_id = info.room_id; name = info.name; remaining = map s.heap out.1 }),
    )

unfoldable pub leave : Rooms → ℕ → Rooms × Option LeaveResult
unfolding leave_client
leave s ws = leave_client s ws (lookup ws s.clients)

unfoldable pub get_client_info : Rooms → ℕ → Option Client
get_client_info s ws = bind (lookup ws s.clients) (λ i. some (s.heap i))

unfoldable pub get_peers : Rooms → String → List String
get_peers s room = map (λ i. (s.heap i).name) (members s room)

unfoldable pub get_others_in_room : Rooms → ℕ → List Client
get_others_in_room s ws = elim (get_client_info s ws) [
  | none ↦ []
  | some info ↦ filter (λ c. not (c.ws == ws)) (map s.heap (members s info.room_id))
]

unfoldable pub find_in_room : Rooms → String → String → Option Client
find_in_room s room name = find (λ c. c.name == name) (map s.heap (members s room))

unfoldable pub room_count : Rooms → ℕ
unfolding size
room_count s = size s.rooms

-- The setters find the object by its socket and change it in place, or do nothing.
unfoldable pub change : Rooms → ℕ → (Client → Client) → Rooms
change s ws f = elim (lookup ws s.clients) [
  | none ↦ s
  | some i ↦ record s { heap = update s.heap i (f (s.heap i)) }
]

abbrev pub with_team : Team → Client → Client
with_team team c = record c { team = some team }

unfoldable pub set_team : Rooms → ℕ → Team → Rooms
unfolding change
set_team s ws team = change s ws (with_team team)

abbrev pub with_position : Point → ℕ → Client → Client
with_position p now c = record c {
  position = some (record { point = p; updated_ms = now });
  last_seen = none;
}

unfoldable pub set_position : Rooms → ℕ → Point → ℕ → Rooms
unfolding change
set_position s ws p now = change s ws (with_position p now)

abbrev pub with_camera : Point → ℕ → Client → Client
with_camera p now c = record c { camera = some (record { point = p; updated_ms = now }) }

unfoldable pub set_camera : Rooms → ℕ → Point → ℕ → Rooms
unfolding change
set_camera s ws p now = change s ws (with_camera p now)

abbrev pub without_camera : Client → Client
without_camera c = record c { camera = none }

unfoldable pub clear_camera : Rooms → ℕ → Rooms
unfolding change
clear_camera s ws = change s ws without_camera

abbrev pub with_shared_reset : Bool → Client → Client
with_shared_reset on c = record c { shared_reset = some on }

unfoldable pub set_shared_reset : Rooms → ℕ → Bool → Rooms
unfolding change
set_shared_reset s ws on = change s ws (with_shared_reset on)

-- `LOST_ALLY_ANCHOR_MS`.
abbrev pub lost_ally_anchor_ms : ℕ
lost_ally_anchor_ms = 20000

pub record Seen : Type 0 where
  pub point : Point
  pub ago_ms : ℤ

-- `Date.now() - Math.min(Math.max(0, seen.agoMs), LOST_ALLY_ANCHOR_MS)`.
unfoldable pub seen_stamp : ℕ → Seen → Stamped
seen_stamp now seen = record {
  point = seen.point;
  updated_ms = now - min (pos_part seen.ago_ms) lost_ally_anchor_ms;
}

abbrev pub without_position : Option Seen → ℕ → Client → Client
without_position seen now c = record c {
  last_seen = bind seen (λ p. some (seen_stamp now p));
  position = none;
  camera = none;
}

unfoldable pub clear_position : Rooms → ℕ → Option Seen → ℕ → Rooms
unfolding change seen_stamp
clear_position s ws seen now = change s ws (without_position seen now)

-- Within `cooldown_ms` of the last stamp.
unfoldable pub too_soon : ℕ → ℕ → Option ℕ → Bool
too_soon now cooldown_ms none = false
too_soon now cooldown_ms (some last) = ltb now (last + cooldown_ms)

unfoldable pub try_stamp_room_reset : Rooms → String → ℕ → ℕ → Rooms × Bool
unfolding too_soon
try_stamp_room_reset s room now cooldown_ms =
    if too_soon now cooldown_ms (lookup room s.room_reset_ms)
    then (s, false)
    else (record s { room_reset_ms = insert room now s.room_reset_ms }, true)

unfoldable pub sender_reset_allowed : Rooms → String → String → ℕ → ℕ → Bool
unfolding too_soon
sender_reset_allowed s room name now cooldown_ms =
    not (too_soon now cooldown_ms (bind (lookup room s.sender_reset_ms) (lookup name)))

unfoldable pub stamp_sender_reset : Rooms → String → String → ℕ → Rooms
stamp_sender_reset s room name now = record s {
  sender_reset_ms =
      insert room (insert name now (or_nil (lookup room s.sender_reset_ms))) s.sender_reset_ms;
}

pub record RoomPosition : Type 0 where
  pub name : String
  pub point : Point

-- The entry that a client makes in `getRoomPositions`, if any.
unfoldable pub fresh_position : String → ℕ → Client → List RoomPosition → List RoomPosition
fresh_position except cutoff c out = elim c.position [
  | none ↦ out
  | some p ↦
      if c.name == except
      then out
      else if ltb p.updated_ms cutoff
      then out
      else (record { name = c.name; point = p.point }) ∷ out
]

unfoldable pub fresh_positions : String → ℕ → List Client → List RoomPosition
unfolding fresh_position
fresh_positions except cutoff [] = []
fresh_positions except cutoff (c ∷ cs) =
    fresh_position except cutoff c (fresh_positions except cutoff cs)

unfoldable pub get_room_positions : Rooms → String → String → ℕ → ℕ → List RoomPosition
unfolding fresh_positions
get_room_positions s room except stale_ms now =
    fresh_positions except (now - stale_ms) (map s.heap (members s room))

-- `computeTieredVolumes` reads five fields of each.
unfoldable pub get_room_clients : Rooms → String → List Client
get_room_clients s room = map s.heap (members s room)
