-- ===== src/Handshake/Takeover.antt =====
-- A name that is taken over by a newer connection (server/src/ws-handler.ts).
use lo_lprox_chat.Common.{
  ℕ, String, ◌≡◌, ◌≢◌, ap, ◌∙◌, Bool, none, some, [], In, In-append_left, arith, nat_eq,
  nat_beq_iff, string_eq,
}
use lo_lprox_chat.Common.Dict.{lookup}
use lo_lprox_chat.Json.{is_true}
use lo_lprox_chat.Client.{Client}
use lo_lprox_chat.Validate.{validate_join, valid}
use lo_lprox_chat.Messages.{ClientMessage, closes}
use lo_lprox_chat.Rooms.{
  Rooms, join, joined, change, get_client_info, find_in_room, leave, leave_client, bind,
  set_shared_reset, with_shared_reset, or_else,
}
use lo_lprox_chat.Rooms.Invariant.{Inv}
use lo_lprox_chat.Rooms.Info.{
  get_client_info-change, get_client_info-join, join-evicted, find_in_room-member,
  join-evicted-gone, get_client_info-none, get_client_info-some, find_in_room-registered,
}
use lo_lprox_chat.Handshake.{
  read_team, evict, enter, join_as, join_valid, handle_join, on_close, announce_left,
  takeover_close_code,
}
use lo_lprox_chat.Handshake.Preserved.{enter-Inv}

-- The entry that a socket has after it has entered a room.
abbrev pub entered : Rooms → ℕ → ClientMessage → String → String → Client
entered s ws m room name =
    with_shared_reset (is_true m.shared_reset)
      (joined room name ws (read_team m.team) (find_in_room s room name))

pub get_client_info-enter :
    (is_open : ℕ → Bool) (s : Rooms) (ws : ℕ) (m : ClientMessage) (room name : String)
    → get_client_info (enter is_open s ws m room name).0 ws ≡ some (entered s ws m room name)
unfolding enter set_shared_reset
get_client_info-enter is_open s ws m room name =
    let t = (join s room name ws (read_team m.team)).0 in
    get_client_info-change t ws (with_shared_reset (is_true m.shared_reset))
    ∙ ap (λ o. bind o (λ c. some (with_shared_reset (is_true m.shared_reset) c)))
        (get_client_info-join s room name ws (read_team m.team)
          ∙ ap (λ o. some (joined room name ws (read_team m.team) o))
              (join-evicted s room name ws (read_team m.team)))

set_shared_reset-clients :
    (s : Rooms) (ws : ℕ) (on : Bool) → (set_shared_reset s ws on).clients ≡ s.clients
unfolding set_shared_reset change
set_shared_reset-clients s ws on = ground arith

on_close-gone :
    (is_open : ℕ → Bool) (s : Rooms) (ws : ℕ)
    → lookup ws s.clients ≡ none
    → on_close is_open s ws ≡ (s, [])
unfolding on_close leave announce_left
on_close-gone is_open s ws e = rw (e, leave_client)

pub handle_join-enter :
    (is_open : ℕ → Bool) (s : Rooms) (ws : ℕ) (m : ClientMessage) (room name : String)
    → validate_join m.room m.name ≡ valid room name
    → get_client_info s ws ≡ none
    → handle_join is_open s ws m ≡ enter is_open s ws m room name
unfolding handle_join join_valid
handle_join-enter is_open s ws m room name ok e = rw (ok, join_valid, e, join_as)

-- Whoever enters a room is what its name finds there.
pub find_in_room-enter :
    (is_open : ℕ → Bool) (s : Rooms) (ws : ℕ) (m : ClientMessage) (room name : String)
    → Inv s
    → lookup ws s.clients ≡ none
    → find_in_room (enter is_open s ws m room name).0 room name ≡ some (entered s ws m room name)
unfolding joined
find_in_room-enter is_open s ws m room name v fresh =
    let t = (enter is_open s ws m room name).0 in
    let w = enter-Inv is_open s v ws m room name fresh in
    let (i, _, same, listed) =
      get_client_info-some t ws _ w (get_client_info-enter is_open s ws m room name) in
    let found = find_in_room-member t room i w listed in rw same at found

evict-closes :
    (is_open : ℕ → Bool) (ws : ℕ) (old : Client)
    → old.ws ≢ ws
    → In (closes old.ws takeover_close_code) (evict is_open ws (some old))
unfolding evict
evict-closes is_open ws old n = ground (arith, nat_beq_iff old.ws ws)

enter-closes :
    (is_open : ℕ → Bool) (s : Rooms) (ws : ℕ) (m : ClientMessage) (room name : String)
    (old : Client)
    → find_in_room s room name ≡ some old
    → old.ws ≢ ws
    → In (closes old.ws takeover_close_code) (enter is_open s ws m room name).1
unfolding enter
enter-closes is_open s ws m room name old e n =
    In-append_left _ (evict is_open ws (join s room name ws (read_team m.team)).1.evicted) _
      (rw (join-evicted s room name ws (read_team m.team), e) (evict-closes is_open ws old n))

enter-evicted-gone :
    (is_open : ℕ → Bool) (s : Rooms) (ws : ℕ) (m : ClientMessage) (room name : String)
    (old : Client)
    → find_in_room s room name ≡ some old
    → old.ws ≢ ws
    → lookup old.ws (enter is_open s ws m room name).0.clients ≡ none
unfolding enter
enter-evicted-gone is_open s ws m room name old e n =
    ap (lookup old.ws) (
      set_shared_reset-clients (join s room name ws (read_team m.team)).0 ws
        (is_true m.shared_reset))
    ∙ join-evicted-gone s room name ws (read_team m.team) old e n

-- A socket that is in no room joins under a name that is taken. The name then finds the new socket,
-- with the position, camera and last place of the old one and its team unless it brought one; the
-- old socket is closed with the takeover code; and when the old socket closes, the rooms stay as
-- they are and nothing is sent, so no peer is told that the name has left.
pub handle_join-takeover :
    (is_open : ℕ → Bool) (s : Rooms) (ws : ℕ) (m : ClientMessage) (room name : String)
    (old : Client)
    → Inv s
    → validate_join m.room m.name ≡ valid room name
    → get_client_info s ws ≡ none
    → find_in_room s room name ≡ some old
    → let out = handle_join is_open s ws m in
      (find_in_room out.0 room name
        ≡ some (record {
          room_id = room;
          name = name;
          ws = ws;
          position = old.position;
          camera = old.camera;
          last_seen = old.last_seen;
          team = or_else (read_team m.team) old.team;
          shared_reset = some (is_true m.shared_reset);
        }))
      × In (closes old.ws takeover_close_code) out.1
      × (on_close is_open out.0 old.ws ≡ (out.0, []))
unfolding joined
handle_join-takeover is_open s ws m room name old v ok nowhere found =
    let fresh = get_client_info-none s ws nowhere in
    let other : old.ws ≢ ws = find_in_room-registered s room name old ws v found fresh in
    rw (handle_join-enter is_open s ws m room name ok nowhere) (
      rw found at (find_in_room-enter is_open s ws m room name v fresh),
      enter-closes is_open s ws m room name old found other,
      on_close-gone is_open (enter is_open s ws m room name).0 old.ws
          (enter-evicted-gone is_open s ws m room name old found other),
    )
