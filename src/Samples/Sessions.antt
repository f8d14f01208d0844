-- ===== src/Samples/Sessions.antt =====
-- A small session of the signaling server: two players, one of whom reconnects.
use lo_lprox_chat.Common.{
  ℕ, String, ◌≡◌, ◌≢◌, refl, Bool, true, false, none, some, [], ◌∷◌, In, All, filter, arith, inl,
  ◌⊎◌, nat_eq, string_eq,
}
use lo_lprox_chat.Common.Dict.{lookup, insert, erase}
use lo_lprox_chat.Common.Int.{pos}
use lo_lprox_chat.Json.{absent, bool, num, str}
use lo_lprox_chat.Text.{every}
use lo_lprox_chat.Client.{Client, order, Point}
use lo_lprox_chat.Validate.{validate_join, is_room_id, validate_texts}
use lo_lprox_chat.Messages.{
  ClientMessage, object, sends, closes, room_state, peer_joined, coords_needs_xy, reset,
}
use lo_lprox_chat.Rooms.{
  Rooms, no_rooms, no_client, set_shared_reset, find, remove_first, get_client_info, find_in_room,
  get_others_in_room, try_stamp_room_reset, sender_reset_allowed, stamp_sender_reset, leave, join,
}
use lo_lprox_chat.Rooms.Invariant.{Inv, no_rooms-Inv}
use lo_lprox_chat.Handshake.{handle_join, broadcast, send_error, on_close}
use lo_lprox_chat.Handshake.Takeover.{handle_join-takeover}
use lo_lprox_chat.Client.{read_point}
use lo_lprox_chat.Handler.{
  handle_frame, handle_kind, switch_on, handle_coords, handle_reset_all, opted_in,
}
use lo_lprox_chat.Handler.Coords.{reported, handle_coords_lem}
use lo_lprox_chat.Handler.SharedReset.{
  may_reset, sender_last, handle_reset_all_lem, handle_reset_all_cooldown,
}
use lo_lprox_chat.Handler.Preserved.{handle_frame-Inv}
use lo_lprox_chat.Handler.Isolation.{IsAllowed}
use lo_lprox_chat.Handler.Delivery.{handle_frame-IsAllowed}

abbrev pub all_open : ℕ → Bool
all_open ws = true

abbrev pub blank : ClientMessage
blank = record {
  kind = absent;
  room = absent;
  name = absent;
  to = absent;
  payload = absent;
  blob = absent;
  x = absent;
  y = absent;
  stale = absent;
  seen = absent;
  seen_ago_ms = absent;
  cx = absent;
  cy = absent;
  team = absent;
  shared_reset = absent;
  on = absent;
}

abbrev pub joining : String → ClientMessage
joining name = record blank {
  kind = str "join";
  room = str "k3x9";
  name = str name;
  team = str "ORDER";
  shared_reset = bool true;
}

-- Everything that a run of the handlers computes with.
unfoldable pub handlers : Unit {0}
unfolding filter set_shared_reset handle_frame handle_kind switch_on handle_join handle_coords
    handle_reset_all validate_join validate_texts is_room_id every find remove_first lookup insert
    erase find_in_room get_client_info get_others_in_room on_close leave join
handlers = tt

abbrev pub one_player : Rooms
one_player = (handle_frame all_open no_rooms 1 1000 (object (joining "ann#eu"))).0

abbrev two_players : Rooms
two_players = (handle_frame all_open one_player 2 1001 (object (joining "bob#eu"))).0

pub one_player-Inv : Inv one_player
one_player-Inv = handle_frame-Inv all_open no_rooms 1 1000 _ no_rooms-Inv

two_players-Inv : Inv two_players
two_players-Inv = handle_frame-Inv all_open one_player 2 1001 _ one_player-Inv

second_join :
    (handle_frame all_open one_player 2 1001 (object (joining "bob#eu"))).1
    ≡ sends 2 (room_state ("ann#eu" ∷ [])) ∷ sends 1 (peer_joined "bob#eu") ∷ []
unfolding handlers
second_join = refl

handle_frame-Inv_example :
    Inv (handle_frame all_open two_players 1 1002 (object (joining "bob#eu"))).0
handle_frame-Inv_example =
    handle_frame-Inv all_open two_players 1 1002 (object (joining "bob#eu")) two_players-Inv

handle_frame-IsAllowed_example :
    let out = handle_frame all_open two_players 1 1002 (object (joining "bob#eu")) in
    All (IsAllowed two_players out.0 1) out.1
handle_frame-IsAllowed_example =
    handle_frame-IsAllowed all_open two_players 1 two_players-Inv 1002 (object (joining "bob#eu"))

abbrev bob : Client
bob = record no_client {
  room_id = "k3x9";
  name = "bob#eu";
  ws = 2;
  team = some order;
  shared_reset = some true;
}

bob_found : find_in_room two_players "k3x9" "bob#eu" ≡ some bob
unfolding handlers
bob_found = refl

-- Bob reconnects on socket 3 while his socket 2 is still in the room.
handle_join-takeover_example :
    let out = handle_join all_open two_players 3 (joining "bob#eu") in
    (find_in_room out.0 "k3x9" "bob#eu" ≡ some (record bob { ws = 3 }))
    × In (closes 2 4000) out.1
    × (on_close all_open out.0 2 ≡ (out.0, []))
unfolding handlers
handle_join-takeover_example =
    handle_join-takeover all_open two_players 3 (joining "bob#eu") "k3x9" "bob#eu" bob
      two_players-Inv refl refl bob_found

abbrev walking : ClientMessage
walking = record blank {
  kind = str "coords";
  x = num (pos 5000);
  y = num (pos 7000);
  cx = num (pos 1);
}

bob_known : get_client_info two_players 2 ≡ some bob
unfolding handlers
bob_known = refl

handle_coords_lem_example :
    let out = handle_coords all_open two_players 2 1003 walking in
    ((read_point walking.x walking.y ≡ none)
      × (out ≡ (two_players, send_error all_open 2 coords_needs_xy)))
    ⊎ ((p : Point) × (read_point walking.x walking.y ≡ some p)
        × (out.1 ≡ [])
        × (get_client_info out.0 2 ≡ some (reported 1003 walking p bob))
        × ((other : ℕ)
            → other ≢ 2
            → get_client_info out.0 other ≡ get_client_info two_players other))
handle_coords_lem_example =
    handle_coords_lem all_open two_players 2 1003 walking bob two_players-Inv bob_known

abbrev after_reset : Rooms
after_reset = (handle_reset_all all_open two_players 2 2000).0

handle_reset_all_lem_example :
    ((may_reset two_players bob 2000 ≡ true)
      × ((handle_reset_all all_open two_players 2 2000).1
          ≡ broadcast all_open
              (reset "bob#eu")
              (filter opted_in (get_others_in_room two_players 2)))
      × (lookup "k3x9" after_reset.room_reset_ms ≡ some 2000)
      × (sender_last after_reset "k3x9" "bob#eu" ≡ some 2000))
    ⊎ ((may_reset two_players bob 2000 ≡ false)
        × (handle_reset_all all_open two_players 2 2000 ≡ (two_players, [])))
handle_reset_all_lem_example = handle_reset_all_lem all_open two_players 2 2000 bob bob_known

abbrev ann : Client
ann = record bob { name = "ann#eu"; ws = 1 }

handle_reset_all_cooldown_example :
    handle_reset_all all_open after_reset 1 16999 ≡ (after_reset, [])
unfolding handlers sender_reset_allowed try_stamp_room_reset stamp_sender_reset
handle_reset_all_cooldown_example =
    handle_reset_all_cooldown all_open two_players after_reset 2 1 2000 16999 bob ann bob_known refl
      refl refl refl refl (inl (omega arith))
