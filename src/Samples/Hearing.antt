-- ===== src/Samples/Hearing.antt =====
-- Two enemies and an ally near each other, and what the server answers them.
use lo_lprox_chat.Common.{
  Bool, ◌||◌, ℕ, ◌≤◌, ◌≡◌, ◌≢◌, ◌⊎◌, refl, String, true, false, none, some, [], ◌∷◌, arith, inl,
  inr, In, nat_eq, string_eq, if◌then◌else◌, ◌==◌,
}
use lo_lprox_chat.Common.Dict.{Dict, lookup, insert}
use lo_lprox_chat.Common.Int.{pos, distance_ℤ}
use lo_lprox_chat.Json.{absent, bool, num, str}
use lo_lprox_chat.Client.{Client, order, chaos, Point, Stamped}
use lo_lprox_chat.Messages.{ClientMessage, object}
use lo_lprox_chat.Rooms.{
  Rooms, no_rooms, no_client, find_in_room, get_client_info, get_room_clients, bind, clear_camera,
  set_position, clear_position,
}
use lo_lprox_chat.Rooms.Invariant.{Inv, no_rooms-Inv}
use lo_lprox_chat.Handler.{handle_frame, handle_coords}
use lo_lprox_chat.Handler.Preserved.{handle_frame-Inv}
use lo_lprox_chat.Volumes.Distance.{hypot, root, root_on, closest_approach, approach, approach_from}
use lo_lprox_chat.Volumes.Curve.{calculate_volume, full_volume, max_hearing_range}
use lo_lprox_chat.Volumes.Request.{VolumeRequest, peer_volumes, check_request}
use lo_lprox_chat.Volumes.Tiered.{
  compute_tiered_volumes, hear, listener_of, Listener, are_allies, my_points,
}
use lo_lprox_chat.Volumes.Tiered.Answer.{compute_tiered_volumes_lem}
use lo_lprox_chat.Volumes.Tiered.Members.{compute_tiered_volumes-IsHeardFresh}
use lo_lprox_chat.Volumes.Tiered.Disowned.{handle_coords-disowned}
use lo_lprox_chat.Volumes.Tiered.Hearing.{IsHeardFresh, IsInRange}
use lo_lprox_chat.Volumes.Tiered.Allies.{IsOld, IsPlaced, hear_ally_lem}
use lo_lprox_chat.Volumes.Tiered.Camera.{SharesCamera, my_points_lem}
use lo_lprox_chat.Volumes.Tiered.Symmetry.{hear_symmetric}
use lo_lprox_chat.Samples.Sessions.{all_open, blank, joining, handlers}

root_of : root 1000000000000 ≡ 1000000
unfolding root root_on
root_of = refl

abbrev ann_joins : Rooms
ann_joins = (handle_frame all_open no_rooms 1 1000 (object (joining "ann#eu"))).0

abbrev bob_joins : Rooms
bob_joins =
    (handle_frame all_open ann_joins 2 1001
      (object (record (joining "bob#eu") { team = str "CHAOS" }))).0

abbrev at_x : ℕ → ClientMessage
at_x x = record blank { kind = str "coords"; x = num (pos x); y = num (pos 0) }

abbrev ann_walks : Rooms
ann_walks = (handle_frame all_open bob_joins 1 2000 (object (at_x 0))).0

abbrev game : Rooms
game = (handle_frame all_open ann_walks 2 2001 (object (at_x 1000000))).0

game-Inv : Inv game
game-Inv = handle_frame-Inv all_open ann_walks 2 2001 (object (at_x 1000000)) (
    handle_frame-Inv all_open bob_joins 1 2000 (object (at_x 0)) (
      handle_frame-Inv all_open ann_joins 2 1001
        (object (record (joining "bob#eu") { team = str "CHAOS" }))
        (handle_frame-Inv all_open no_rooms 1 1000 (object (joining "ann#eu")) no_rooms-Inv)))

abbrev origin : Point
origin = record { x = pos 0; y = pos 0 }

abbrev ann : Client
ann = record no_client {
  room_id = "k3x9";
  name = "ann#eu";
  ws = 1;
  team = some order;
  shared_reset = some true;
  position = some (record { point = origin; updated_ms = 2000 });
}

-- Everything that these runs compute with.
runs : Unit {0}
unfolding handlers clear_camera set_position clear_position get_room_clients compute_tiered_volumes
    check_request calculate_volume root root_on lookup insert closest_approach approach
    approach_from hypot distance_ℤ
runs = tt

ann_there : find_in_room game "k3x9" "ann#eu" ≡ some ann
unfolding runs
ann_there = refl

abbrev request : VolumeRequest
request = record {
  my_x = num (pos 0);
  my_y = num (pos 0);
  room_id = str "k3x9";
  name = str "ann#eu";
  ally_proximity = bool true;
  allies_only = absent;
}

abbrev heard_bob : Dict String ℕ
heard_bob = ("bob#eu", 192500000000) ∷ []

-- At 1000 units the falloff is (1000 - 900) / 450.
answer_to_ann : compute_tiered_volumes request 2100 (get_room_clients game) ≡ peer_volumes heard_bob
unfolding runs
answer_to_ann = refl

compute_tiered_volumes_lem_example :
    (v : Dict String ℕ) × (compute_tiered_volumes request 2100 (get_room_clients game)
      ≡ peer_volumes v)
    × ((name : String)
        → lookup name v ≡ (
            if name == "ann#eu" || name == "__proto__"
            then none
            else bind (find_in_room game "k3x9" name) (hear (listener_of request origin 2100 ann))))
unfolding runs
compute_tiered_volumes_lem_example =
    compute_tiered_volumes_lem game request 2100 origin "k3x9" "ann#eu" ann game-Inv refl ann_there

compute_tiered_volumes-IsHeardFresh_example :
    (peer : Client) × (find_in_room game "k3x9" "bob#eu" ≡ some peer)
    × ◌≢◌ {A = String} "bob#eu" "ann#eu"
    × ((are_allies ann.team peer.team ≡ true)
        ⊎ IsHeardFresh (listener_of request origin 2100 ann) peer peer.position 192500000000)
unfolding runs
compute_tiered_volumes-IsHeardFresh_example =
    compute_tiered_volumes-IsHeardFresh game request 2100 origin "k3x9" "ann#eu" ann heard_bob
      "bob#eu" 192500000000 game-Inv refl ann_there answer_to_ann refl

abbrev bob : Client
bob = record ann {
  name = "bob#eu";
  ws = 2;
  team = some chaos;
  position = some (record { point = record { x = pos 1000000; y = pos 0 }; updated_ms = 2001 });
}

bob_known : get_client_info game 2 ≡ some bob
unfolding runs
bob_known = refl

abbrev lost : ClientMessage
lost = record (at_x 1000000) { stale = bool true; seen = bool true; seen_ago_ms = num (pos 300) }

-- Bob loses track of himself and says so.
handle_coords-disowned_example : lookup {K = String} {V = ℕ} "bob#eu" [] ≡ none
unfolding runs handle_coords
handle_coords-disowned_example =
    handle_coords-disowned all_open game 2 2200 2201 lost bob ann
      (record { x = pos 1000000; y = pos 0 }) origin request "ann#eu" [] game-Inv bob_known refl
      refl refl refl refl refl

-- Bob as an ally who was lost: heard from where he was last seen, but not from across the map.
abbrev far_ally : Client
far_ally = record bob {
  team = some order;
  position = none;
  last_seen = some (record { point = record { x = pos 9000000; y = pos 0 }; updated_ms = 1500 });
}

abbrev ann_listens : Listener
ann_listens = record {
  me = ann;
  at = origin;
  ally_proximity = true;
  allies_only = false;
  now = 2100;
  my_camera = none;
}

hear_ally_lem_example :
    ((hear ann_listens far_ally ≡ some full_volume)
      × (◌≡◌ {A = Bool} true false ⊎ (IsOld 2100 none × IsOld 2100 far_ally.last_seen)))
    ⊎ ((a : Stamped) × (true ≡ true)
        × IsPlaced 2100 none far_ally.last_seen a
        × (((hear ann_listens far_ally ≡ none)
              × ((q : Point)
                  → In q (my_points ann_listens far_ally)
                  → max_hearing_range ≤ hypot q a.point))
            ⊎ ((volume : ℕ) × (hear ann_listens far_ally ≡ some volume)
                × IsInRange ann_listens far_ally a.point volume)))
hear_ally_lem_example = hear_ally_lem ann_listens far_ally refl

abbrev bob_listens : Listener
bob_listens = record ann_listens { me = bob; at = record { x = pos 1000000; y = pos 0 } }

hear_symmetric_example : hear ann_listens bob ≡ hear bob_listens ann
hear_symmetric_example =
    hear_symmetric ann_listens bob_listens (record { point = origin; updated_ms = 2000 })
      (record { point = record { x = pos 1000000; y = pos 0 }; updated_ms = 2001 }) refl refl refl
      refl refl refl refl refl refl (omega arith) (omega arith)

abbrev camera : Stamped
camera = record { point = record { x = pos 700; y = pos 700 }; updated_ms = 2050 }

abbrev watching : Client → Client
watching c = record c { camera = some camera }

my_points_lem_example :
    (camera.point ≡ origin)
    ⊎ ((mine : SharesCamera 2100 (watching ann)) × (mine.shared.point ≡ camera.point)
        × SharesCamera 2100 (watching bob))
unfolding my_points listener_of
my_points_lem_example =
    my_points_lem request origin 2100 (watching ann) (watching bob) camera.point (inr (inl refl))
