-- ===== src/Samples/Voices.antt =====
-- Runs of the client: the players of a game, the candidates and the voice of a peer, the minimap.
use mathlib.Core.List.Perm
use mathlib.Core.List.{Perm}
use lo_lprox_chat.Common.{
  ℕ, zero, suc, ◌+◌, ◌≤◌, ◌≡◌, ◌↔◌, refl, Bool, true, false, some, List, [], ◌∷◌, ◌⊎◌, length,
  arith, nat_eq,
}
use lo_lprox_chat.Common.Int.{pos, negsuc, ◌-ℤ◌}
use lo_lprox_chat.Address.Chars.{Chars, chars_eq}
use lo_lprox_chat.Text.{codes}
use lo_lprox_chat.Validate.{is_room_id}
use lo_lprox_chat.Players.{Identity, match_local, same_key, same_game_name, on_key, on_game_name}
use lo_lprox_chat.Players.RoomId.{generate_room_id, to_base36, hash_from, join, sort}
use lo_lprox_chat.Players.RoomId.Agreed.{generate_room_id-agreed}
use lo_lprox_chat.Players.Matching.{IsAlone, IsNowhere, match_local_iff}
use lo_lprox_chat.Peer.{new_peer}
use lo_lprox_chat.Peer.Quiet.{
  PeerEvent, gets_track, mutes, hears, routes, after, element_level, tap_level, after-quiet,
}
use lo_lprox_chat.Peer.Candidates.{
  CandidateEvent, comes, describes, flushes_next, no_candidates, run,
}
use lo_lprox_chat.Peer.Candidates.Delivered.{run-delivers}
use lo_lprox_chat.Screen.{
  ScreenRect, get_capture_bounds_for_rect, get_minimap_region_for_rect, minimap_region_fits_capture,
  minimap_size_for_height,
}
use lo_lprox_chat.Screen.Fits.{get_minimap_region_for_rect_lem}

abbrev ann : Chars
ann = codes "ann#eu"

abbrev bob : Chars
bob = codes "bob#eu"

generate_room_id-agreed_example :
    (generate_room_id (ann ∷ bob ∷ []) ≡ generate_room_id (bob ∷ ann ∷ []))
    × (is_room_id (generate_room_id (ann ∷ bob ∷ [])) ≡ true)
    × (length (generate_room_id (ann ∷ bob ∷ [])) ≤ 7)
    × (to_base36 (7 + 1) (hash_from 5381 (join (sort (ann ∷ bob ∷ [])))) []
        ≡ generate_room_id (ann ∷ bob ∷ []))
generate_room_id-agreed_example =
    generate_room_id-agreed (ann ∷ bob ∷ []) (bob ∷ ann ∷ []) 1 (Perm.swap bob ann [])

abbrev ann_identity : Identity
ann_identity = record { key = ann; game_name = codes "ann"; tag_line = codes "eu"; display = ann }

abbrev bob_identity : Identity
bob_identity = record { key = bob; game_name = codes "bob"; tag_line = codes "eu"; display = bob }

match_local_iff_example :
    let roster = ann_identity ∷ bob_identity ∷ [] in
    ((match_local roster bob_identity ≡ some (1, on_key))
      ↔ IsAlone (same_key bob_identity) roster 1)
    × ((match_local roster bob_identity ≡ some (1, on_game_name)) ↔ (
        IsNowhere (same_key bob_identity) roster × IsAlone (same_game_name bob_identity) roster 1))
match_local_iff_example = match_local_iff (ann_identity ∷ bob_identity ∷ []) bob_identity 1

-- Three candidates, of which two come before the description and one while the loop runs.
abbrev interleaved : List CandidateEvent
interleaved =
    comes 1 ∷ comes 2 ∷ describes ∷ flushes_next ∷ comes 3 ∷ flushes_next ∷ flushes_next ∷ []

run-delivers_example :
    Perm (run no_candidates interleaved).delivered (1 ∷ 2 ∷ 3 ∷ [])
    × ((run no_candidates interleaved).pending ≡ [])
unfolding run
run-delivers_example = run-delivers interleaved (refl, tt) tt refl refl

after-quiet_example :
    let p =
      after
        (λ falling ms. 500000)
        new_peer
        (gets_track ∷ hears (pos 800000) 5 ∷ routes (some 1) ∷ mutes ∷ []) in
    ((p.muted ≡ false) ⊎ ((element_level p ≡ 0) × (tap_level p ≡ 0)))
    × ((element_level p ≡ 0) ⊎ (tap_level p ≡ 0))
after-quiet_example =
    after-quiet (λ falling ms. 500000)
      (gets_track ∷ hears (pos 800000) 5 ∷ routes (some 1) ∷ mutes ∷ [])

-- Half of the way at every tick.
abbrev half_way : Bool → ℕ → ℕ
half_way falling elapsed = 500000

abbrev times : ℕ → ℕ → List ℕ
times zero now = []
times (suc n) now = (now + 50) ∷ times n (now + 50)

-- A peer that goes out of range.
abbrev fading : List PeerEvent
fading = gets_track ∷ hears (pos 1000000) 1000 ∷ hears (pos 0) 1040 ∷ []

-- A window on a monitor left of the primary one.
abbrev left_window : ScreenRect
left_window = record { x = negsuc 1919; y = pos 0; width = 1920; height = 1080 }

get_minimap_region_for_rect_lem_example :
    let capture = get_capture_bounds_for_rect left_window in
    let region = get_minimap_region_for_rect left_window 3000 capture in
    (region.x ≡ capture.width -ℤ region.width)
    × (region.y ≡ capture.height -ℤ region.height)
    × (region.width ≡ minimap_size_for_height 1080 3000)
    × (region.height ≡ region.width)
    × (minimap_region_fits_capture region capture ≡ true)
get_minimap_region_for_rect_lem_example =
    get_minimap_region_for_rect_lem left_window 3000 (omega arith)
