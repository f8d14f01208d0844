-- ===== src/Volumes/Tiered/Disowned.antt =====
-- A client that disowns its position (`coords` with `stale` of server/src/ws-handler.ts) in the answers
-- of server/src/volumes.ts.
use lo_lprox_chat.Common.{
  ℕ, String, ◌≡◌, refl, ◌∙◌, ap, Bool, true, false, none, some, arith, inl, inr, string_eq,
  Bool-cases,
}
use lo_lprox_chat.Common.Dict.{Dict, lookup}
use lo_lprox_chat.Json.{is_true}
use lo_lprox_chat.Client.{Client, Point, read_point}
use lo_lprox_chat.Messages.{ClientMessage}
use lo_lprox_chat.Rooms.{Rooms, get_client_info, find_in_room, get_room_clients}
use lo_lprox_chat.Rooms.Invariant.{Inv}
use lo_lprox_chat.Rooms.Info.{get_client_info-named}
use lo_lprox_chat.Handler.{handle_coords}
use lo_lprox_chat.Handler.Coords.{reported, handle_coords_lem}
use lo_lprox_chat.Handler.Preserved.{handle_coords-Inv}
use lo_lprox_chat.Volumes.Request.{VolumeRequest, peer_volumes, passed, check_request}
use lo_lprox_chat.Volumes.Tiered.{
  Listener, listener_of, hear, hear_fresh, are_allies, compute_tiered_volumes,
}
use lo_lprox_chat.Volumes.Tiered.Answer.{compute_tiered_volumes_lem}

hear-nowhere :
    (l : Listener) (peer : Client)
    → are_allies l.me.team peer.team ≡ false
    → peer.position ≡ none
    → hear l peer ≡ none
unfolding hear
hear-nowhere l peer foe nowhere = elim (Bool-cases l.allies_only) [
  | inl only ↦ rw (foe, only) refl
  | inr all ↦ rw (foe, all, nowhere, hear_fresh) refl
]

-- The entry after a stale report.
stale-info :
    (is_open : ℕ → Bool) (s : Rooms) (ws now : ℕ) (m : ClientMessage) (peer : Client) (p : Point)
    → Inv s
    → get_client_info s ws ≡ some peer
    → read_point m.x m.y ≡ some p
    → is_true m.stale ≡ true
    → get_client_info (handle_coords is_open s ws now m).0 ws ≡ some (reported now m p peer)
stale-info is_open s ws now m peer p v e read stale =
    elim (handle_coords_lem is_open s ws now m peer v e) [
      | inl (refused, _) ↦ absurd (ground arith)
      | inr (q, same, _, stored, _) ↦ let eq : q ≡ p = cc (same, read) in rw eq at stored
    ]

-- Once a client has disowned its position, no answer to one who is not its ally names it, however
-- soon the request comes and whatever else the message says.
pub handle_coords-disowned :
    (is_open : ℕ → Bool) (s : Rooms) (ws now later : ℕ) (m : ClientMessage) (peer me : Client)
    (p at : Point) (body : VolumeRequest) (mine : String) (v : Dict String ℕ)
    → Inv s
    → get_client_info s ws ≡ some peer
    → read_point m.x m.y ≡ some p
    → is_true m.stale ≡ true
    → check_request body ≡ passed at peer.room_id mine
    → let t = (handle_coords is_open s ws now m).0 in
      find_in_room t peer.room_id mine ≡ some me
      → are_allies me.team peer.team ≡ false
      → compute_tiered_volumes body later (get_room_clients t) ≡ peer_volumes v
      → lookup peer.name v ≡ none
unfolding listener_of
handle_coords-disowned is_open s ws now later m peer me p at body mine v i e read stale ok here foe
      answered =
    let t = (handle_coords is_open s ws now m).0 in
    let (w, same, entries) =
      compute_tiered_volumes_lem t body later at peer.room_id mine me
        (handle_coords-Inv is_open s ws now m i) ok here in
    let same_answer : v ≡ w = cc (same, answered) in
    let gone = reported now m p peer in
    let kept : (gone.name ≡ peer.name)
        × (gone.room_id ≡ peer.room_id)
        × (gone.team ≡ peer.team)
        × (gone.position ≡ none) =
      rw stale (refl, refl, refl, refl) in
    let named : find_in_room t peer.room_id peer.name ≡ some gone =
      rw (kept.0, kept.1) at
        (get_client_info-named t ws gone (handle_coords-Inv is_open s ws now m i)
          (stale-info is_open s ws now m peer p i e read stale)) in
    ap (lookup peer.name) same_answer
    ∙ entries peer.name
    ∙ ground (arith, named, hear-nowhere (listener_of body at later me) gone (rw kept.2 foe) kept.3)
