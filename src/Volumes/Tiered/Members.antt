-- ===== src/Volumes/Tiered/Members.antt =====
-- What the answer of `computeTieredVolumes` (server/src/volumes.ts) may say of the members of a room,
-- after whatever the handlers of server/src/ws-handler.ts did.
use lo_lprox_chat.Common.{
  ℕ, String, ◌≡◌, ◌≢◌, sym, ◌∙◌, ap, ◌⊎◌, inl, inr, true, none, some, arith, ◌==◌, string_eq, ◌||◌,
  if◌then◌else◌, Bool-cases, Option-cases,
}
use text.Mathlib.TextEquality.{eq_iff}
use lo_lprox_chat.Common.Dict.{Dict, lookup}
use lo_lprox_chat.Client.{Client, Point}
use lo_lprox_chat.Rooms.{Rooms, bind, find_in_room, get_room_clients}
use lo_lprox_chat.Rooms.Invariant.{Inv}
use lo_lprox_chat.Volumes.Request.{VolumeRequest, peer_volumes, passed, check_request}
use lo_lprox_chat.Volumes.Tiered.{Listener, listener_of, hear, are_allies, compute_tiered_volumes}
use lo_lprox_chat.Volumes.Tiered.Answer.{compute_tiered_volumes_lem}
use lo_lprox_chat.Volumes.Tiered.Hearing.{IsHeardFresh, hear-IsHeardFresh}

-- What an entry of the answer says.
entry-found :
    (s : Rooms) (l : Listener) (room mine name : String) (volume : ℕ)
    → some volume ≡ (
        if name == mine || name == "__proto__"
        then none
        else bind (find_in_room s room name) (hear l))
    → (peer : Client) × (find_in_room s room name ≡ some peer)
      × (name ≢ mine)
      × (hear l peer ≡ some volume)
entry-found s l room mine name volume e = elim (Bool-cases (name == mine || name == "__proto__")) [
  | inl own ↦ absurd (ground (arith, own))
  | inr other ↦ elim (Option-cases (find_in_room s room name)) [
    | inl nobody ↦ absurd (ground (arith, other, nobody))
    | inr (peer, found) ↦ (
      peer,
      found,
      λ same. ground (arith, other, (eq_iff name mine).1 same),
      sym (rw (other, found) at e),
    )
  ]
]

-- The requester is in the room that it names. Then every entry of the answer is for another member
-- of the room: an ally, or one that stood in the last 5 s within the hearing range of a point that
-- the requester hears it from.
pub compute_tiered_volumes-IsHeardFresh :
    (s : Rooms) (body : VolumeRequest) (now : ℕ) (at : Point) (room mine : String) (me : Client)
    (v : Dict String ℕ) (name : String) (volume : ℕ)
    → Inv s
    → check_request body ≡ passed at room mine
    → find_in_room s room mine ≡ some me
    → compute_tiered_volumes body now (get_room_clients s) ≡ peer_volumes v
    → lookup name v ≡ some volume
    → (peer : Client) × (find_in_room s room name ≡ some peer)
      × (name ≢ mine)
      × ((are_allies me.team peer.team ≡ true)
          ⊎ IsHeardFresh (listener_of body at now me) peer peer.position volume)
unfolding listener_of
compute_tiered_volumes-IsHeardFresh s body now at room mine me v name volume i ok here answered e =
    let (w, same, entries) = compute_tiered_volumes_lem s body now at room mine me i ok here in
    let same_answer : w ≡ v = cc (same, answered) in
    let l = listener_of body at now me in
    let (peer, found, other, heard) =
      entry-found s l room mine name volume
        (sym e ∙ ap (lookup name) (sym same_answer) ∙ entries name) in
    (
      peer,
      found,
      other,
      elim (Bool-cases (are_allies me.team peer.team)) [
        | inl ally ↦ inl ally
        | inr foe ↦ inr (hear-IsHeardFresh l peer volume foe heard).1
      ],
    )
