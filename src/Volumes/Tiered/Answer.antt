-- ===== src/Volumes/Tiered/Answer.antt =====
-- Whom the answer of `computeTieredVolumes` (server/src/volumes.ts) names, over the rooms of
-- server/src/rooms.ts.
use lo_lprox_chat.Common.{
  ℕ, String, ◌≡◌, refl, ◌∙◌, ap, none, some, [], map, ◌==◌, string_eq, ◌||◌, if◌then◌else◌,
}
use text.Mathlib.TextEquality.{eq_iff}
use lo_lprox_chat.Common.Dict.{Dict, lookup}
use lo_lprox_chat.Client.{Client, Point}
use lo_lprox_chat.Rooms.{Rooms, bind, members, find_in_room, get_room_clients}
use lo_lprox_chat.Rooms.Entries.{find-holds}
use lo_lprox_chat.Rooms.Invariant.{Inv}
use lo_lprox_chat.Volumes.Entries.{assign_all-found}
use lo_lprox_chat.Volumes.Request.{VolumeRequest, peer_volumes, passed, check_request}
use lo_lprox_chat.Volumes.Tiered.{
  listener_of, hear, hear_all, answer, answer_checked, compute_tiered_volumes,
}

-- The requester is in the room that it names. Then the answer gives every other member but one named
-- `__proto__` the volume at which the requester hears it, and names nobody else, the requester
-- included.
pub compute_tiered_volumes_lem :
    (s : Rooms) (body : VolumeRequest) (now : ℕ) (at : Point) (room mine : String) (me : Client)
    → Inv s
    → check_request body ≡ passed at room mine
    → find_in_room s room mine ≡ some me
    → (v : Dict String ℕ) × (compute_tiered_volumes body now (get_room_clients s) ≡ peer_volumes v)
      × ((name : String)
          → lookup name v ≡ (
              if name == mine || name == "__proto__"
              then none
              else bind (find_in_room s room name) (hear (listener_of body at now me))))
unfolding compute_tiered_volumes find_in_room get_room_clients listener_of hear_all
compute_tiered_volumes_lem s body now at room mine me v ok here = (
  hear_all (listener_of body at now me) (map s.heap (members s room)) [],
  rw (ok, answer_checked) (rw (here, answer) refl),
  λ name.
      let own : me.name ≡ mine =
        (eq_iff me.name mine).0
          (find-holds (λ c. c.name == mine) (map s.heap (members s room)) me here) in
      let others = bind (find_in_room s room name) (hear (listener_of body at now me)) in
      assign_all-found me.name (hear (listener_of body at now me)) s.heap (members s room) name
        (v.distinct room)
      ∙ ap (λ n. if name == n || name == "__proto__" then none else others) own,
)
