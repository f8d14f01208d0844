-- ===== src/Volumes/FromRoom/Answer.antt =====
-- Whom the answer of `computeVolumesFromRoom` (server/src/volumes.ts) names, over the rooms.
use lo_lprox_chat.Common.{
  ℕ, ◌-◌, String, ◌≡◌, refl, ◌∙◌, Option, none, some, List, [], ◌∷◌, map, arith, ◌==◌, string_eq,
  ◌||◌, if◌then◌else◌, Option-cases, inl, inr,
}
use lo_lprox_chat.Common.Dict.{Dict, lookup}
use lo_lprox_chat.Client.{Client, Point}
use lo_lprox_chat.Rooms.{
  Rooms, RoomPosition, bind, members, find_in_room, fresh_position, fresh_positions,
  get_room_positions,
}
use lo_lprox_chat.Rooms.Invariant.{Inv}
use lo_lprox_chat.Volumes.Distance.{hypot}
use lo_lprox_chat.Volumes.Curve.{calculate_volume}
use lo_lprox_chat.Volumes.Request.{VolumeRequest, peer_volumes, passed, check_request}
use lo_lprox_chat.Volumes.Tiered.{keep_if, is_since, stale_position_ms}
use lo_lprox_chat.Volumes.Entries.{assign, assign_all, assign_all-found}
use lo_lprox_chat.Volumes.FromRoom.{volumes_at, from_room_checked, compute_volumes_from_room}

-- The volume of one client: by its distance, if its position is fresh.
abbrev pub fresh_volume : Point → ℕ → Client → Option ℕ
fresh_volume at now c =
    bind (keep_if (is_since now stale_position_ms) c.position)
      (λ p. some (calculate_volume (hypot at p.point)))

volumes_at-fresh :
    (at : Point) (mine : String) (now : ℕ) (c : Client) (ps : List RoomPosition)
    (out : Dict String ℕ)
    → volumes_at at (fresh_position mine (now - stale_position_ms) c ps) out
      ≡ volumes_at at ps (if c.name == mine then out else assign c.name (fresh_volume at now c) out)
unfolding volumes_at fresh_position
volumes_at-fresh at mine now c ps out = elim (Option-cases c.position) [
  | inl nowhere ↦ rw nowhere (ground arith)
  | inr (p, there) ↦ rw there (ground arith)
]

volumes_at-assign_all :
    (at : Point) (mine : String) (now : ℕ) (cs : List Client) (out : Dict String ℕ)
    → volumes_at at (fresh_positions mine (now - stale_position_ms) cs) out
      ≡ assign_all mine (fresh_volume at now) cs out
unfolding volumes_at fresh_positions assign_all
volumes_at-assign_all at mine now [] out = refl
volumes_at-assign_all at mine now (c ∷ cs) out =
    volumes_at-fresh at mine now c (fresh_positions mine (now - stale_position_ms) cs) out
    ∙ volumes_at-assign_all at mine now cs
        (if c.name == mine then out else assign c.name (fresh_volume at now c) out)

-- The answer gives every other member of the room that has reported its position in the last 5 s
-- the volume of its distance, except one named `__proto__`, and names nobody else.
pub compute_volumes_from_room_lem :
    (s : Rooms) (body : VolumeRequest) (now : ℕ) (at : Point) (room mine : String)
    → Inv s
    → check_request body ≡ passed at room mine
    → (v : Dict String ℕ) × (compute_volumes_from_room body
          (λ r except stale_ms. get_room_positions s r except stale_ms now)
        ≡ peer_volumes v)
      × ((name : String)
          → lookup name v ≡ (
              if name == mine || name == "__proto__"
              then none
              else bind (find_in_room s room name) (fresh_volume at now)))
unfolding compute_volumes_from_room find_in_room get_room_positions
compute_volumes_from_room_lem s body now at room mine v ok =
    let clients = map s.heap (members s room) in
    (
      volumes_at at (fresh_positions mine (now - stale_position_ms) clients) [],
      rw (ok, from_room_checked) refl,
      λ name. rw (volumes_at-assign_all at mine now clients []) (
          assign_all-found mine (fresh_volume at now) s.heap (members s room) name
            (v.distinct room)),
    )
