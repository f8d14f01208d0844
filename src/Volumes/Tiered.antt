-- ===== src/Volumes/Tiered.antt =====
-- `computeTieredVolumes` of server/src/volumes.ts: allies are heard as the requester wants them,
-- others by their distance. The trace that DEBUG_VOLUMES turns on is left out.
pub mod Answer
pub mod Hearing
pub mod Allies
pub mod Camera
pub mod Members
pub mod Disowned
pub mod Symmetry
use lo_lprox_chat.Common.{
  ℕ, ◌+◌, String, Bool, true, false, not, ◌&&◌, ◌||◌, Option, none, some, List, [], ◌∷◌, leb, ltb,
  ◌==◌, string_eq, if◌then◌else◌,
}
use lo_lprox_chat.Common.Dict.{Dict, insert}
use lo_lprox_chat.Json.{is_true, is_falsy}
use lo_lprox_chat.Client.{Client, Team, Point, Stamped, same_team}
use lo_lprox_chat.Rooms.{find, or_else, lost_ally_anchor_ms}
use lo_lprox_chat.Volumes.Distance.{closest_approach}
use lo_lprox_chat.Volumes.Curve.{max_hearing_range, full_volume, calculate_volume}
use lo_lprox_chat.Volumes.Entries.{assign_all}
use lo_lprox_chat.Volumes.Request.{
  VolumeRequest, VolumeResponse, peer_volumes, throws, Checked, passed, failed, check_request,
}

-- `STALE_POSITION_MS`.
abbrev pub stale_position_ms : ℕ
stale_position_ms = 5000

-- Stamped at `now - age_ms` or later.
abbrev pub is_since : ℕ → ℕ → Stamped → Bool
is_since now age_ms p = leb now (p.updated_ms + age_ms)

abbrev pub is_some {ℓ} : {A : Type ℓ} → Option A → Bool
is_some none = false
is_some (some _) = true

-- Only what has the property stays.
abbrev pub keep_if {ℓ} : {A : Type ℓ} → (A → Bool) → Option A → Option A
keep_if p none = none
keep_if p (some a) = if p a then some a else none

-- The head of `[a, b]` without what is absent, sorted by falling time; the sort is stable.
abbrev pub latest : Option Stamped → Option Stamped → Option Stamped
latest none b = b
latest (some p) none = some p
latest (some p) (some q) = some (if ltb p.updated_ms q.updated_ms then q else p)

unfoldable pub ally_anchor : Client → ℕ → Option Stamped
ally_anchor peer now =
    keep_if (is_since now lost_ally_anchor_ms) (latest peer.position peer.last_seen)

-- What the loop over the peers knows: the requester, where it says it is, what it asks for, the
-- time, and its own camera if that is fresh.
pub record Listener : Type 0 where
  pub me : Client
  pub at : Point
  pub ally_proximity : Bool
  pub allies_only : Bool
  pub now : ℕ
  pub my_camera : Option Stamped

unfoldable pub listener_of : VolumeRequest → Point → ℕ → Client → Listener
listener_of body at now me = record {
  me = me;
  at = at;
  ally_proximity = not (is_falsy body.ally_proximity);
  allies_only = is_true body.allies_only;
  now = now;
  my_camera = keep_if (is_since now stale_position_ms) me.camera;
}

-- `!legacy && peer.team === me.team`.
abbrev pub are_allies : Option Team → Option Team → Bool
are_allies none peer = false
are_allies (some mine) none = false
are_allies (some mine) (some theirs) = same_team mine theirs

-- The points that the requester hears the peer from.
unfoldable pub my_points : Listener → Client → List Point
my_points l peer = elim l.my_camera [
  | none ↦ l.at ∷ []
  | some c ↦
      if is_some (keep_if (is_since l.now stale_position_ms) peer.camera)
      then l.at ∷ c.point ∷ []
      else l.at ∷ []
]

-- The volume at a distance, or no entry.
abbrev pub audible : Option ℕ → Option ℕ
audible none = none
audible (some d) = if leb max_hearing_range d then none else some (calculate_volume d)

unfoldable pub hear_at : Listener → Client → Point → Option ℕ
unfolding my_points
hear_at l peer p = audible (closest_approach (my_points l peer) (p ∷ []))

-- A peer that has to have a fresh position.
unfoldable pub hear_fresh : Listener → Client → Option Stamped → Option ℕ
unfolding hear_at
hear_fresh l peer none = none
hear_fresh l peer (some p) =
    if is_since l.now stale_position_ms p then hear_at l peer p.point else none

unfoldable pub hear_ally : Listener → Client → Option Stamped → Option ℕ
unfolding hear_at
hear_ally l peer none = some full_volume
hear_ally l peer (some anchor) =
    if l.ally_proximity then hear_at l peer anchor.point else some full_volume

-- One round of the loop: the volume that the peer gets, if any.
unfoldable pub hear : Listener → Client → Option ℕ
unfolding ally_anchor hear_ally hear_fresh
hear l peer =
    if are_allies l.me.team peer.team
    then hear_ally l peer (ally_anchor peer l.now)
    else if l.allies_only
    then none
    else hear_fresh l peer peer.position

-- The loop, from the entries made so far.
unfoldable pub hear_all : Listener → List Client → Dict String ℕ → Dict String ℕ
unfolding hear assign_all
hear_all l peers out = assign_all l.me.name (hear l) peers out

unfoldable pub answer : VolumeRequest → Point → ℕ → List Client → Option Client → VolumeResponse
unfolding listener_of hear_all
answer body at now clients none = peer_volumes []
answer body at now clients (some me) =
    peer_volumes (hear_all (listener_of body at now me) clients [])

unfoldable pub answer_checked :
    VolumeRequest → ℕ → (String → List Client) → Checked → VolumeResponse
unfolding answer find
answer_checked body now get_room_clients (failed e) = throws e
answer_checked body now get_room_clients (passed at room name) =
    let clients = get_room_clients room in
    answer body at now clients (find (λ c. c.name == name) clients)

unfoldable pub compute_tiered_volumes : VolumeRequest → ℕ → (String → List Client) → VolumeResponse
unfolding answer_checked check_request
compute_tiered_volumes body now get_room_clients =
    answer_checked body now get_room_clients (check_request body)
