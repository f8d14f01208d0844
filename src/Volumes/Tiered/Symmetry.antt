-- ===== src/Volumes/Tiered/Symmetry.antt =====
-- Two players who are no allies hear each other alike in `computeTieredVolumes` of
-- server/src/volumes.ts.
use lo_lprox_chat.Common.{◌+◌, ◌≤◌, ◌≡◌, refl, sym, ◌∙◌, ap, false, Option, none, some, le→leb}
use lo_lprox_chat.Client.{Client, Stamped, Team, order, chaos}
use lo_lprox_chat.Volumes.Distance.{hypot, hypot_comm, closest_approach, approach, approach_from}
use lo_lprox_chat.Volumes.Tiered.{
  Listener, hear, hear_at, hear_fresh, my_points, are_allies, audible,
}

are_allies_comm : (a b : Option Team) → are_allies a b ≡ are_allies b a
are_allies_comm none none = refl
are_allies_comm none (some t) = refl
are_allies_comm (some t) none = refl
are_allies_comm (some order) (some order) = refl
are_allies_comm (some order) (some chaos) = refl
are_allies_comm (some chaos) (some order) = refl
are_allies_comm (some chaos) (some chaos) = refl

-- Champion to champion.
hear-alone :
    (l : Listener) (peer : Client) (p : Stamped)
    → are_allies l.me.team peer.team ≡ false
    → l.allies_only ≡ false
    → l.my_camera ≡ none
    → peer.position ≡ some p
    → l.now ≤ p.updated_ms + 5000
    → hear l peer ≡ audible (some (hypot l.at p.point))
unfolding hear hear_fresh hear_at my_points closest_approach approach approach_from
hear-alone l peer p foe all no_camera there fresh =
    rw (foe, all, there, le→leb l.now (p.updated_ms + 5000) fresh, no_camera) refl

-- Two players who are no allies and have stood where they say in the last 5 s hear each other at
-- one volume, or both not at all, if neither listens from a camera.
pub hear_symmetric :
    (a b : Listener) (p q : Stamped)
    → are_allies a.me.team b.me.team ≡ false
    → a.allies_only ≡ false
    → b.allies_only ≡ false
    → a.my_camera ≡ none
    → b.my_camera ≡ none
    → a.me.position ≡ some p
    → b.me.position ≡ some q
    → a.at ≡ p.point
    → b.at ≡ q.point
    → a.now ≤ q.updated_ms + 5000
    → b.now ≤ p.updated_ms + 5000
    → hear a b.me ≡ hear b a.me
hear_symmetric a b p q foe all all' alone alone' there there' here here' fresh fresh' =
    hear-alone a b.me q foe all alone there' fresh
    ∙ ap (λ d. audible (some d))
        (ap (λ x. hypot x q.point) here
          ∙ hypot_comm p.point q.point
          ∙ ap (λ x. hypot x p.point) (sym here'))
    ∙ sym (hear-alone b a.me p (are_allies_comm b.me.team a.me.team ∙ foe) all' alone' there fresh')
