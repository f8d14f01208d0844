-- ===== src/Volumes/Tiered/Hearing.antt =====
-- Who is heard in `computeTieredVolumes` of server/src/volumes.ts, and from where.
use lo_lprox_chat.Common.{
  ℕ, ◌+◌, ◌≤◌, ◌<◌, ◌≡◌, refl, inl, inr, false, Option, none, some, [], ◌∷◌, arith, In, Bool-cases,
  leb→le,
}
use lo_lprox_chat.Client.{Client, Point, Stamped}
use lo_lprox_chat.Volumes.Distance.{hypot, closest_approach}
use lo_lprox_chat.Volumes.Distance.Nearest.{IsApart, Reaches, AtMost, closest_approach_lem}
use lo_lprox_chat.Volumes.Curve.{max_hearing_range, calculate_volume}
use lo_lprox_chat.Volumes.Curve.Laws.{calculate_volume_lem}
use lo_lprox_chat.Volumes.Tiered.{
  Listener, hear, hear_at, hear_fresh, my_points, are_allies, is_since, stale_position_ms, keep_if,
  audible,
}

-- What is kept was there, and is not too old.
pub keep_if-since :
    (now age_ms : ℕ) (o : Option Stamped) (p : Stamped)
    → keep_if (is_since now age_ms) o ≡ some p
    → (o ≡ some p) × (now ≤ p.updated_ms + age_ms)
keep_if-since now age_ms none p e = cc
keep_if-since now age_ms (some q) p e = elim (Bool-cases (is_since now age_ms q)) [
  | inl since ↦
      let same : some q ≡ some p = rw since at e in
      (same, ground (arith, leb→le now (q.updated_ms + age_ms) since))
  | inr stale ↦ absurd (ground (arith, stale))
]

-- The nearest point that the requester hears a peer at `p` from is `distance` away, within the
-- hearing range, and `volume` is that of this distance.
pub record IsInRange (l : Listener) (peer : Client) (p : Point) (volume : ℕ) : Type 0 where
  pub distance : ℕ
  pub reached : IsApart (my_points l peer) (p ∷ []) distance
  pub nearest : (q : Point) → In q (my_points l peer) → distance ≤ hypot q p
  pub near : distance < max_hearing_range
  pub loudness : volume ≡ calculate_volume distance
  pub positive : 0 < volume

audible-IsInRange :
    (l : Listener) (peer : Client) (p : Point) (volume : ℕ) (o : Option ℕ)
    → Reaches (IsApart (my_points l peer) (p ∷ [])) o
    → ((q r : Point) → In q (my_points l peer) → In r (p ∷ []) → AtMost o (hypot q r))
    → audible o ≡ some volume
    → IsInRange l peer p volume
audible-IsInRange l peer p volume none apart least e = cc
audible-IsInRange l peer p volume (some d) apart least e = record {
  distance = d;
  reached = apart;
  nearest = λ q m. least q p m (inl refl);
  near = ground arith;
  loudness = ground arith;
  positive = ground (arith, calculate_volume_lem d);
}

pub hear_at-IsInRange :
    (l : Listener) (peer : Client) (p : Point) (volume : ℕ)
    → hear_at l peer p ≡ some volume
    → IsInRange l peer p volume
unfolding hear_at
hear_at-IsInRange l peer p volume e =
    let nearest = closest_approach_lem (my_points l peer) (p ∷ []) in
    audible-IsInRange l peer p volume (closest_approach (my_points l peer) (p ∷ [])) nearest.0
      nearest.1 e

-- `peer` is heard at `volume` from where it has stood in the last 5 s.
pub record IsHeardFresh (l : Listener) (peer : Client) (o : Option Stamped) (volume : ℕ)
    : Type 0 where
  pub place : Stamped
  pub reported : o ≡ some place
  pub fresh : l.now ≤ place.updated_ms + 5000
  pub in_range : IsInRange l peer place.point volume

hear_fresh-IsHeardFresh :
    (l : Listener) (peer : Client) (o : Option Stamped) (volume : ℕ)
    → hear_fresh l peer o ≡ some volume
    → IsHeardFresh l peer o volume
unfolding hear_fresh
hear_fresh-IsHeardFresh l peer none volume e = cc
hear_fresh-IsHeardFresh l peer (some p) volume e =
    elim (Bool-cases (is_since l.now stale_position_ms p)) [
      | inl since ↦ record {
        place = p;
        reported = refl;
        fresh = leb→le l.now (p.updated_ms + 5000) since;
        in_range = hear_at-IsInRange l peer p.point volume (rw since at e);
      }
      | inr stale ↦ absurd (ground (arith, stale, e))
    ]

-- One who is no ally is heard only from where it has stood in the last 5 s, if that is nearer than
-- the hearing range to a point that the requester hears it from, and at the volume of the least
-- such distance; and only by a requester who did not ask for allies only.
pub hear-IsHeardFresh :
    (l : Listener) (peer : Client) (volume : ℕ)
    → are_allies l.me.team peer.team ≡ false
    → hear l peer ≡ some volume
    → (l.allies_only ≡ false) × IsHeardFresh l peer peer.position volume
unfolding hear
hear-IsHeardFresh l peer volume foe e = elim (Bool-cases l.allies_only) [
  | inl only ↦ absurd (ground (arith, foe, only, e))
  | inr all ↦ (all, hear_fresh-IsHeardFresh l peer peer.position volume (rw (foe, all) at e))
]
