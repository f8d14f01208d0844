-- ===== src/Volumes/Tiered/Allies.antt =====
-- How allies are heard in `computeTieredVolumes` of server/src/volumes.ts.
use lo_lprox_chat.Common.{
  ℕ, ◌+◌, ◌≤◌, ◌<◌, false, ◌≡◌, refl, ◌∙◌, ◌⊎◌, inl, inr, true, Option, none, some, [], ◌∷◌, arith,
  In, Option-cases, Bool-cases, ltb, ltb→lt,
}
use lo_lprox_chat.Client.{Client, Point, Stamped}
use lo_lprox_chat.Rooms.{lost_ally_anchor_ms}
use lo_lprox_chat.Volumes.Distance.{hypot}
use lo_lprox_chat.Volumes.Distance.Nearest.{closest_approach_lem}
use lo_lprox_chat.Volumes.Curve.{max_hearing_range, full_volume}
use lo_lprox_chat.Volumes.Tiered.{
  keep_if, is_since, Listener, hear, hear_at, hear_ally, my_points, ally_anchor, are_allies, latest,
}
use lo_lprox_chat.Volumes.Tiered.Hearing.{IsInRange, keep_if-since, hear_at-IsInRange}

-- What is reported, if anything, is not after `time`.
abbrev pub NotAfter : ℕ → Option Stamped → Type 0
NotAfter time none = Unit
NotAfter time (some p) = p.updated_ms ≤ time

-- `a` is the latest place that is known of the peer, and was reported in the last 20 s.
pub record IsPlaced (now : ℕ) (position last_seen : Option Stamped) (a : Stamped) : Type 0 where
  pub reported : (position ≡ some a) ⊎ (last_seen ≡ some a)
  pub after_position : NotAfter a.updated_ms position
  pub after_last_seen : NotAfter a.updated_ms last_seen
  pub recent : now ≤ a.updated_ms + 20000

-- What is reported, if anything, is older than 20 s.
abbrev pub IsOld : ℕ → Option Stamped → Type 0
IsOld now none = Unit
IsOld now (some p) = p.updated_ms + 20000 < now

latest-IsOld :
    (now : ℕ) (position last_seen : Option Stamped)
    → keep_if (is_since now lost_ally_anchor_ms) (latest position last_seen) ≡ none
    → IsOld now position × IsOld now last_seen
latest-IsOld now none none e = (tt, tt)
latest-IsOld now none (some q) e = (tt, ground arith)
latest-IsOld now (some p) none e = (ground arith, tt)
latest-IsOld now (some p) (some q) e = elim (Bool-cases (ltb p.updated_ms q.updated_ms)) [
  | inl later ↦
      let old : q.updated_ms + 20000 < now = let k = rw later at e in ground (arith, k) in
      (omega (arith, ltb→lt p.updated_ms q.updated_ms later, old), old)
  | inr not_later ↦
      let old : p.updated_ms + 20000 < now = let k = rw not_later at e in ground (arith, k) in
      (old, ground (arith, not_later, old))
]

ally_anchor-IsOld :
    (peer : Client) (now : ℕ)
    → ally_anchor peer now ≡ none
    → IsOld now peer.position × IsOld now peer.last_seen
unfolding ally_anchor
ally_anchor-IsOld peer now e = latest-IsOld now peer.position peer.last_seen e

latest-reported :
    (position last_seen : Option Stamped) (a : Stamped)
    → latest position last_seen ≡ some a
    → ((position ≡ some a) ⊎ (last_seen ≡ some a))
      × NotAfter a.updated_ms position
      × NotAfter a.updated_ms last_seen
latest-reported none none a e = cc
latest-reported none (some q) a e = (inr e, tt, ground arith)
latest-reported (some p) none a e = (inl e, ground arith, tt)
latest-reported (some p) (some q) a e = elim (Bool-cases (ltb p.updated_ms q.updated_ms)) [
  | inl later ↦
      let same : some q ≡ some a = rw later at e in
      (inr same, ground (arith, ltb→lt p.updated_ms q.updated_ms later), ground arith)
  | inr not_later ↦
      let same : some p ≡ some a = rw not_later at e in
      (inl same, ground arith, ground (arith, not_later))
]

ally_anchor-IsPlaced :
    (peer : Client) (now : ℕ) (a : Stamped)
    → ally_anchor peer now ≡ some a
    → IsPlaced now peer.position peer.last_seen a
unfolding ally_anchor
ally_anchor-IsPlaced peer now a e =
    let (some_latest, recent) =
      keep_if-since now lost_ally_anchor_ms (latest peer.position peer.last_seen) a e in
    let (reported, after_position, after_last_seen) =
      latest-reported peer.position peer.last_seen a some_latest in
    record {
      reported = reported;
      after_position = after_position;
      after_last_seen = after_last_seen;
      recent = recent;
    }

hear_at-none :
    (l : Listener) (peer : Client) (p q : Point)
    → hear_at l peer p ≡ none
    → In q (my_points l peer)
    → max_hearing_range ≤ hypot q p
unfolding hear_at
hear_at-none l peer p q e m =
    ground (arith, (closest_approach_lem (my_points l peer) (p ∷ [])).1 q p m (inl refl))

-- An ally is heard at full volume if the requester has ally proximity off, or if no place of the ally
-- was reported in the last 20 s. Otherwise it is heard from the latest such place, at the volume of the
-- least distance, or not at all if that is out of range.
pub hear_ally_lem :
    (l : Listener) (peer : Client)
    → are_allies l.me.team peer.team ≡ true
    → ((hear l peer ≡ some full_volume)
        × ((l.ally_proximity ≡ false) ⊎ (IsOld l.now peer.position × IsOld l.now peer.last_seen)))
      ⊎ ((a : Stamped) × (l.ally_proximity ≡ true)
          × IsPlaced l.now peer.position peer.last_seen a
          × (((hear l peer ≡ none)
                × ((q : Point) → In q (my_points l peer) → max_hearing_range ≤ hypot q a.point))
              ⊎ ((volume : ℕ) × (hear l peer ≡ some volume) × IsInRange l peer a.point volume)))
unfolding hear hear_ally
hear_ally_lem l peer ally = elim (Option-cases (ally_anchor peer l.now)) [
  | inl nowhere ↦ inl (rw (ally, nowhere) refl, inr (ally_anchor-IsOld peer l.now nowhere))
  | inr (a, placed) ↦ elim (Bool-cases l.ally_proximity) [
    | inr off ↦ inl (rw (ally, placed, off) refl, inl off)
    | inl on ↦
        let result : hear l peer ≡ hear_at l peer a.point = rw (ally, placed, on) refl in
        inr (
          a,
          on,
          ally_anchor-IsPlaced peer l.now a placed,
          elim (Option-cases (hear_at l peer a.point)) [
            | inl out ↦ inl (result ∙ out, λ q. hear_at-none l peer a.point q out)
            | inr (volume, heard) ↦
                inr (volume, result ∙ heard, hear_at-IsInRange l peer a.point volume heard)
          ],
        )
  ]
]
