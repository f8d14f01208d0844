-- ===== src/Tracker/Dwell/Window.antt =====
-- src/services/tracking-helpers.ts: what camera dwell remembers.
use mathlib.Core.Path.{subst}
use lo_lprox_chat.Common.{
  All-weaken, All-snoc, All-map, All-filter, ℕ, zero, suc, ◌+◌, ◌-◌, ◌≤◌, ◌<◌, ◌≡◌, ◌⊎◌, inl, inr,
  refl, sym, Bool, true, false, ◌&&◌, not, Option, none, some, List, [], ◌∷◌, ◌++◌, map, leb, arith,
  All, if_holds, if◌then◌else◌, Bool-cases,
}
use lo_lprox_chat.Tracker.{Point, distance_sq}
use lo_lprox_chat.Tracker.Nearest.{Found}
use lo_lprox_chat.Tracker.Dwell.{
  ViewportBox, DwellSample, DwellTrack, Matched, reach_sq, is_nearer, find_track, is_in_view,
  is_readable, sample_of, follow_to, new_track, take_sample, place_of, match_icons, is_old,
  drop_old, update, camera_dwell_window_ms, camera_track_ttl_ms,
}

abbrev pub IsAscending : List DwellSample → Type 0
IsAscending [] = Unit
IsAscending (s ∷ samples) = All (λ (u : DwellSample). s.t < u.t) samples × IsAscending samples

-- In view only where the rectangle was read.
abbrev pub IsSound : DwellSample → Type 0
IsSound s = (s.in_view ≡ true) → (s.readable ≡ true)

-- What is known of a track at a time.
pub record IsFollowed (now : ℕ) (t : DwellTrack) : Type 0 where
  ascending : IsAscending t.samples
  known : All (λ (s : DwellSample). s.t ≤ now) t.samples
  sound : All IsSound t.samples

IsAscending-snoc :
    (samples : List DwellSample) (s : DwellSample)
    → IsAscending samples
    → All (λ (u : DwellSample). u.t < s.t) samples
    → IsAscending (samples ++ (s ∷ []))
IsAscending-snoc [] s h before = (tt, tt)
IsAscending-snoc (u ∷ samples) s h before =
    (All-snoc (λ v. u.t < v.t) samples s h.0 before.0, IsAscending-snoc samples s h.1 before.1)

is_in_view-readable :
    (icon : ℕ) (box : Option ViewportBox) (p : Point)
    → is_in_view icon box p ≡ true
    → is_readable box ≡ true
unfolding is_in_view
is_in_view-readable icon none p e = absurd (ground (arith, e))
is_in_view-readable icon (some box) p e = refl

module _ (icon before now dt : ℕ) (box : Option ViewportBox) (later : before < now) where
  abbrev bound : Bool → ℕ
  bound b = if b then now else before

  abbrev IsOk : Matched → Type 0
  IsOk m = IsFollowed (bound m.is_matched) m.track

  follow_to-IsOk :
      (p : Point) (t : DwellTrack)
      → IsFollowed before t
      → IsFollowed now (follow_to p (sample_of icon now dt box p) t)
  unfolding follow_to
  follow_to-IsOk p t h =
      let s = sample_of icon now dt box p in
      record {
        ascending = IsAscending-snoc t.samples s h.ascending (
            All-weaken (λ (u : DwellSample). u.t ≤ before) (λ (u : DwellSample). u.t < now)
              t.samples (λ u k. omega (arith, k, later)) h.known);
        known =
            All-snoc (λ (u : DwellSample). u.t ≤ now) t.samples s
              (All-weaken (λ (u : DwellSample). u.t ≤ before) (λ (u : DwellSample). u.t ≤ now)
                t.samples (λ u k. omega (arith, k, later)) h.known)
              (omega arith);
        sound = All-snoc IsSound t.samples s h.sound (is_in_view-readable icon box p);
      }

  -- What is at a place, if the place is the one of a free track.
  abbrev IsFree : Option ℕ → List Matched → Type 0
  IsFree none tracks = Unit
  IsFree (some i) [] = Unit
  IsFree (some zero) (m ∷ tracks) = m.is_matched ≡ false
  IsFree (some (suc i)) (m ∷ tracks) = IsFree (some i) tracks

  take_sample-IsOk :
      (p : Point) (place : Option ℕ) (tracks : List Matched)
      → IsFree place tracks
      → All IsOk tracks
      → All IsOk (take_sample p (sample_of icon now dt box p) place tracks)
  unfolding take_sample
  take_sample-IsOk p place [] free h =
      (follow_to-IsOk p (new_track p now) (record { ascending = tt; known = tt; sound = tt }), tt)
  take_sample-IsOk p none (m ∷ tracks) free h = (h.0, take_sample-IsOk p none tracks tt h.1)
  take_sample-IsOk p (some zero) (m ∷ tracks) free h =
      (follow_to-IsOk p m.track (let k = h.0 in rw free at k), h.1)
  take_sample-IsOk p (some (suc i)) (m ∷ tracks) free h =
      (h.0, take_sample-IsOk p (some i) tracks free h.1)

  bound-IsFollowed : (b : Bool) (t : DwellTrack) → IsFollowed (bound b) t → IsFollowed now t
  bound-IsFollowed true t h = h
  bound-IsFollowed false t h = record {
    ascending = h.ascending;
    known =
        All-weaken (λ (u : DwellSample). u.t ≤ before) (λ (u : DwellSample). u.t ≤ now) t.samples
          (λ u k. omega (arith, k, later)) h.known;
    sound = h.sound;
  }

  find_track-from :
      (p : Point) (i : ℕ) (best : Option Found) (tracks : List Matched) (f : Found)
      → find_track icon now p i best tracks ≡ some f
      → (best ≡ some f) ⊎ ((j : ℕ) × (f.place ≡ i + j) × IsFree (some j) tracks)
  unfolding find_track
  find_track-from p i best [] f e = inl e
  find_track-from p i best (m ∷ tracks) f e =
      let d_sq = distance_sq m.track.at p in
      let free =
        not m.is_matched
        && (leb d_sq (reach_sq icon (now - m.track.last_ms)) && is_nearer d_sq best) in
      let next = if free then some (record { place = i; d_sq = d_sq }) else best in
      elim (find_track-from p (suc i) next tracks f e) [
        | inl here ↦ elim (Bool-cases free) [
          | inl taken ↦ inr (0, ground (arith, here, taken), ground (arith, taken))
          | inr passed ↦ inl (let k : next ≡ some f = here in rw passed at k)
        ]
        | inr (j, place, is) ↦ inr (suc j, omega (arith, place), is)
      ]

  place_of-IsFree :
      (tracks : List Matched) (found : Option Found)
      → ((f : Found) → found ≡ some f → (j : ℕ) × (f.place ≡ j) × IsFree (some j) tracks)
      → IsFree (place_of found) tracks
  place_of-IsFree tracks none h = tt
  place_of-IsFree tracks (some f) h =
      let (j, e, free) = h f refl in subst (λ j. IsFree (some j) tracks) (sym e) free

  find_track-IsFree :
      (p : Point) (tracks : List Matched)
      → IsFree (place_of (find_track icon now p 0 none tracks)) tracks
  find_track-IsFree p tracks = place_of-IsFree tracks (find_track icon now p 0 none tracks) (λ f e.
      elim (find_track-from p 0 none tracks f e) [
        | inl nothing ↦ absurd (ground (arith, nothing))
        | inr (j, place, free) ↦ (j, omega (arith, place), free)
      ])

  match_icons-IsOk :
      (icons : List Point) (tracks : List Matched)
      → All IsOk tracks
      → All IsOk (match_icons icon now dt box tracks icons)
  unfolding match_icons
  match_icons-IsOk [] tracks h = h
  match_icons-IsOk (p ∷ icons) tracks h = match_icons-IsOk icons _ (
      take_sample-IsOk p (place_of (find_track icon now p 0 none tracks)) tracks
        (find_track-IsFree p tracks) h)

-- The part of a list that drop_old leaves.
drop_old-All :
    (P : DwellSample → Type 0) (now : ℕ) (samples : List DwellSample)
    → All P samples
    → All P (drop_old now samples)
unfolding drop_old
drop_old-All P now [] h = tt
drop_old-All P now (s ∷ samples) h =
    if_holds (All P) (is_old now s) (drop_old now samples) (s ∷ samples)
      (λ e. drop_old-All P now samples h.1) (λ e. h)

drop_old-IsAscending :
    (now : ℕ) (samples : List DwellSample)
    → IsAscending samples
    → IsAscending (drop_old now samples)
unfolding drop_old
drop_old-IsAscending now [] h = tt
drop_old-IsAscending now (s ∷ samples) h =
    if_holds IsAscending (is_old now s) (drop_old now samples) (s ∷ samples)
      (λ e. drop_old-IsAscending now samples h.1) (λ e. h)

abbrev pub IsRecent : ℕ → DwellSample → Type 0
IsRecent now s = now < s.t + camera_dwell_window_ms

-- Since the samples ascend, the first that stays shows that all do.
drop_old-IsRecent :
    (now : ℕ) (samples : List DwellSample)
    → IsAscending samples
    → All (IsRecent now) (drop_old now samples)
unfolding drop_old
drop_old-IsRecent now [] h = tt
drop_old-IsRecent now (s ∷ samples) h =
    if_holds (All (IsRecent now)) (is_old now s) (drop_old now samples) (s ∷ samples)
      (λ e. drop_old-IsRecent now samples h.1)
      (λ e.
        let first : now < s.t + camera_dwell_window_ms = ground arith in
        (
          first,
          All-weaken (λ (u : DwellSample). s.t < u.t) (IsRecent now) samples
              (λ u k. omega (arith, k, first)) h.0,
        ))

-- What a track holds after an update at a time: samples of the last half minute, one a frame, of an
-- icon that was seen in the last five seconds.
pub record IsInWindow (now : ℕ) (t : DwellTrack) : Type 0 where
  pub ascending : IsAscending t.samples
  pub known : All (λ (s : DwellSample). s.t ≤ now) t.samples
  pub recent : All (IsRecent now) t.samples
  pub sound : All IsSound t.samples
  pub seen : now - t.last_ms ≤ camera_track_ttl_ms

forget-IsInWindow : (now : ℕ) (t : DwellTrack) → IsInWindow now t → IsFollowed now t
forget-IsInWindow now t h = record { ascending = h.ascending; known = h.known; sound = h.sound }

pub update-IsInWindow :
    (icon before now dt : ℕ) (box : Option ViewportBox) (tracks : List DwellTrack)
    (icons : List Point)
    → before < now
    → All (IsInWindow before) tracks
    → All (IsInWindow now) (update icon now dt box tracks icons)
unfolding update
update-IsInWindow icon before now dt box tracks icons later h =
    let free = map (λ (t : DwellTrack). record { track = t; is_matched = false }) tracks in
    let matched = match_icons icon now dt box free icons in
    let found : All (IsOk icon before now dt box later) matched =
      match_icons-IsOk icon before now dt box later icons free (
        All-map (IsInWindow before) (IsOk icon before now dt box later)
          (λ (t : DwellTrack). record { track = t; is_matched = false }) tracks
          (λ t k. forget-IsInWindow before t k) h) in
    let all : All (IsFollowed now) (map (λ (m : Matched). m.track) matched) =
      All-map (IsOk icon before now dt box later) (IsFollowed now) (λ (m : Matched). m.track)
        matched (λ m k. bound-IsFollowed icon before now dt box later m.is_matched m.track k)
        found in
    All-map
      (λ (t : DwellTrack). IsFollowed now t × (leb (now - t.last_ms) camera_track_ttl_ms ≡ true))
      (IsInWindow now) (λ (t : DwellTrack). record t { samples = drop_old now t.samples }) _
      (λ t k. record {
        ascending = drop_old-IsAscending now t.samples k.0.ascending;
        known = drop_old-All (λ (s : DwellSample). s.t ≤ now) now t.samples k.0.known;
        recent = drop_old-IsRecent now t.samples k.0.ascending;
        sound = drop_old-All IsSound now t.samples k.0.sound;
        seen = let e = k.1 in ground arith;
      })
      (All-filter (IsFollowed now) (λ (t : DwellTrack). leb (now - t.last_ms) camera_track_ttl_ms) _
        all)
