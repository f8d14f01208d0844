-- ===== src/Tracker/Dwell.antt =====
-- src/services/tracking-helpers.ts: how long each icon was on screen, `CameraDwell`. Times are whole
-- milliseconds.
pub mod Window
pub mod Past
pub mod Favourite
use lo_lprox_chat.Common.{
  ℕ, zero, suc, ◌+◌, ◌-◌, ◌*◌, ◌/◌, min, max, Bool, true, false, ◌&&◌, ◌||◌, not, Option, none,
  some, List, [], ◌∷◌, ◌++◌, map, filter, ltb, leb, get_elem?, if◌then◌else◌,
}
use lo_lprox_chat.Tracker.{Point, distance_sq}
use lo_lprox_chat.Tracker.Nearest.{Found, nearest}

-- `CAMERA_DWELL_WINDOW_MS`, `CAMERA_DWELL_MIN_READABLE_MS` and `CAMERA_TRACK_TTL_MS`.
abbrev pub camera_dwell_window_ms : ℕ
camera_dwell_window_ms = 30000

abbrev pub camera_dwell_min_readable_ms : ℕ
camera_dwell_min_readable_ms = 10000

abbrev pub camera_track_ttl_ms : ℕ
camera_track_ttl_ms = 5000

pub record ViewportBox : Type 0 where
  pub x0 : ℕ
  pub y0 : ℕ
  pub x1 : ℕ
  pub y1 : ℕ

pub record DwellSample : Type 0 where
  pub t : ℕ
  pub dt : ℕ
  pub readable : Bool
  pub in_view : Bool

pub record DwellTrack : Type 0 where
  pub at : Point
  pub last_ms : ℕ
  pub samples : List DwellSample
  pub rejected_until_ms : ℕ

-- The square of `reach`, which grows by 0.3 icons a second; rounding it down changes no comparison
-- with a square of a distance.
abbrev pub reach_sq : ℕ → ℕ → ℕ
reach_sq icon unseen_ms =
    max 16000000
      (((icon * (10000 + 3 * unseen_ms)) * (icon * (10000 + 3 * unseen_ms))) / (10000 * 10000))

-- A track, and whether an icon of this frame is matched to it.
pub record Matched : Type 0 where
  pub track : DwellTrack
  pub is_matched : Bool

-- `d < bestD`.
abbrev pub is_nearer : ℕ → Option Found → Bool
is_nearer d_sq none = true
is_nearer d_sq (some f) = ltb d_sq f.d_sq

-- The loop over the tracks: the nearest that is free and within its own reach.
unfoldable pub find_track : ℕ → ℕ → Point → ℕ → Option Found → List Matched → Option Found
find_track icon now p i best [] = best
find_track icon now p i best (m ∷ tracks) =
    let d_sq = distance_sq m.track.at p in
    find_track icon now p (suc i)
      (if not m.is_matched
          && (leb d_sq (reach_sq icon (now - m.track.last_ms)) && is_nearer d_sq best)
        then some (record { place = i; d_sq = d_sq })
        else best)
      tracks

-- Within a quarter of an icon of the rectangle.
unfoldable pub is_in_view : ℕ → Option ViewportBox → Point → Bool
is_in_view icon none p = false
is_in_view icon (some box) p =
    leb (4 * box.x0) (4 * p.x + icon)
    && (leb (4 * p.x) (4 * box.x1 + icon)
        && (leb (4 * box.y0) (4 * p.y + icon) && leb (4 * p.y) (4 * box.y1 + icon)))

abbrev pub is_readable : Option ViewportBox → Bool
is_readable none = false
is_readable (some box) = true

-- The sample of a frame.
abbrev pub sample_of : ℕ → ℕ → ℕ → Option ViewportBox → Point → DwellSample
sample_of icon now dt box p = record {
  t = now;
  dt = min dt 500;
  readable = is_readable box;
  in_view = is_in_view icon box p;
}

unfoldable pub follow_to : Point → DwellSample → DwellTrack → DwellTrack
follow_to p s t = record t { at = p; last_ms = s.t; samples = t.samples ++ (s ∷ []) }

abbrev pub new_track : Point → ℕ → DwellTrack
new_track p now = record { at = p; last_ms = now; samples = []; rejected_until_ms = 0 }

-- The track at the place found takes the sample, or a new one at the end does.
unfoldable pub take_sample : Point → DwellSample → Option ℕ → List Matched → List Matched
unfolding follow_to
take_sample p s place [] =
    record { track = follow_to p s (new_track p s.t); is_matched = true } ∷ []
take_sample p s none (m ∷ tracks) = m ∷ take_sample p s none tracks
take_sample p s (some zero) (m ∷ tracks) =
    record { track = follow_to p s m.track; is_matched = true } ∷ tracks
take_sample p s (some (suc i)) (m ∷ tracks) = m ∷ take_sample p s (some i) tracks

abbrev pub place_of : Option Found → Option ℕ
place_of none = none
place_of (some f) = some f.place

-- The loop over the icons.
unfoldable pub match_icons :
    ℕ → ℕ → ℕ → Option ViewportBox → List Matched → List Point → List Matched
unfolding find_track take_sample
match_icons icon now dt box tracks [] = tracks
match_icons icon now dt box tracks (p ∷ icons) =
    match_icons icon now dt box
      (take_sample p (sample_of icon now dt box p) (place_of (find_track icon now p 0 none tracks))
        tracks)
      icons

-- `t <= now - CAMERA_DWELL_WINDOW_MS`.
abbrev pub is_old : ℕ → DwellSample → Bool
is_old now s = leb (s.t + camera_dwell_window_ms) now

unfoldable pub drop_old : ℕ → List DwellSample → List DwellSample
drop_old now [] = []
drop_old now (s ∷ samples) =
    let rest = drop_old now samples in if is_old now s then rest else s ∷ samples

unfoldable pub update :
    ℕ → ℕ → ℕ → Option ViewportBox → List DwellTrack → List Point → List DwellTrack
unfolding match_icons drop_old
update icon now dt box tracks icons =
    let matched =
      match_icons icon now dt box
        (map (λ (t : DwellTrack). record { track = t; is_matched = false }) tracks) icons in
    map (λ (t : DwellTrack). record t { samples = drop_old now t.samples })
      (filter (λ (t : DwellTrack). leb (now - t.last_ms) camera_track_ttl_ms)
        (map (λ (m : Matched). m.track) matched))

abbrev pub reset : List DwellTrack → List DwellTrack
reset tracks = []

-- A reading, with the three sums in place of the share `dwell`.
pub record DwellReading : Type 0 where
  pub at : Point
  pub in_view_ms : ℕ
  pub readable_ms : ℕ
  pub seen_ms : ℕ
  pub rejected : Bool

abbrev pub ms_if : Bool → ℕ → ℕ
ms_if b dt = if b then dt else 0

unfoldable pub in_view_of : List DwellSample → ℕ
in_view_of [] = 0
in_view_of (s ∷ samples) = ms_if s.in_view s.dt + in_view_of samples

unfoldable pub readable_of : List DwellSample → ℕ
readable_of [] = 0
readable_of (s ∷ samples) = ms_if s.readable s.dt + readable_of samples

unfoldable pub seen_of : List DwellSample → ℕ
seen_of [] = 0
seen_of (s ∷ samples) = s.dt + seen_of samples

-- `readings` at a time.
unfoldable pub reading_of : ℕ → DwellTrack → DwellReading
unfolding in_view_of readable_of seen_of
reading_of now t = record {
  at = t.at;
  in_view_ms = in_view_of t.samples;
  readable_ms = readable_of t.samples;
  seen_ms = seen_of t.samples;
  rejected = ltb now t.rejected_until_ms;
}

abbrev pub readings : ℕ → List DwellTrack → List DwellReading
readings now tracks = map (reading_of now) tracks

unfoldable pub set_rejected : ℕ → ℕ → List DwellTrack → List DwellTrack
set_rejected until_ms i [] = []
set_rejected until_ms zero (t ∷ tracks) = record t { rejected_until_ms = until_ms } ∷ tracks
set_rejected until_ms (suc i) (t ∷ tracks) = t ∷ set_rejected until_ms i tracks

abbrev pub reject_at : ℕ → Option Found → List DwellTrack → List DwellTrack
reject_at until_ms none tracks = tracks
reject_at until_ms (some f) tracks = set_rejected until_ms f.place tracks

-- `reject`, with the square of its radius.
unfoldable pub reject : Point → ℕ → ℕ → List DwellTrack → List DwellTrack
unfolding nearest set_rejected
reject at radius_sq until_ms tracks =
    reject_at until_ms (nearest at radius_sq (map (λ (t : DwellTrack). t.at) tracks)) tracks
