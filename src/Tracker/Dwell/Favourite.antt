-- ===== src/Tracker/Dwell/Favourite.antt =====
-- src/services/tracking-helpers.ts: which icon the camera says is the player's. A reading is told from
-- the others by its place in the list.
pub mod Watched
use lo_lprox_chat.Common.{
  ℕ, zero, suc, ◌+◌, ◌-◌, ◌*◌, Bool, true, false, ◌&&◌, ◌||◌, not, Option, none, some, List, [],
  ◌∷◌, map, filter, ltb, leb, ◌==◌, nat_eq, get_elem?, if◌then◌else◌,
}
use lo_lprox_chat.Tracker.{Point}
use lo_lprox_chat.Tracker.Nearest.{Found, nearest}
use lo_lprox_chat.Tracker.Dwell.{DwellReading, camera_dwell_min_readable_ms}

-- `readings[i]` with its place.
abbrev pub numbered : ℕ → List DwellReading → List (ℕ × DwellReading)
numbered i [] = []
numbered i (r ∷ readings) = (i, r) ∷ numbered (suc i) readings

-- `readingNear`, with the square of its radius.
unfoldable pub reading_near : List DwellReading → Point → ℕ → Option Found
unfolding nearest
reading_near readings at radius_sq =
    nearest at radius_sq (map (λ (r : DwellReading). r.at) readings)

-- `dwellCounts`: ten seconds were readable, and half of the time.
unfoldable pub dwell_counts : DwellReading → Bool
dwell_counts r = leb camera_dwell_min_readable_ms r.readable_ms && leb r.seen_ms (2 * r.readable_ms)

-- `dwell >= CAMERA_DWELL_HIGH`, 0.6.
unfoldable pub is_high : DwellReading → Bool
is_high r = ltb 0 r.readable_ms && leb (6 * r.readable_ms) (10 * r.in_view_ms)

-- `dwell > CAMERA_DWELL_LOW`, 0.2.
unfoldable pub is_above_low : DwellReading → Bool
is_above_low r = ltb 0 r.readable_ms && ltb (2 * r.readable_ms) (10 * r.in_view_ms)

-- `some`.
unfoldable pub any_above_low : List (ℕ × DwellReading) → Bool
unfolding is_above_low
any_above_low [] = false
any_above_low (r ∷ others) = is_above_low r.1 || any_above_low others

unfoldable pub favourite_of :
    List (ℕ × DwellReading) → List (ℕ × DwellReading) → Option (ℕ × DwellReading)
unfolding any_above_low
favourite_of ready [] = none
favourite_of ready (h ∷ (g ∷ high)) = none
favourite_of ready (h ∷ []) =
    if h.1.rejected || any_above_low (filter (λ (r : ℕ × DwellReading). not (r.0 == h.0)) ready)
    then none
    else some h

unfoldable pub camera_favourite : List DwellReading → Option (ℕ × DwellReading)
unfolding dwell_counts is_high favourite_of
camera_favourite readings =
    let ready = filter (λ (r : ℕ × DwellReading). dwell_counts r.1) (numbered 0 readings) in
    favourite_of ready (filter (λ (r : ℕ × DwellReading). is_high r.1) ready)

unfoldable pub only_one : List (ℕ × DwellReading) → Option (ℕ × DwellReading)
only_one [] = none
only_one (h ∷ (g ∷ high)) = none
only_one (h ∷ []) = if h.1.rejected then none else some h

-- `none` is the exception, when the icon followed is not among the readings.
unfoldable pub switch_from :
    List DwellReading → ℕ → Option DwellReading → Option (Option (ℕ × DwellReading))
unfolding dwell_counts is_high is_above_low only_one
switch_from readings i none = none
switch_from readings i (some followed) =
    if not (dwell_counts followed) || is_above_low followed
    then some none
    else some (
        only_one (
          filter (λ (r : ℕ × DwellReading). not (r.0 == i) && (dwell_counts r.1 && is_high r.1))
            (numbered 0 readings)))

unfoldable pub camera_switch_target :
    List DwellReading → Option ℕ → Option (Option (ℕ × DwellReading))
unfolding switch_from
camera_switch_target readings none = some none
camera_switch_target readings (some i) = switch_from readings i (get_elem? readings i)
