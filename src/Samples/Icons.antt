-- ===== src/Samples/Icons.antt =====
-- Runs of the client: icons of the minimap.
use lo_lprox_chat.Common.{
  ℕ, ◌+◌, ◌-◌, ◌≤◌, ◌≡◌, ◌↔◌, refl, string_eq, nat_eq, true, false, none, some, List, [], ◌∷◌,
  arith, All, get_elem?,
}
use lo_lprox_chat.Tracker.{Point, distance_sq}
use lo_lprox_chat.Tracker.WrongLock.{
  WrongLockRun, next_wrong_lock_evidence, on_run, does_support, has_moved, is_another, add_run,
  decide_switch,
}
use lo_lprox_chat.Tracker.WrongLock.Streak.{TimedRun, Earned, evidence_after}
use lo_lprox_chat.Tracker.WrongLock.Earned.{switch-Earned}
use lo_lprox_chat.Tracker.Nearest.{nearest, nearest_from}
use lo_lprox_chat.Tracker.Verdicts.{
  is_teammates, unsure, mark_reach_sq, mark_one, nearest_mark, update, is_teammate,
  teammate_verdict_ttl_ms,
}
use lo_lprox_chat.Tracker.Verdicts.Called.{VerdictRun, marks_after, Called, is_teammate-Called}
use lo_lprox_chat.Tracker.Dwell.{ViewportBox, DwellReading}
use lo_lprox_chat.Tracker.Dwell.Window.{IsInWindow}
use lo_lprox_chat.Tracker.Dwell.Past.{
  CameraEvent, frame, rejection, tracks_after, latest, IsRising, tracks_after-IsInWindow,
}
use lo_lprox_chat.Tracker.Dwell.Favourite.{numbered, dwell_counts, is_high, camera_favourite}
use lo_lprox_chat.Tracker.Pick.{pick}
use lo_lprox_chat.Tracker.Choice.{
  Blob, teal, is_in_range, is_near, may_follow, score_of, compute_blob_score,
  pick_best_blob_in_range,
}
use lo_lprox_chat.Tracker.Choice.Best.{IsBest, pick_best_blob_in_range_lem}
use lo_lprox_chat.Tracker.Dwell.Favourite.Watched.{IsNotWatched, camera_favourite_iff}

abbrev ward : Point
ward = record { x = 100000; y = 100000 }

abbrev champion : Point
champion = record { x = 300000; y = 100000 }

-- The classifier is sure that the icon followed is not the player.
abbrev on_the_ward : WrongLockRun
on_the_ward = record {
  followed = some ward;
  followed_score = 0;
  best = some (record { at = champion; score = 1000 });
  discriminating = true;
}

abbrev earlier : List TimedRun
earlier =
    record { run = on_the_ward; at_ms = 4600 }
    ∷ record { run = on_the_ward; at_ms = 3700 }
    ∷ record { run = on_the_ward; at_ms = 2800 }
    ∷ record { run = on_the_ward; at_ms = 1900 }
    ∷ record { run = on_the_ward; at_ms = 1000 }
    ∷ []

earlier_leads :
    (next_wrong_lock_evidence (evidence_after 25000 earlier) on_the_ward 5500 25000).1
    ≡ some champion
unfolding evidence_after next_wrong_lock_evidence on_run add_run does_support has_moved is_another
    decide_switch distance_sq
earlier_leads = refl

switch-Earned_example :
    Earned 25000 (record { run = on_the_ward; at_ms = 5500 } ∷ earlier) 5500 champion
switch-Earned_example = switch-Earned 25000 earlier on_the_ward 5500 champion earlier_leads

abbrev verdict_runs : List VerdictRun
verdict_runs =
    record { now = 2000; icons = ward ∷ champion ∷ []; verdicts = is_teammates ∷ unsure ∷ [] }
    ∷ record { now = 1500; icons = ward ∷ champion ∷ []; verdicts = unsure ∷ unsure ∷ [] }
    ∷ record { now = 1000; icons = ward ∷ champion ∷ []; verdicts = is_teammates ∷ unsure ∷ [] }
    ∷ []

is_called_twice : is_teammate (marks_after 25000 verdict_runs) ward 2100 25000 2 ≡ true
unfolding marks_after update is_teammate nearest_mark mark_one nearest nearest_from distance_sq
is_called_twice = refl

is_teammate-Called_example :
    (q : Point) × (n : ℕ) × (last_ms : ℕ) × Called 25000 verdict_runs q n last_ms
    × (distance_sq q ward ≤ mark_reach_sq 25000)
    × (2 ≤ n)
    × (2100 - last_ms ≤ teammate_verdict_ttl_ms)
is_teammate-Called_example = is_teammate-Called 25000 2 2100 verdict_runs ward is_called_twice

abbrev around_champion : ViewportBox
around_champion = record { x0 = 250000; y0 = 70000; x1 = 350000; y1 = 130000 }

abbrev camera_events : List CameraEvent
camera_events =
    frame 25000 2000 500 none (ward ∷ champion ∷ [])
    ∷ rejection ward 25000000 9000
    ∷ frame 25000 1500 500 (some around_champion) (champion ∷ ward ∷ [])
    ∷ frame 25000 1000 500 (some around_champion) (ward ∷ champion ∷ [])
    ∷ []

camera_events-IsRising : IsRising camera_events
unfolding IsRising latest
camera_events-IsRising = (omega arith, (omega arith, (omega arith, tt)))

tracks_after-IsInWindow_example :
    All (IsInWindow (latest camera_events)) (tracks_after camera_events)
tracks_after-IsInWindow_example = tracks_after-IsInWindow camera_events camera_events-IsRising

abbrev watched : DwellReading
watched = record {
  at = champion;
  in_view_ms = 18000;
  readable_ms = 20000;
  seen_ms = 30000;
  rejected = false;
}

abbrev glanced_at : DwellReading
glanced_at = record {
  at = ward;
  in_view_ms = 2000;
  readable_ms = 20000;
  seen_ms = 30000;
  rejected = false;
}

camera_favourite_iff_example :
    (camera_favourite (glanced_at ∷ watched ∷ []) ≡ some (1, watched)) ↔ (
      (get_elem? (glanced_at ∷ watched ∷ []) 1 ≡ some watched)
      × (dwell_counts watched ≡ true)
      × (is_high watched ≡ true)
      × (watched.rejected ≡ false)
      × All (IsNotWatched 1) (numbered 0 (glanced_at ∷ watched ∷ [])))
camera_favourite_iff_example = camera_favourite_iff (glanced_at ∷ watched ∷ []) 1 watched

abbrev blob_at : ℕ → Blob
blob_at x = record {
  color = teal;
  pixels = 60;
  centre = record { x = x; y = 100000 };
  min_x = x - 12000;
  max_x = x + 12000;
  min_y = 88000;
  max_y = 112000;
  fill_ratio = 250;
}

-- The classifier knows neither.
abbrev unknown : Blob → ℕ
unknown b = 0

is_followed :
    pick_best_blob_in_range ward ward 50000 25000 true unknown unknown
      (blob_at 140000 ∷ blob_at 104000 ∷ [])
    ≡ some (blob_at 104000)
unfolding pick_best_blob_in_range pick may_follow is_in_range is_near score_of compute_blob_score
    distance_sq
is_followed = refl

pick_best_blob_in_range_lem_example :
    IsBest ward ward 50000 25000 true unknown unknown
      (blob_at 140000 ∷ blob_at 104000 ∷ [])
      (some (blob_at 104000))
pick_best_blob_in_range_lem_example =
    pick_best_blob_in_range_lem ward ward 50000 25000 true unknown unknown
      (blob_at 140000 ∷ blob_at 104000 ∷ []) (some (blob_at 104000)) is_followed
