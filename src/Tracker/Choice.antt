-- ===== src/Tracker/Choice.antt =====
-- src/services/tracking-helpers.ts and src/services/blob-types.ts: which blob is followed or locked
-- again. Scores are thousandths, lengths are thousandths of a pixel of the region or of a game unit.
pub mod Best
pub mod Merged
use lo_lprox_chat.Common.{
  ℕ, zero, ◌+◌, ◌-◌, ◌*◌, ◌/◌, min, max, Bool, true, false, ◌&&◌, ◌||◌, not, Option, none, some,
  List, [], ◌∷◌, ltb, leb, if◌then◌else◌,
}
use lo_lprox_chat.Tracker.{Point, distance_sq}
use lo_lprox_chat.Tracker.Pick.{pick}

pub data BlobColor : Type 0 where
  teal red : BlobColor

pub record Blob : Type 0 where
  pub color : BlobColor
  pub pixels : ℕ
  pub centre : Point
  pub min_x : ℕ
  pub max_x : ℕ
  pub min_y : ℕ
  pub max_y : ℕ
  pub fill_ratio : ℕ

-- `Math.round` of thousandths to whole pixels, as a length again.
abbrev pub round_px : ℕ → ℕ
round_px length = ((length + 500) / 1000) * 1000

unfoldable pub compute_max_jump_px : ℕ → ℕ → ℕ → ℕ
compute_max_jump_px icon hold_start_ms now =
    max 20000 (round_px (2 * icon))
    + (if ltb 0 hold_start_ms then round_px ((icon * (now - hold_start_ms)) / 1000) else 0)

-- Times in milliseconds.
unfoldable pub compute_reacquire_threshold : ℕ → ℕ → ℕ
compute_reacquire_threshold stationary_ms hold_ms =
    if ltb 3000 stationary_ms then 850 else if ltb 1000 hold_ms then 350 else 500

-- `FAR_REACQUIRE_THRESHOLD`.
abbrev pub far_reacquire_threshold : ℕ
far_reacquire_threshold = 900

-- 2500 game units, and 700 more each second.
unfoldable pub reacquire_reach_units : ℕ → ℕ
reacquire_reach_units elapsed_ms = 2500000 + 700 * elapsed_ms

-- Within a fifth of the width of a corner.
unfoldable pub is_in_base_zone : Point → ℕ → ℕ → Bool
is_in_base_zone p width height =
    leb (25 * distance_sq p (record { x = 0; y = 0 })) (width * width)
    || leb (25 * distance_sq (record { x = width; y = height }) p) (width * width)

unfoldable pub reacquire_threshold_at : ℕ → Point → Option Point → ℕ → ℕ → ℕ → ℕ
unfolding reacquire_reach_units is_in_base_zone
reacquire_threshold_at ordinary candidate none elapsed_ms width height = ordinary
reacquire_threshold_at ordinary candidate (some last_seen) elapsed_ms width height =
    if leb (distance_sq candidate last_seen)
      (reacquire_reach_units elapsed_ms * reacquire_reach_units elapsed_ms)
    then ordinary
    else if is_in_base_zone candidate width height
    then ordinary
    else max ordinary far_reacquire_threshold

-- A score, as the difference of two numbers, in parts of 850000 times `max_sq`, or of 700000 times it
-- without a classifier: of the same number for all blobs of a frame.
pub record Score : Type 0 where
  pub gain : ℕ
  pub loss : ℕ

-- `computeBlobScore`, where the score for the position is `1 - distance_sq / max_sq`.
unfoldable pub compute_blob_score : ℕ → ℕ → ℕ → ℕ → Bool → Score
compute_blob_score max_sq pred_sq cls white true = record {
  gain = max_sq * (350000 + (300 * cls + 200 * white));
  loss = 350000 * pred_sq;
}
compute_blob_score max_sq pred_sq cls white false = record {
  gain = max_sq * (450000 + 250 * white);
  loss = 450000 * pred_sq;
}

-- `CLS_FOLLOW_THRESHOLD`.
abbrev pub cls_follow_threshold : ℕ
cls_follow_threshold = 200

unfoldable pub compute_near_field_px : ℕ → ℕ
compute_near_field_px icon = max 10000 (round_px icon)

-- `score > best.score`.
abbrev pub is_higher : Score → Score → Bool
is_higher s best = ltb (best.gain + s.loss) (s.gain + best.loss)

module _ (last predicted : Point) (max_jump near_field : ℕ) (has_classifier : Bool)
    (cls white : Blob → ℕ) where
  unfoldable pub is_in_range : Blob → Bool
  is_in_range b = leb (distance_sq b.centre last) (max_jump * max_jump)

  unfoldable pub is_near : Blob → Bool
  is_near b =
      ltb (min (distance_sq b.centre predicted) (distance_sq b.centre last))
        (near_field * near_field)

  unfoldable pub may_follow : Blob → Bool
  unfolding is_in_range is_near
  may_follow b =
      is_in_range b && not (has_classifier && (not (is_near b) && ltb (cls b) cls_follow_threshold))

  unfoldable pub score_of : Blob → Score
  unfolding compute_blob_score
  score_of b =
      compute_blob_score (max_jump * max_jump) (distance_sq b.centre predicted) (cls b) (white b)
        has_classifier

  unfoldable pub pick_best_blob_in_range : List Blob → Option Blob
  unfolding may_follow score_of pick
  pick_best_blob_in_range blobs =
      pick may_follow (λ b best. is_higher (score_of b) (score_of best)) none blobs

unfoldable pub pick_classifier_reacquisition : (Blob → ℕ) → (Blob → ℕ) → List Blob → Option Blob
unfolding pick
pick_classifier_reacquisition threshold cls blobs =
    pick (λ b. leb (threshold b) (cls b)) (λ b best. ltb (cls best) (cls b)) none blobs

-- `rescanReachPx`: 8 pixels a second.
unfoldable pub rescan_reach_px : ℕ → ℕ → ℕ
rescan_reach_px icon elapsed_ms = icon * 2 + 8 * elapsed_ms

pub data HoldReason : Type 0 where
  no_blobs no_match : HoldReason

unfoldable pub disown_after_sec : Option HoldReason → ℕ
disown_after_sec none = 2
disown_after_sec (some no_blobs) = 5
disown_after_sec (some no_match) = 2

-- `FORCED_REACQUIRE_HOLD_MS` is 5000.
unfoldable pub should_force_reacquisition : ℕ → ℕ → Bool
should_force_reacquisition hold_start_ms now =
    if leb hold_start_ms 0 then false else leb 5000 (now - hold_start_ms)
