-- ===== src/Tracker/Choice/Merged.antt =====
-- src/services/tracking-helpers.ts: icons under or merged with other icons.
use lo_lprox_chat.Common.{
  ℕ, ◌+◌, ◌-◌, ◌*◌, ◌/◌, min, max, Bool, true, false, ◌&&◌, not, Option, none, some, List, ltb, leb,
  if◌then◌else◌,
}
use lo_lprox_chat.Tracker.{Point, distance_sq}
use lo_lprox_chat.Tracker.Pick.{pick}
use lo_lprox_chat.Tracker.Choice.{Blob, BlobColor, teal, red, round_px}

-- `bw` and `bh`: a pixel more than the difference.
abbrev pub width_of : Blob → ℕ
width_of b = b.max_x - b.min_x + 1000

abbrev pub height_of : Blob → ℕ
height_of b = b.max_y - b.min_y + 1000

unfoldable pub compute_occlusion_radius_px : ℕ → ℕ
compute_occlusion_radius_px icon = max 10000 (round_px icon)

-- At most 1.6 icons wide and high.
abbrev pub is_single : ℕ → Blob → Bool
is_single icon b = leb (10 * width_of b) (16 * icon) && leb (10 * height_of b) (16 * icon)

-- The part of a blob that covers a point: the centre of an icon, the nearest part of several.
unfoldable pub covering_point : ℕ → Point → Blob → Point
covering_point icon at b =
    if is_single icon b
    then b.centre
    else record { x = max b.min_x (min b.max_x at.x); y = max b.min_y (min b.max_y at.y) }

unfoldable pub may_occlude : ℕ → Point → Blob → Bool
unfolding covering_point compute_occlusion_radius_px
may_occlude icon at b =
    let radius = compute_occlusion_radius_px icon in
    let d_sq = distance_sq (covering_point icon at b) at in
    if is_single icon b
    then leb d_sq (radius * radius)
    else leb (4 * d_sq) (radius * radius) && leb (4 * distance_sq b.centre at) (9 * (icon * icon))

abbrev pub point_of : ℕ → Point → Option Blob → Option Point
unfolding covering_point
point_of icon at none = none
point_of icon at (some b) = some (covering_point icon at b)

unfoldable pub find_occluder : ℕ → Point → List Blob → Option Point
unfolding may_occlude point_of covering_point pick
find_occluder icon at blobs = point_of icon at (
    pick (may_occlude icon at)
      (λ b best.
        ltb (distance_sq (covering_point icon at b) at)
          (distance_sq (covering_point icon at best) at))
      none blobs)

abbrev pub is_red : BlobColor → Bool
is_red red = true
is_red teal = false

-- At least 0.6 icons wide and high, and at most a number of tenths of an icon.
abbrev pub is_sized : ℕ → ℕ → Blob → Bool
is_sized icon tenths b =
    leb (6 * icon) (10 * width_of b)
    && (leb (6 * icon) (10 * height_of b)
        && (leb (10 * width_of b) (tenths * icon) && leb (10 * height_of b) (tenths * icon)))

unfoldable pub is_possible_occluder : Blob → ℕ → Bool
is_possible_occluder b icon =
    is_red b.color
    && (leb 15 b.pixels && (leb b.fill_ratio 400 && (leb 80 b.fill_ratio && is_sized icon 26 b)))

unfoldable pub is_possible_stack : Blob → ℕ → Bool
is_possible_stack b icon =
    not (is_red b.color)
    && (leb 15 b.pixels
        && (leb b.fill_ratio 600
            && (leb 80 b.fill_ratio && (not (is_single icon b) && is_sized icon 32 b))))

-- Within half an icon of the extent, and 1.5 icons of the centre.
unfoldable pub may_hold : ℕ → Point → Blob → Bool
may_hold icon at b =
    leb (2 * b.min_x) (2 * at.x + icon)
    && (leb (2 * at.x) (2 * b.max_x + icon)
        && (leb (2 * b.min_y) (2 * at.y + icon)
            && (leb (2 * at.y) (2 * b.max_y + icon)
                && leb (4 * distance_sq b.centre at) (9 * (icon * icon)))))

unfoldable pub find_stack : ℕ → Point → List Blob → Option Blob
unfolding may_hold pick
find_stack icon at stacks =
    pick (may_hold icon at) (λ b best. ltb (distance_sq b.centre at) (distance_sq best.centre at))
      none stacks

-- `clamp` to half an icon in from two edges; thousandths are rounded down.
abbrev pub clamp_in : ℕ → ℕ → ℕ → ℕ → ℕ
clamp_in icon low high v =
    if ltb (high + 1000) (low + icon)
    then (low + high + 1000) / 2
    else min (high + 1000 - icon / 2) (max (low + icon / 2) v)

unfoldable pub position_in_stack : Blob → Point → ℕ → Point
position_in_stack b toward icon = record {
  x = clamp_in icon b.min_x b.max_x toward.x;
  y = clamp_in icon b.min_y b.max_y toward.y;
}
