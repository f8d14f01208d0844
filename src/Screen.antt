-- ===== src/Screen.antt =====
-- src/core/map-calibration.ts and src/overlay/resize-helpers.ts: where the minimap is on the screen,
-- and how high the panel is. Lengths are whole pixels; the scale of the minimap is in thousandths.
pub mod GameWindow
pub mod Fits
pub mod Settled
use lo_lprox_chat.Common.{
  ℕ, ◌+◌, ◌-◌, ◌*◌, ◌/◌, min, max, Bool, true, Option, none, some, ◌&&◌, leb, if◌then◌else◌,
}
use lo_lprox_chat.Common.Int.{ℤ, pos, negsuc, ◌+ℤ◌, ◌-ℤ◌, leb_ℤ, distance_ℤ}

pub record MinimapBounds : Type 0 where
  pub x : ℤ
  pub y : ℤ
  pub width : ℤ
  pub height : ℤ

-- The origin is negative on a monitor left of the primary one.
pub record ScreenRect : Type 0 where
  pub x : ℤ
  pub y : ℤ
  pub width : ℕ
  pub height : ℕ

-- `Math.round(height * MINIMAP_CAPTURE_FACTOR)`: 0.4 of the height is never half way between two
-- whole numbers.
unfoldable pub capture_size : ℕ → ℕ
capture_size height = (height * 40 + 50) / 100

unfoldable pub get_capture_bounds_for_rect : ScreenRect → MinimapBounds
unfolding capture_size
get_capture_bounds_for_rect r =
    let size = pos (capture_size r.height) in
    record {
      x = (r.x +ℤ pos r.width) -ℤ size;
      y = (r.y +ℤ pos r.height) -ℤ size;
      width = size;
      height = size;
    }

unfoldable pub get_minimap_bounds : ℕ → ℕ → MinimapBounds
unfolding get_capture_bounds_for_rect
get_minimap_bounds width height =
    get_capture_bounds_for_rect (record { x = pos 0; y = pos 0; width = width; height = height })

-- `minimapSizeForHeight`: height * 2 / 9 - 40 + scale * (height / 18 + 40 / 3), rounded, over the
-- common denominator 18000.
unfoldable pub minimap_size_for_height : ℕ → ℕ → ℤ
minimap_size_for_height height scale =
    let n = 4000 * height + scale * (height + 240) in
    if leb 711000 n then pos ((n - 711000) / 18000) else negsuc ((711000 - n + 17999) / 18000 - 1)

unfoldable pub get_minimap_region_for_rect : ScreenRect → ℕ → MinimapBounds → MinimapBounds
unfolding minimap_size_for_height
get_minimap_region_for_rect r scale capture =
    let size = minimap_size_for_height r.height scale in
    record {
      x = ((r.x +ℤ pos r.width) -ℤ size) -ℤ capture.x;
      y = ((r.y +ℤ pos r.height) -ℤ size) -ℤ capture.y;
      width = size;
      height = size;
    }

unfoldable pub minimap_region_fits_capture : MinimapBounds → MinimapBounds → Bool
minimap_region_fits_capture region capture =
    leb_ℤ (pos 0) region.x
    && leb_ℤ (pos 0) region.y
    && leb_ℤ (region.x +ℤ region.width) capture.width
    && leb_ℤ (region.y +ℤ region.height) capture.height

-- `computeDesiredHeight`: 4 px of room, between 120 and 1200.
unfoldable pub compute_desired_height : ℕ → ℕ
compute_desired_height scroll_height = max 120 (min 1200 (scroll_height + 4))

-- `RESIZE_HYSTERESIS_PX`.
abbrev pub resize_hysteresis_px : ℕ
resize_hysteresis_px = 3

unfoldable pub should_send_size : Option ℕ → ℕ → ℕ → Bool
should_send_size none next hysteresis = true
should_send_size (some last) next hysteresis = leb hysteresis (distance_ℤ (pos next) (pos last))
