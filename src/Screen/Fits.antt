-- ===== src/Screen/Fits.antt =====
-- src/core/map-calibration.ts: the minimap lies in what is captured.
use native.Mathlib.Nat.{mul-le-mul_right}
use lo_lprox_chat.Common.{ℕ, ◌+◌, ◌≤◌, ◌≡◌, refl, ap, ◌∙◌, Bool, true, ◌&&◌, arith}
use lo_lprox_chat.Common.Int.{ℤ, pos, ◌+ℤ◌, ◌-ℤ◌, leb_ℤ}
use lo_lprox_chat.Screen.{
  ScreenRect, MinimapBounds, capture_size, get_capture_bounds_for_rect, minimap_size_for_height,
  get_minimap_region_for_rect, minimap_region_fits_capture,
}

-- Up to scale 3 the minimap is no larger than the capture, at every height.
minimap_size-le :
    (height scale : ℕ)
    → scale ≤ 3000
    → leb_ℤ (minimap_size_for_height height scale) (pos (capture_size height)) ≡ true
unfolding minimap_size_for_height capture_size
minimap_size-le height scale h =
    let most = mul-le-mul_right (height + 240) h in ground (arith, most)

-- (a - b) - (a - c) is c - b.
offset_lem : (a b c : ℤ) → (a -ℤ b) -ℤ (a -ℤ c) ≡ c -ℤ b
offset_lem a b c = ground arith

fits_one :
    (size capture : ℤ)
    → leb_ℤ size capture ≡ true
    → (leb_ℤ (pos 0) (capture -ℤ size) ≡ true) × (leb_ℤ ((capture -ℤ size) +ℤ size) capture ≡ true)
fits_one size capture h = ground arith

all_four : (a b c d : Bool) → a ≡ true → b ≡ true → c ≡ true → d ≡ true → (a && b && c && d) ≡ true
all_four a b c d ha hb hc hd = ground arith

fits_from :
    (region capture : MinimapBounds)
    → region.x ≡ capture.width -ℤ region.width
    → region.y ≡ capture.height -ℤ region.height
    → leb_ℤ region.width capture.width ≡ true
    → leb_ℤ region.height capture.height ≡ true
    → minimap_region_fits_capture region capture ≡ true
unfolding minimap_region_fits_capture
fits_from region capture x y wide high =
    let across = fits_one region.width capture.width wide in
    let down = fits_one region.height capture.height high in
    all_four _ _ _ _ (ap (leb_ℤ (pos 0)) x ∙ across.0) (ap (leb_ℤ (pos 0)) y ∙ down.0)
      (ap (λ a. leb_ℤ (a +ℤ region.width) capture.width) x ∙ across.1)
      (ap (λ a. leb_ℤ (a +ℤ region.height) capture.height) y ∙ down.1)

-- For every scale up to 3, the largest that the game offers, and every size and place of the window,
-- the minimap lies wholly inside the captured square, in its bottom right corner, and its place in
-- there depends on the height of the window and the scale only.
pub get_minimap_region_for_rect_lem :
    (r : ScreenRect) (scale : ℕ)
    → scale ≤ 3000
    → let capture = get_capture_bounds_for_rect r in
      let region = get_minimap_region_for_rect r scale capture in
      (region.x ≡ capture.width -ℤ region.width)
      × (region.y ≡ capture.height -ℤ region.height)
      × (region.width ≡ minimap_size_for_height r.height scale)
      × (region.height ≡ region.width)
      × (minimap_region_fits_capture region capture ≡ true)
unfolding get_minimap_region_for_rect get_capture_bounds_for_rect minimap_region_fits_capture
get_minimap_region_for_rect_lem r scale h = (
  offset_lem (r.x +ℤ pos r.width) (minimap_size_for_height r.height scale)
      (pos (capture_size r.height)),
  offset_lem (r.y +ℤ pos r.height) (minimap_size_for_height r.height scale)
      (pos (capture_size r.height)),
  refl,
  refl,
  fits_from (get_minimap_region_for_rect r scale (get_capture_bounds_for_rect r))
      (get_capture_bounds_for_rect r)
      (offset_lem (r.x +ℤ pos r.width) (minimap_size_for_height r.height scale)
        (pos (capture_size r.height)))
      (offset_lem (r.y +ℤ pos r.height) (minimap_size_for_height r.height scale)
        (pos (capture_size r.height)))
      (minimap_size-le r.height scale h) (minimap_size-le r.height scale h),
)
