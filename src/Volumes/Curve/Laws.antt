-- ===== src/Volumes/Curve/Laws.antt =====
-- How `calculateVolume` of server/src/volumes.ts falls off.
use mathlib.Core.Path.{subst}
use lo_lprox_chat.Common.{ℕ, ◌+◌, ◌-◌, ◌*◌, ◌≤◌, ◌<◌, ◌↔◌, ◌≡◌, arith}
use lo_lprox_chat.Volumes.Distance.{square}
use lo_lprox_chat.Volumes.Curve.{
  max_hearing_range, full_volume_range, full_volume, calculate_volume,
}

square_sum : (a k : ℕ) → square (a + k) ≡ square a + (2 * (a * k) + square k)
square_sum a k = omega arith

pub square_le : (a b : ℕ) → a ≤ b → square a ≤ square b
square_le a b h =
    let whole : a + (b - a) ≡ b = omega (arith, h) in
    subst (λ n. square a ≤ square n) whole (omega (arith, square_sum a (b - a)))

-- The outer band, by what is over the inner radius.
square_band : (x : ℕ) → 0 < x → x < 450000 → (0 < square x) × (square x < full_volume)
square_band x h k = (
  omega (arith, square_le 1 x (omega (arith, h))),
  omega (arith, square_le x 449999 (omega (arith, k))),
)

band :
    (d : ℕ)
    → full_volume_range < d
    → d < max_hearing_range
    → (0 < square (d - full_volume_range)) × (square (d - full_volume_range) < full_volume)
band d h k = square_band (d - full_volume_range) (omega (arith, h, k)) (omega (arith, h, k))

-- A volume is at most full. It is 0 exactly from the hearing range on, and full exactly up to the
-- inner radius.
pub calculate_volume_lem :
    (d : ℕ)
    → (calculate_volume d ≤ full_volume)
      × ((calculate_volume d ≡ 0) ↔ (max_hearing_range ≤ d))
      × ((calculate_volume d ≡ full_volume) ↔ (d ≤ full_volume_range))
unfolding calculate_volume
calculate_volume_lem d = ground (arith, band d)

-- Who is further away is not heard louder.
pub calculate_volume_antitone : (d e : ℕ) → d ≤ e → calculate_volume e ≤ calculate_volume d
unfolding calculate_volume
calculate_volume_antitone d e h =
    ground (arith, square_le (d - full_volume_range) (e - full_volume_range))
