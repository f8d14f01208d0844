-- ===== src/Tracker.antt =====
-- src/services/tracking-helpers.ts: points of the minimap. Coordinates and lengths are thousandths of
-- a pixel of the region; distances are compared by their squares.
pub mod WrongLock
pub mod Nearest
pub mod Verdicts
pub mod Dwell
pub mod Pick
pub mod Choice
use lo_lprox_chat.Common.{
  ℕ, ◌+◌, ◌-◌, ◌*◌, Bool, Option, none, some, List, [], ◌∷◌, leb, if◌then◌else◌,
}

pub record Point : Type 0 where
  pub x : ℕ
  pub y : ℕ

abbrev pub gap : ℕ → ℕ → ℕ
gap a b = (a - b) + (b - a)

-- The square of `Math.hypot(p.x - q.x, p.y - q.y)`.
unfoldable pub distance_sq : Point → Point → ℕ
distance_sq p q = gap p.x q.x * gap p.x q.x + gap p.y q.y * gap p.y q.y
