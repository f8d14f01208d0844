-- ===== src/Volumes/Distance.antt =====
-- Distances of points for server/src/volumes.ts: `Math.hypot` and `closestApproach`. A distance is
-- in thousandths of a game unit, rounded down.
pub mod Nearest
use lo_lprox_chat.Common.{
  ℕ, suc, ◌+◌, ◌*◌, ◌≤◌, ◌<◌, ◌/◌, zero, if_holds, leb→le, ◌≡◌, refl, Bool, Option, none, some,
  List, [], ◌∷◌, arith, leb, ltb, if◌then◌else◌,
}
use lo_lprox_chat.Common.Int.{ℤ, distance_ℤ, distance_ℤ_comm}
use lo_lprox_chat.Client.{Point}

abbrev pub square : ℕ → ℕ
square n = n * n

-- One more bit of a root: of `n` from that of `n / 4`.
abbrev pub next_bit : ℕ → ℕ → ℕ
next_bit n half = if leb (square (2 * half + 1)) n then 2 * half + 1 else 2 * half

-- The whole part of the square root, on fuel that `n` itself gives.
unfoldable pub root_on : ℕ → ℕ → ℕ
root_on zero n = 0
root_on (suc fuel) zero = 0
root_on (suc fuel) (suc n) = next_bit (suc n) (root_on fuel (suc n / 4))

double_square : (h : ℕ) → square (2 * h) ≡ 4 * square h
double_square h = omega arith

double_suc_square : (h : ℕ) → square (2 * h + 1 + 1) ≡ 4 * square (h + 1)
double_suc_square h = omega arith

pub IsRoot : ℕ → ℕ → Type 0
IsRoot r n = (square r ≤ n) × (n < square (r + 1))

next_bit-IsRoot : (n half : ℕ) → IsRoot half (n / 4) → IsRoot (next_bit n half) n
unfolding IsRoot
next_bit-IsRoot n half h =
    if_holds (λ r. IsRoot r n) (leb (square (2 * half + 1)) n) (2 * half + 1) (2 * half)
      (λ e. (leb→le (square (2 * half + 1)) n e, omega (arith, double_suc_square half, h.1)))
      (λ e. (omega (arith, double_square half, h.0), ground (arith, e)))

pub root_on-IsRoot : (fuel n : ℕ) → n ≤ fuel → IsRoot (root_on fuel n) n
unfolding IsRoot root_on
root_on-IsRoot zero n h = omega (arith, h)
root_on-IsRoot (suc fuel) zero h = (omega arith, omega arith)
root_on-IsRoot (suc fuel) (suc n) h =
    next_bit-IsRoot (suc n) (root_on fuel (suc n / 4))
      (root_on-IsRoot fuel (suc n / 4) (omega (arith, h)))

unfoldable pub root : ℕ → ℕ
root n = root_on n n

pub root-IsRoot : (n : ℕ) → IsRoot (root n) n
unfolding root
root-IsRoot n = root_on-IsRoot n n (omega arith)

-- `Math.hypot(p.x - q.x, p.y - q.y)`.
unfoldable pub hypot : Point → Point → ℕ
hypot p q = root (square (distance_ℤ p.x q.x) + square (distance_ℤ p.y q.y))

pub hypot_comm : (p q : Point) → hypot p q ≡ hypot q p
unfolding hypot
hypot_comm p q = rw (distance_ℤ_comm p.x q.x, distance_ℤ_comm p.y q.y) refl

-- `if (d < best) best = d`, where `none` is Infinity.
abbrev pub nearer : Option ℕ → ℕ → Option ℕ
nearer none d = some d
nearer (some best) d = some (if ltb d best then d else best)

-- The inner loop.
unfoldable pub approach_from : Point → List Point → Option ℕ → Option ℕ
approach_from p [] best = best
approach_from p (q ∷ qs) best = approach_from p qs (nearer best (hypot p q))

unfoldable pub approach : List Point → List Point → Option ℕ → Option ℕ
approach [] bs best = best
approach (p ∷ ps) bs best = approach ps bs (approach_from p bs best)

unfoldable pub closest_approach : List Point → List Point → Option ℕ
closest_approach ps qs = approach ps qs none
