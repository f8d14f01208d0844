-- ===== src/Peer/Smooth.antt =====
-- src/services/peer-connection.ts: `nextSmoothedVolume`. Volumes are in millionths of the full
-- volume, and a step rounds down to one.
pub mod Steps
use lo_lprox_chat.Common.{
  ℕ, ◌+◌, ◌-◌, ◌*◌, ◌/◌, min, Bool, true, false, Option, none, some, ltb, if◌then◌else◌,
}
use lo_lprox_chat.Common.Int.{ℤ, pos, negsuc}

abbrev pub full_volume : ℕ
full_volume = 1000000

-- `Math.max(0, Math.min(1, volume))`.
abbrev pub clamp : ℤ → ℕ
clamp (pos v) = min full_volume v
clamp (negsuc v) = 0

-- `RISE_ALPHA_CAP` and `FALL_ALPHA_CAP`.
abbrev pub alpha_cap : Bool → ℕ
alpha_cap falling = if falling then 600000 else 300000

-- `prev * (1 - alpha) + clamped * alpha`.
unfoldable pub blend : ℕ → ℕ → ℕ → ℕ
blend prev target alpha = (prev * (full_volume - alpha) + target * alpha) / full_volume

-- `approach` is 1 - e^(-t / tau) in millionths for the elapsed time, where tau is `FALL_TAU_SEC` or
-- `RISE_TAU_SEC`, the exponential being the one of `Math`.
module _ (approach : (falling : Bool) → (elapsed_ms : ℕ) → ℕ) where
  unfoldable pub next_smoothed_volume : Option ℕ → ℤ → ℕ → ℕ → ℕ
  unfolding blend
  next_smoothed_volume none target now last = clamp target
  next_smoothed_volume (some prev) target now last =
      let falling = ltb (clamp target) prev in
      blend prev (clamp target) (min (alpha_cap falling) (approach falling (now - last)))
