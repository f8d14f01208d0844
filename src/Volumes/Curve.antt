-- ===== src/Volumes/Curve.antt =====
-- `calculateVolume` of server/src/volumes.ts. A distance is in thousandths of a game unit, and a
-- volume is counted in parts of `full_volume`, so that the square of the falloff is a whole number.
pub mod Laws
use lo_lprox_chat.Common.{ℕ, ◌-◌, ◌*◌, ◌≤◌, ◌<◌, ◌↔◌, ◌≡◌, refl, arith, leb, if◌then◌else◌}
use lo_lprox_chat.Volumes.Distance.{square}

-- `MAX_HEARING_RANGE` and `FULL_VOLUME_RANGE`.
abbrev pub max_hearing_range : ℕ
max_hearing_range = 1350000

abbrev pub full_volume_range : ℕ
full_volume_range = 900000

-- The volume 1.0: the square of the width of the outer band.
abbrev pub full_volume : ℕ
full_volume = 202500000000

unfoldable pub calculate_volume : ℕ → ℕ
calculate_volume d =
    if leb max_hearing_range d
    then 0
    else if leb d full_volume_range
    then full_volume
    else full_volume - square (d - full_volume_range)
