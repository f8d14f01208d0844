-- ===== src/Tracker/Verdicts.antt =====
-- src/services/tracking-helpers.ts: the icons that the skin match calls a teammate's.
pub mod Called
use lo_lprox_chat.Common.{
  ℕ, ◌+◌, ◌-◌, ◌*◌, ◌/◌, max, Bool, true, false, ◌&&◌, Option, none, some, List, [], ◌∷◌, map, leb,
  get_elem?, if◌then◌else◌,
}
use lo_lprox_chat.Tracker.{Point}
use lo_lprox_chat.Tracker.Nearest.{Found, nearest}

-- `TEAMMATE_VERDICT_RUNS` and `TEAMMATE_VERDICT_TTL_MS`.
abbrev pub teammate_verdict_runs : ℕ
teammate_verdict_runs = 2

abbrev pub teammate_verdict_ttl_ms : ℕ
teammate_verdict_ttl_ms = 2000

-- `unsure` is `null`.
pub data Verdict : Type 0 where
  is_self is_teammates unsure : Verdict

pub record TeammateMark : Type 0 where
  pub at : Point
  pub runs : ℕ
  pub last_ms : ℕ

-- The square of `Math.max(5, iconDiam * 0.6)`. Squares of distances are whole, so rounding it down
-- changes no comparison.
abbrev pub mark_reach_sq : ℕ → ℕ
mark_reach_sq icon = max 25000000 ((9 * (icon * icon)) / 25)

abbrev pub mark_at : List TeammateMark → Option Found → Option TeammateMark
mark_at marks none = none
mark_at marks (some f) = get_elem? marks f.place

unfoldable pub nearest_mark : Point → ℕ → List TeammateMark → Option TeammateMark
unfolding nearest
nearest_mark p reach_sq marks =
    mark_at marks (nearest p reach_sq (map (λ (m : TeammateMark). m.at) marks))

abbrev pub runs_of : Option TeammateMark → ℕ
runs_of none = 0
runs_of (some m) = m.runs

-- What an icon adds to the new marks.
unfoldable pub mark_one :
    Point → ℕ → Option TeammateMark → Verdict → List TeammateMark → List TeammateMark
mark_one p now prev is_self rest = rest
mark_one p now prev is_teammates rest =
    record { at = p; runs = runs_of prev + 1; last_ms = now } ∷ rest
mark_one p now none unsure rest = rest
mark_one p now (some m) unsure rest =
    if leb (now - m.last_ms) teammate_verdict_ttl_ms then record m { at = p } ∷ rest else rest

-- `update`; an icon without a verdict adds nothing.
unfoldable pub update : ℕ → ℕ → List TeammateMark → List Point → List Verdict → List TeammateMark
unfolding nearest_mark mark_one
update icon now marks [] verdicts = []
update icon now marks (p ∷ icons) [] = []
update icon now marks (p ∷ icons) (v ∷ verdicts) =
    mark_one p now (nearest_mark p (mark_reach_sq icon) marks) v
      (update icon now marks icons verdicts)

abbrev pub is_called : ℕ → ℕ → Option TeammateMark → Bool
is_called now min_runs none = false
is_called now min_runs (some m) =
    leb min_runs m.runs && leb (now - m.last_ms) teammate_verdict_ttl_ms

unfoldable pub is_teammate : List TeammateMark → Point → ℕ → ℕ → ℕ → Bool
unfolding nearest_mark
is_teammate marks p now icon min_runs =
    is_called now min_runs (nearest_mark p (mark_reach_sq icon) marks)

abbrev pub clear : List TeammateMark → List TeammateMark
clear marks = []
