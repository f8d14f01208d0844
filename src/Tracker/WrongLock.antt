-- ===== src/Tracker/WrongLock.antt =====
-- src/services/tracking-helpers.ts: the evidence that the lock is on the wrong icon. Scores are
-- thousandths, times are milliseconds.
pub mod Streak
pub mod Earned
use lo_lprox_chat.Common.{
  ℕ, suc, ◌+◌, ◌-◌, ◌*◌, max, Bool, true, false, ◌&&◌, not, Option, none, some, List, [], ◌∷◌, ltb,
  leb, if◌then◌else◌,
}
use lo_lprox_chat.Tracker.{Point, distance_sq}

-- `WRONG_LOCK_RUNS`, `WRONG_LOCK_MIN_MS` and `WRONG_LOCK_STALE_MS`.
abbrev pub wrong_lock_runs : ℕ
wrong_lock_runs = 6

abbrev pub wrong_lock_min_ms : ℕ
wrong_lock_min_ms = 4000

abbrev pub wrong_lock_stale_ms : ℕ
wrong_lock_stale_ms = 3000

pub record WrongLockEvidence : Type 0 where
  pub anchor : Option Point
  pub best : Option Point
  pub runs : ℕ
  pub first_ms : ℕ
  pub last_ms : ℕ

abbrev pub empty_wrong_lock_evidence : WrongLockEvidence
empty_wrong_lock_evidence = record {
  anchor = none;
  best = none;
  runs = 0;
  first_ms = 0;
  last_ms = 0;
}

pub record ScoredIcon : Type 0 where
  pub at : Point
  pub score : ℕ

pub record WrongLockRun : Type 0 where
  pub followed : Option Point
  pub followed_score : ℕ
  pub best : Option ScoredIcon
  pub discriminating : Bool

-- `supports`.
unfoldable pub does_support : ℕ → Point → ℕ → ScoredIcon → Bool
does_support icon followed followed_score best =
    leb followed_score 100
    && (leb 990 best.score && ltb (icon * icon) (distance_sq best.at followed))

-- Four times `still`: twelve pixels or an icon, `WRONG_LOCK_STILL_FRACTION` being a quarter.
abbrev pub four_still : ℕ → ℕ
four_still icon = max 12000 icon

unfoldable pub has_moved : ℕ → Point → Option Point → Bool
has_moved icon followed none = false
has_moved icon followed (some anchor) =
    ltb (four_still icon * four_still icon) (16 * distance_sq followed anchor)

unfoldable pub is_another : ℕ → Point → Option Point → Bool
is_another icon best none = false
is_another icon best (some before) = ltb (icon * icon) (distance_sq best before)

abbrev pub drop_if : Bool → WrongLockEvidence → WrongLockEvidence
drop_if b ev = if b then empty_wrong_lock_evidence else ev

-- `ev.anchor ?? ...`.
abbrev pub or_point : Option Point → Point → Option Point
or_point none p = some p
or_point (some q) p = some q

-- `next`.
abbrev pub one_more : WrongLockEvidence → Point → Point → ℕ → WrongLockEvidence
one_more ev followed best now = record {
  anchor = or_point ev.anchor followed;
  best = some best;
  runs = ev.runs + 1;
  first_ms = if ltb 0 ev.runs then ev.first_ms else now;
  last_ms = now;
}

unfoldable pub decide_switch : WrongLockEvidence → Point → ℕ → WrongLockEvidence × Option Point
decide_switch next best now =
    if leb wrong_lock_runs next.runs && leb wrong_lock_min_ms (now - next.first_ms)
    then (empty_wrong_lock_evidence, some best)
    else (next, none)

unfoldable pub add_run :
    WrongLockEvidence → Point → Point → ℕ → ℕ → WrongLockEvidence × Option Point
unfolding has_moved is_another decide_switch
add_run ev followed best now icon =
    let still = drop_if (has_moved icon followed ev.anchor) ev in
    let same = drop_if (is_another icon best still.best) still in
    decide_switch (one_more same followed best now) best now

unfoldable pub on_run :
    WrongLockEvidence
    → Option Point
    → ℕ
    → Option ScoredIcon
    → ℕ
    → ℕ
    → WrongLockEvidence × Option Point
unfolding does_support add_run
on_run ev none score best now icon = (empty_wrong_lock_evidence, none)
on_run ev (some followed) score none now icon = (empty_wrong_lock_evidence, none)
on_run ev (some followed) score (some best) now icon =
    if does_support icon followed score best
    then add_run ev followed best.at now icon
    else (empty_wrong_lock_evidence, none)

abbrev pub is_stale : WrongLockEvidence → ℕ → Bool
is_stale ev now = ltb 0 ev.runs && ltb wrong_lock_stale_ms (now - ev.last_ms)

unfoldable pub next_wrong_lock_evidence :
    WrongLockEvidence → WrongLockRun → ℕ → ℕ → WrongLockEvidence × Option Point
unfolding on_run
next_wrong_lock_evidence ev run now icon =
    let kept = drop_if (is_stale ev now) ev in
    if not run.discriminating
    then (kept, none)
    else on_run kept run.followed run.followed_score run.best now icon
