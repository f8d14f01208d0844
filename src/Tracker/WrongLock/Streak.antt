-- ===== src/Tracker/WrongLock/Streak.antt =====
-- src/services/tracking-helpers.ts: the runs that the evidence of a wrong lock stands for.
use lo_lprox_chat.Common.{
  ℕ, ◌+◌, ◌-◌, ◌*◌, ◌≤◌, ◌≡◌, ◌⊎◌, inl, inr, refl, Bool, true, false, Option, none, some, List, [],
  ◌∷◌, ◌++◌, arith,
}
use lo_lprox_chat.Tracker.{Point, distance_sq}
use lo_lprox_chat.Tracker.WrongLock.{
  WrongLockEvidence, WrongLockRun, empty_wrong_lock_evidence, does_support, four_still, drop_if,
  next_wrong_lock_evidence, wrong_lock_runs, wrong_lock_min_ms, wrong_lock_stale_ms,
}

pub record TimedRun : Type 0 where
  pub run : WrongLockRun
  pub at_ms : ℕ

-- A run that is sure the icon followed is not us, and that one other icon is.
pub record Supports (icon : ℕ) (run : WrongLockRun) (followed best : Point) : Type 0 where
  pub says : run.discriminating ≡ true
  pub sees : run.followed ≡ some followed
  pub score : ℕ
  pub prefers : run.best ≡ some (record { at = best; score = score })
  pub sure :
      does_support icon followed run.followed_score (record { at = best; score = score }) ≡ true

-- Runs without a break, the latest first: any runs that say nothing, and `n` that support one icon,
-- which may walk, near enough in time to each other, with the icon followed at rest by `anchor`.
pub data Streak (icon : ℕ) (anchor : Point) : List TimedRun → ℕ → ℕ → ℕ → Point → Type 0 where
  first :
      (run : WrongLockRun) (now : ℕ) (best : Point)
      → Supports icon run anchor best
      → Streak icon anchor (record { run = run; at_ms = now } ∷ []) 1 now now best
  silent :
      (run : WrongLockRun) (now : ℕ) (since : List TimedRun) (n first_ms last_ms : ℕ) (best : Point)
      → Streak icon anchor since n first_ms last_ms best
      → run.discriminating ≡ false
      → Streak icon anchor (record { run = run; at_ms = now } ∷ since) n first_ms last_ms best
  further :
      (run : WrongLockRun) (now : ℕ) (since : List TimedRun) (n first_ms last_ms : ℕ)
      (before best followed : Point)
      → Streak icon anchor since n first_ms last_ms before
      → Supports icon run followed best
      → now - last_ms ≤ wrong_lock_stale_ms
      → 16 * distance_sq followed anchor ≤ four_still icon * four_still icon
      → distance_sq best before ≤ icon * icon
      → Streak icon anchor (record { run = run; at_ms = now } ∷ since) (n + 1) first_ms now best

pub record Recent (icon : ℕ) (past : List TimedRun) : Type 0 where
  pub since : List TimedRun
  pub before : List TimedRun
  pub split : past ≡ since ++ before
  pub anchor : Point
  pub best : Point
  pub runs : ℕ
  pub first_ms : ℕ
  pub last_ms : ℕ
  pub streak : Streak icon anchor since runs first_ms last_ms best
  pub some_run : 1 ≤ runs

-- The evidence after the runs, the latest first.
unfoldable pub evidence_after : ℕ → List TimedRun → WrongLockEvidence
unfolding next_wrong_lock_evidence
evidence_after icon [] = empty_wrong_lock_evidence
evidence_after icon (e ∷ past) =
    (next_wrong_lock_evidence (evidence_after icon past) e.run e.at_ms icon).0

abbrev pub evidence_of : (icon : ℕ) (past : List TimedRun) → Recent icon past → WrongLockEvidence
evidence_of icon past r = record {
  anchor = some r.anchor;
  best = some r.best;
  runs = r.runs;
  first_ms = r.first_ms;
  last_ms = r.last_ms;
}

-- Evidence is none, or that of a streak, of which more may be known.
abbrev pub Backed :
    (icon : ℕ) (past : List TimedRun) → (Recent icon past → Type 0) → WrongLockEvidence → Type 0
Backed icon past Q ev =
    (ev ≡ empty_wrong_lock_evidence)
    ⊎ ((r : Recent icon past) × (ev ≡ evidence_of icon past r) × Q r)

-- What is asked of an icon for a switch to it.
pub record Earned (icon : ℕ) (past : List TimedRun) (now : ℕ) (to : Point) : Type 0 where
  pub recent : Recent icon past
  pub is_best : recent.best ≡ to
  pub ends_now : recent.last_ms ≡ now
  pub enough_runs : wrong_lock_runs ≤ recent.runs
  pub long_enough : wrong_lock_min_ms ≤ recent.last_ms - recent.first_ms

abbrev pub Ok : ℕ → List TimedRun → ℕ → WrongLockEvidence × Option Point → Type 0
Ok icon past now r =
    Backed icon past (λ _. Unit) r.0 × ((to : Point) → r.1 ≡ some to → Earned icon past now to)

pub nothing-Ok :
    (icon : ℕ) (past : List TimedRun) (now : ℕ) → Ok icon past now (empty_wrong_lock_evidence, none)
nothing-Ok icon past now = (inl refl, λ to e. absurd (ground arith))

pub drop_if-Backed :
    (icon : ℕ) (past : List TimedRun) (Q R : Recent icon past → Type 0) (b : Bool)
    (ev : WrongLockEvidence)
    → Backed icon past Q ev
    → ((r : Recent icon past) → b ≡ false → ev ≡ evidence_of icon past r → Q r → R r)
    → Backed icon past R (drop_if b ev)
drop_if-Backed icon past Q R true ev h step = inl refl
drop_if-Backed icon past Q R false ev (inl e) step = inl e
drop_if-Backed icon past Q R false ev (inr (r, e, q)) step = inr (r, e, step r refl e q)
