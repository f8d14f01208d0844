-- ===== src/Tracker/WrongLock/Earned.antt =====
-- src/services/tracking-helpers.ts: what a switch to another icon rests on.
use mathlib.Core.Path.{subst}
use lo_lprox_chat.Common.{
  ℕ, ◌+◌, ◌-◌, ◌*◌, ◌≤◌, ◌≡◌, inl, inr, refl, sym, ap, ◌∙◌, true, false, ◌&&◌, not, Option, none,
  some, List, [], ◌∷◌, ltb, leb, arith, if_holds, if◌then◌else◌,
}
use lo_lprox_chat.Tracker.{Point, distance_sq}
use lo_lprox_chat.Tracker.WrongLock.{
  WrongLockEvidence, WrongLockRun, ScoredIcon, empty_wrong_lock_evidence, does_support, four_still,
  has_moved, is_another, drop_if, one_more, decide_switch, add_run, on_run, is_stale,
  next_wrong_lock_evidence, wrong_lock_runs, wrong_lock_min_ms, wrong_lock_stale_ms,
}
use lo_lprox_chat.Tracker.WrongLock.Streak.{
  TimedRun, Supports, Recent, evidence_after, evidence_of, Backed, Earned, Ok, nothing-Ok,
  drop_if-Backed, first, silent, further,
}

-- What a run needs to be added to the evidence.
record Follows (icon : ℕ) (past : List TimedRun) (now : ℕ) (followed best : Point)
    (r : Recent icon past) : Type 0 where
  soon : now - r.last_ms ≤ wrong_lock_stale_ms
  at_rest : 16 * distance_sq followed r.anchor ≤ four_still icon * four_still icon
  same_icon : distance_sq best r.best ≤ icon * icon

one_more-Recent :
    (icon : ℕ) (past : List TimedRun) (run : WrongLockRun) (now : ℕ) (followed best : Point)
    (ev : WrongLockEvidence)
    → Supports icon run followed best
    → Backed icon past (Follows icon past now followed best) ev
    → (r : Recent icon (record { run = run; at_ms = now } ∷ past)) × ((one_more ev followed best now
          ≡ evidence_of icon (record { run = run; at_ms = now } ∷ past) r)
        × ((r.last_ms ≡ now) × (r.best ≡ best)))
one_more-Recent icon past run now followed best ev s (inl e) = (
  record {
    since = record { run = run; at_ms = now } ∷ [];
    before = past;
    split = refl;
    anchor = followed;
    best = best;
    runs = 1;
    first_ms = now;
    last_ms = now;
    streak = first run now best s;
    some_run = omega arith;
  },
  (ap (λ ev. one_more ev followed best now) e, (refl, refl)),
)
one_more-Recent icon past run now followed best ev s (inr (r, e, f)) =
    let some_before : ltb 0 r.runs ≡ true = let k = r.some_run in ground arith in
    (
      record {
        since = record { run = run; at_ms = now } ∷ r.since;
        before = r.before;
        split = ap (λ p. record { run = run; at_ms = now } ∷ p) r.split;
        anchor = r.anchor;
        best = best;
        runs = r.runs + 1;
        first_ms = r.first_ms;
        last_ms = now;
        streak =
            further run now r.since r.runs r.first_ms r.last_ms r.best best followed r.streak s
              f.soon f.at_rest f.same_icon;
        some_run = omega arith;
      },
      (
        ap (λ ev. one_more ev followed best now) e
            ∙ ap
                (λ b. record {
                  anchor = some r.anchor;
                  best = some best;
                  runs = r.runs + 1;
                  first_ms = if b then r.first_ms else now;
                  last_ms = now;
                })
                some_before,
        (refl, refl),
      ),
    )

decide_switch-Ok :
    (icon : ℕ) (past : List TimedRun) (r : Recent icon past) (best : Point) (now : ℕ)
    → r.last_ms ≡ now
    → r.best ≡ best
    → Ok icon past now (decide_switch (evidence_of icon past r) best now)
unfolding decide_switch
decide_switch-Ok icon past r best now now_is best_is =
    if_holds (Ok icon past now)
      (leb wrong_lock_runs r.runs && leb wrong_lock_min_ms (now - r.first_ms))
      (empty_wrong_lock_evidence, some best) (evidence_of icon past r, none)
      (λ e. (
        inl refl,
        λ to is. record {
          recent = r;
          is_best = best_is ∙ ground arith;
          ends_now = now_is;
          enough_runs = ground arith;
          long_enough = ground arith;
        },
      ))
      (λ e. (inr (r, refl, tt), λ to is. absurd (ground arith)))

-- Evidence on which a run at `now` may build.
abbrev Soon : (icon : ℕ) (past : List TimedRun) → ℕ → Recent icon past → Type 0
Soon icon past now r = now - r.last_ms ≤ wrong_lock_stale_ms

module _ (icon : ℕ) (past : List TimedRun) (run : WrongLockRun) (now : ℕ) where
  abbrev longer : List TimedRun
  longer = record { run = run; at_ms = now } ∷ past

  add_run-Ok :
      (followed best : Point) (ev : WrongLockEvidence)
      → Supports icon run followed best
      → Backed icon past (Soon icon past now) ev
      → Ok icon longer now (add_run ev followed best now icon)
  unfolding add_run has_moved is_another
  add_run-Ok followed best ev s h =
      let still = drop_if (has_moved icon followed ev.anchor) ev in
      let same = drop_if (is_another icon best still.best) still in
      let rests =
        drop_if-Backed icon past (Soon icon past now)
          (λ r.
            (now - r.last_ms ≤ wrong_lock_stale_ms)
            × (16 * distance_sq followed r.anchor ≤ four_still icon * four_still icon))
          (has_moved icon followed ev.anchor) ev h
          (λ r not_moved e soon.
            let k =
              ap (λ (ev : WrongLockEvidence). has_moved icon followed ev.anchor) (sym e)
              ∙ not_moved in
            (soon, ground arith)) in
      let all =
        drop_if-Backed icon past _ (Follows icon past now followed best)
          (is_another icon best still.best) still rests
          (λ r not_other e q.
            let k =
              ap (λ (ev : WrongLockEvidence). is_another icon best ev.best) (sym e) ∙ not_other in
            record { soon = q.0; at_rest = q.1; same_icon = ground arith }) in
      let (r, (is, (last_is, best_is))) =
        one_more-Recent icon past run now followed best same s all in
      subst (λ ev. Ok icon longer now (decide_switch ev best now)) (sym is)
        (decide_switch-Ok icon longer r best now last_is best_is)

  on_run-Ok :
      (followed : Option Point) (best : Option ScoredIcon) (ev : WrongLockEvidence)
      → run.discriminating ≡ true
      → run.followed ≡ followed
      → run.best ≡ best
      → Backed icon past (Soon icon past now) ev
      → Ok icon longer now (on_run ev followed run.followed_score best now icon)
  unfolding on_run
  on_run-Ok none best ev says sees prefers h = nothing-Ok icon longer now
  on_run-Ok (some f) none ev says sees prefers h = nothing-Ok icon longer now
  on_run-Ok (some f) (some b) ev says sees prefers h =
      if_holds (Ok icon longer now) (does_support icon f run.followed_score b)
        (add_run ev f b.at now icon) (empty_wrong_lock_evidence, none)
        (λ e.
          add_run-Ok f b.at ev
            (record { says = says; sees = sees; score = b.score; prefers = prefers; sure = e }) h)
        (λ e. nothing-Ok icon longer now)

  -- A run that says nothing leaves what there is.
  silent-Ok :
      (ev : WrongLockEvidence)
      → run.discriminating ≡ false
      → Backed icon past (Soon icon past now) ev
      → Ok icon longer now (ev, none)
  silent-Ok ev quiet (inl e) = (inl e, λ to is. absurd (ground arith))
  silent-Ok ev quiet (inr (r, e, q)) = (
    inr (
      record {
        since = record { run = run; at_ms = now } ∷ r.since;
        before = r.before;
        split = ap (λ p. record { run = run; at_ms = now } ∷ p) r.split;
        anchor = r.anchor;
        best = r.best;
        runs = r.runs;
        first_ms = r.first_ms;
        last_ms = r.last_ms;
        streak = silent run now r.since r.runs r.first_ms r.last_ms r.best r.streak quiet;
        some_run = r.some_run;
      },
      e,
      tt,
    ),
    λ to is. absurd (ground arith),
  )

  next-Ok :
      (ev : WrongLockEvidence)
      → Backed icon past (λ _. Unit) ev
      → Ok icon longer now (next_wrong_lock_evidence ev run now icon)
  unfolding next_wrong_lock_evidence
  next-Ok ev h =
      let kept = drop_if (is_stale ev now) ev in
      let fresh : Backed icon past (Soon icon past now) kept =
        drop_if-Backed icon past (λ _. Unit) (Soon icon past now) (is_stale ev now) ev h
          (λ r fresh e _.
            let k = ap (λ ev. is_stale ev now) (sym e) ∙ fresh in
            let some_run = r.some_run in ground arith) in
      if_holds (Ok icon longer now) (not run.discriminating) (kept, none)
        (on_run kept run.followed run.followed_score run.best now icon)
        (λ e. silent-Ok kept (ground arith) fresh)
        (λ e. on_run-Ok run.followed run.best kept (ground arith) refl refl fresh)

evidence_after-Backed :
    (icon : ℕ) (past : List TimedRun) → Backed icon past (λ _. Unit) (evidence_after icon past)
unfolding evidence_after
evidence_after-Backed icon [] = inl refl
evidence_after-Backed icon (e ∷ past) =
    (next-Ok icon past e.run e.at_ms (evidence_after icon past) (evidence_after-Backed icon past)).0

-- Whatever the runs were, the tracker is sent to another icon only by a run that ends a streak of six
-- runs or more that support that icon, four seconds or more after the first of them.
pub switch-Earned :
    (icon : ℕ) (past : List TimedRun) (run : WrongLockRun) (now : ℕ) (to : Point)
    → (next_wrong_lock_evidence (evidence_after icon past) run now icon).1 ≡ some to
    → Earned icon (record { run = run; at_ms = now } ∷ past) now to
switch-Earned icon past run now to e =
    (next-Ok icon past run now (evidence_after icon past) (evidence_after-Backed icon past)).1 to e
