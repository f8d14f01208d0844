-- ===== src/Tracker/Verdicts/Called.antt =====
-- src/services/tracking-helpers.ts: what it takes to be called a teammate.
use mathlib.Core.Option
use lo_lprox_chat.Common.{
  All-get_elem?, ℕ, zero, suc, ◌+◌, ◌-◌, ◌≤◌, ◌≡◌, ◌⊎◌, inl, inr, refl, sym, ap, true, Option, none,
  some, List, [], ◌∷◌, map, leb, arith, All, get_elem?, if_holds,
}
use lo_lprox_chat.Tracker.{Point, distance_sq}
use lo_lprox_chat.Tracker.Nearest.{Found, nearest, nearest-get_elem?}
use lo_lprox_chat.Tracker.Verdicts.{
  Verdict, is_self, is_teammates, unsure, TeammateMark, mark_reach_sq, mark_at, nearest_mark,
  mark_one, update, is_called, is_teammate, teammate_verdict_ttl_ms,
}

-- A run of the classifier: each icon with its verdict.
pub record VerdictRun : Type 0 where
  pub now : ℕ
  pub icons : List Point
  pub verdicts : List Verdict

unfoldable pub marks_after : ℕ → List VerdictRun → List TeammateMark
unfolding update
marks_after icon [] = []
marks_after icon (r ∷ past) = update icon r.now (marks_after icon past) r.icons r.verdicts

-- The icon at `p` has the verdict `v`.
abbrev pub Gets : Point → Verdict → List Point → List Verdict → Type 0
Gets p v [] verdicts = ⊥
Gets p v (q ∷ icons) [] = ⊥
Gets p v (q ∷ icons) (w ∷ verdicts) = ((p ≡ q) × (v ≡ w)) ⊎ Gets p v icons verdicts

-- An icon followed through the last runs, the latest first, in steps within reach: each of them calls
-- it a teammate's, `n` in all and the latest at `last_ms`, or says nothing within two seconds of that.
pub data Called (icon : ℕ) : List VerdictRun → Point → ℕ → ℕ → Type 0 where
  first :
      (r : VerdictRun) (past : List VerdictRun) (p : Point)
      → Gets p is_teammates r.icons r.verdicts
      → Called icon (r ∷ past) p 1 r.now
  again :
      (r : VerdictRun) (past : List VerdictRun) (p q : Point) (n last_ms : ℕ)
      → Called icon past q n last_ms
      → distance_sq q p ≤ mark_reach_sq icon
      → Gets p is_teammates r.icons r.verdicts
      → Called icon (r ∷ past) p (n + 1) r.now
  unsure_of :
      (r : VerdictRun) (past : List VerdictRun) (p q : Point) (n last_ms : ℕ)
      → Called icon past q n last_ms
      → distance_sq q p ≤ mark_reach_sq icon
      → Gets p unsure r.icons r.verdicts
      → r.now - last_ms ≤ teammate_verdict_ttl_ms
      → Called icon (r ∷ past) p n last_ms

abbrev IsMarked : ℕ → List VerdictRun → TeammateMark → Type 0
IsMarked icon past m = Called icon past m.at m.runs m.last_ms

get_elem?-map :
    (marks : List TeammateMark) (i : ℕ) (m : TeammateMark)
    → get_elem? marks i ≡ some m
    → get_elem? (map (λ (m : TeammateMark). m.at) marks) i ≡ some m.at
get_elem?-map [] i m e = absurd (ground (arith, e))
get_elem?-map (n ∷ marks) zero m e = ap (λ o. Option.map (λ (m : TeammateMark). m.at) o) e
get_elem?-map (n ∷ marks) (suc i) m e = get_elem?-map marks i m e

mark_at-found :
    (marks : List TeammateMark) (found : Option Found) (m : TeammateMark)
    → mark_at marks found ≡ some m
    → (f : Found) × (found ≡ some f) × (get_elem? marks f.place ≡ some m)
mark_at-found marks none m e = absurd (ground (arith, e))
mark_at-found marks (some f) m e = (f, refl, e)

-- The mark that is taken is one of the marks, within reach.
nearest_mark_lem :
    (P : TeammateMark → Type 0) (p : Point) (reach_sq : ℕ) (marks : List TeammateMark)
    (m : TeammateMark)
    → All P marks
    → nearest_mark p reach_sq marks ≡ some m
    → P m × (distance_sq m.at p ≤ reach_sq)
unfolding nearest_mark
nearest_mark_lem P p reach_sq marks m h e =
    let places = map (λ (m : TeammateMark). m.at) marks in
    let (f, is, got) = mark_at-found marks (nearest p reach_sq places) m e in
    let (q, there, d, reach) = nearest-get_elem? p reach_sq places f is in
    let same : q ≡ m.at = ground (arith, there, get_elem?-map marks f.place m got) in
    (All-get_elem? P marks f.place m h got, rw (sym same) (ground (arith, d, reach)))

mark_one-IsMarked :
    (icon : ℕ) (r : VerdictRun) (past : List VerdictRun) (p : Point) (v : Verdict)
    (prev : Option TeammateMark) (rest : List TeammateMark)
    → Gets p v r.icons r.verdicts
    → ((m : TeammateMark)
        → prev ≡ some m
        → IsMarked icon past m × (distance_sq m.at p ≤ mark_reach_sq icon))
    → All (IsMarked icon (r ∷ past)) rest
    → All (IsMarked icon (r ∷ past)) (mark_one p r.now prev v rest)
unfolding mark_one
mark_one-IsMarked icon r past p is_self prev rest g known h = h
mark_one-IsMarked icon r past p is_teammates none rest g known h = (first r past p g, h)
mark_one-IsMarked icon r past p is_teammates (some m) rest g known h =
    let (called, near) = known m refl in (again r past p m.at m.runs m.last_ms called near g, h)
mark_one-IsMarked icon r past p unsure none rest g known h = h
mark_one-IsMarked icon r past p unsure (some m) rest g known h =
    let (called, near) = known m refl in
    if_holds (All (IsMarked icon (r ∷ past))) (leb (r.now - m.last_ms) teammate_verdict_ttl_ms)
      (record m { at = p } ∷ rest) rest
      (λ e. (unsure_of r past p m.at m.runs m.last_ms called near g (ground arith), h)) (λ e. h)

update-IsMarked :
    (icon : ℕ) (r : VerdictRun) (past : List VerdictRun) (marks : List TeammateMark)
    (icons : List Point) (verdicts : List Verdict)
    → All (IsMarked icon past) marks
    → ((p : Point) (v : Verdict) → Gets p v icons verdicts → Gets p v r.icons r.verdicts)
    → All (IsMarked icon (r ∷ past)) (update icon r.now marks icons verdicts)
unfolding update
update-IsMarked icon r past marks [] verdicts h g = tt
update-IsMarked icon r past marks (p ∷ icons) [] h g = tt
update-IsMarked icon r past marks (p ∷ icons) (v ∷ verdicts) h g =
    mark_one-IsMarked icon r past p v (nearest_mark p (mark_reach_sq icon) marks)
      (update icon r.now marks icons verdicts) (g p v (inl (refl, refl)))
      (λ m e. nearest_mark_lem (IsMarked icon past) p (mark_reach_sq icon) marks m h e)
      (update-IsMarked icon r past marks icons verdicts h (λ q w k. g q w (inr k)))

marks_after-IsMarked :
    (icon : ℕ) (past : List VerdictRun) → All (IsMarked icon past) (marks_after icon past)
unfolding marks_after
marks_after-IsMarked icon [] = tt
marks_after-IsMarked icon (r ∷ past) =
    update-IsMarked icon r past (marks_after icon past) r.icons r.verdicts
      (marks_after-IsMarked icon past) (λ p v k. k)

is_called-some :
    (now min_runs : ℕ) (o : Option TeammateMark)
    → is_called now min_runs o ≡ true
    → (m : TeammateMark) × (o ≡ some m)
      × (min_runs ≤ m.runs)
      × (now - m.last_ms ≤ teammate_verdict_ttl_ms)
is_called-some now min_runs none e = absurd (ground (arith, e))
is_called-some now min_runs (some m) e = (m, refl, ground (arith, e), ground (arith, e))

-- An icon is a teammate's only if one within reach of it was followed through the last runs, none of
-- which called it the player's, and `min_runs` of which called it a teammate's, the latest two seconds
-- ago at most.
pub is_teammate-Called :
    (icon min_runs now : ℕ) (past : List VerdictRun) (p : Point)
    → is_teammate (marks_after icon past) p now icon min_runs ≡ true
    → (q : Point) × (n : ℕ) × (last_ms : ℕ) × Called icon past q n last_ms
      × (distance_sq q p ≤ mark_reach_sq icon)
      × (min_runs ≤ n)
      × (now - last_ms ≤ teammate_verdict_ttl_ms)
unfolding is_teammate
is_teammate-Called icon min_runs now past p e =
    let marks = marks_after icon past in
    let (m, is, enough, fresh) =
      is_called-some now min_runs (nearest_mark p (mark_reach_sq icon) marks) e in
    let (called, near) =
      nearest_mark_lem (IsMarked icon past) p (mark_reach_sq icon) marks m
        (marks_after-IsMarked icon past) is in
    (m.at, m.runs, m.last_ms, called, near, enough, fresh)
