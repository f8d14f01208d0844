-- ===== src/Speakers/History.antt =====
-- src/services/speakers.ts: who is listed, over the samples taken since the start or a reset.
use mathlib.Core.Path.{subst}
use lo_lprox_chat.Common.{
  ℕ, ◌-◌, ◌≤◌, String, ◌≡◌, ◌↔◌, inl, inr, refl, sym, ap, ◌∙◌, Bool, true, false, Option, none,
  some, List, [], ◌∷◌, ◌++◌, leb, ltb, if◌then◌else◌, string_eq, arith, In, Bool-cases,
}
use lo_lprox_chat.Common.Dict.{Dict, lookup, HasKeysApart}
use lo_lprox_chat.Speakers.{Speaking, nobody, is_heard, update, speaking_hold_ms}
use lo_lprox_chat.Speakers.Kept.{loud_since, kept}
use lo_lprox_chat.Speakers.Listed.{
  IsTracked, nobody-IsTracked, update-lookup, update-IsTracked, update_iff,
}

-- What one call of `update` is given.
pub record Sample : Type 0 where
  pub levels : Dict String ℕ
  pub threshold : String → ℕ
  pub now : ℕ

-- The state after samples, the latest first, and the list that the next one gives.
abbrev pub after : List Sample → Speaking
after [] = nobody
after (x ∷ past) = (update (after past) x.levels x.threshold x.now).0

abbrev pub listed : Sample → List Sample → List String
listed x past = (update (after past) x.levels x.threshold x.now).1

abbrev pub IsSince : ℕ → List Sample → Type 0
IsSince now [] = Unit
IsSince now (x ∷ past) = x.now ≤ now

-- The clock does not go back, and each sample has a key once.
abbrev pub IsRun : List Sample → Type 0
IsRun [] = Unit
IsRun (x ∷ past) = HasKeysApart x.levels × IsSince x.now past × IsRun past

abbrev pub is_loud : ℕ → Option ℕ → Bool
is_loud threshold none = false
is_loud threshold (some level) = leb threshold level

abbrev pub is_loud_in : String → Sample → Bool
is_loud_in key x = is_loud (x.threshold key) (lookup key x.levels)

abbrev pub is_heard_in : String → Sample → Bool
is_heard_in key x = is_heard (lookup key x.levels)

abbrev pub AllHear : String → List Sample → Type 0
AllHear key [] = Unit
AllHear key (x ∷ xs) = (is_heard_in key x ≡ true) × AllHear key xs

after-IsTracked : (samples : List Sample) → IsRun samples → IsTracked (after samples)
after-IsTracked [] r = nobody-IsTracked
after-IsTracked (x ∷ past) r =
    update-IsTracked (after past) x.levels x.threshold x.now (after-IsTracked past r.2) r.0

-- The last time a key was loud, if it was heard in every sample since.
abbrev loud_at : (threshold now : ℕ) → Option ℕ → Option ℕ → Option ℕ
loud_at threshold now none last = none
loud_at threshold now (some level) last = if leb threshold level then some now else last

abbrev last_loud : String → List Sample → Option ℕ
last_loud key [] = none
last_loud key (x ∷ past) =
    loud_at (x.threshold key) x.now (lookup key x.levels) (last_loud key past)

-- A time that is not longer ago than the hold.
abbrev held : ℕ → Option ℕ → Option ℕ
held now none = none
held now (some ms) = if ltb speaking_hold_ms (now - ms) then none else some ms

held_iff :
    (now : ℕ) (o : Option ℕ) (ms : ℕ)
    → (held now o ≡ some ms) ↔ ((o ≡ some ms) × (now - ms ≤ speaking_hold_ms))
held_iff now none ms = ground arith
held_iff now (some t) ms = ground arith

-- Two holds are the later one.
held-held : (now later : ℕ) (o : Option ℕ) → now ≤ later → held later (held now o) ≡ held later o
held-held now later none h = refl
held-held now later (some t) h = ground (arith, h)

-- `level` is that of the key.
held-kept :
    (x : Sample) (key : String) (later : ℕ) (level old : Option ℕ)
    → lookup key x.levels ≡ level
    → x.now ≤ later
    → let since = loud_since x.threshold x.now key level old in
      held later (kept x.levels x.now key since since)
      ≡ held later (loud_at (x.threshold key) x.now level old)
held-kept x key later none none e h = refl
held-kept x key later none (some t) e h = rw e refl
held-kept x key later (some level) none e h = ground (arith, e, h)
held-kept x key later (some level) (some t) e h = ground (arith, e, h)

same_loud :
    (later threshold now : ℕ) (level old last : Option ℕ)
    → now ≤ later
    → held now old ≡ held now last
    → held later (loud_at threshold now level old) ≡ held later (loud_at threshold now level last)
same_loud later threshold now none old last h e = refl
same_loud later threshold now (some level) old last h e = elim (Bool-cases (leb threshold level)) [
  | inl loud ↦ rw loud refl
  | inr quiet ↦
      rw quiet (sym (held-held now later old h) ∙ ap (held later) e ∙ held-held now later last h)
]

-- What the tracker stores of a key is its last loud time, as long as that counts.
held-after :
    (key : String) (samples : List Sample) (later : ℕ)
    → IsRun samples
    → IsSince later samples
    → held later (lookup key (after samples).last_loud_ms) ≡ held later (last_loud key samples)
unfolding lookup
held-after key [] later r h = refl
held-after key (x ∷ past) later r h =
    let old : Option ℕ = lookup key (after past).last_loud_ms in
    let level : Option ℕ = lookup key x.levels in
    let is =
      (update-lookup (after past) x.levels x.threshold x.now (after-IsTracked past r.2) r.0
        key).0 in
    let earlier = held-after key past x.now r.2 r.1 in
    ap (held later) is
    ∙ held-kept x key later level old refl h
    ∙ same_loud later (x.threshold key) x.now level old (last_loud key past) h earlier

loud_at_loud :
    (threshold now : ℕ) (level last : Option ℕ)
    → is_loud threshold level ≡ true
    → loud_at threshold now level last ≡ some now
loud_at_loud threshold now none last e = absurd (ground arith)
loud_at_loud threshold now (some level) last e = rw e refl

loud_at_quiet :
    (threshold now : ℕ) (level last : Option ℕ)
    → is_heard level ≡ true
    → is_loud threshold level ≡ false
    → loud_at threshold now level last ≡ last
loud_at_quiet threshold now none last h e = absurd (ground arith)
loud_at_quiet threshold now (some level) last h e = rw e refl

loud_at_heard :
    (threshold now : ℕ) (level last : Option ℕ) (ms : ℕ)
    → loud_at threshold now level last ≡ some ms
    → is_heard level ≡ true
loud_at_heard threshold now none last ms e = absurd (ground arith)
loud_at_heard threshold now (some level) last ms e = refl

-- The split of the samples at one where the key was loud.
last_loud_split :
    (key : String) (samples : List Sample) (ms : ℕ)
    → last_loud key samples ≡ some ms
    → (since : List Sample) × (loud : Sample) × (before : List Sample) × (samples
        ≡ since ++ (loud ∷ before))
      × AllHear key since
      × (is_loud_in key loud ≡ true)
      × (loud.now ≡ ms)
last_loud_split key [] ms e = absurd (ground arith)
last_loud_split key (x ∷ past) ms e =
    let threshold = x.threshold key in
    let level : Option ℕ = lookup key x.levels in
    let last : Option ℕ = last_loud key past in
    elim (Bool-cases (is_loud_in key x)) [
      | inl l ↦
          let now_is = loud_at_loud threshold x.now level last l in
          ([], x, past, refl, tt, l, ground (arith, now_is, e))
      | inr q ↦
          let hears = loud_at_heard threshold x.now level last ms e in
          let quiet = loud_at_quiet threshold x.now level last hears q in
          let (since, loud, before, is, heard, l, at) =
            last_loud_split key past ms (sym quiet ∙ e) in
          (x ∷ since, loud, before, ap (λ xs. x ∷ xs) is, (hears, heard), l, at)
    ]

time_le :
    (since : List Sample) (loud : Sample) (before : List Sample) (now : ℕ)
    → IsSince now (since ++ (loud ∷ before))
    → IsRun (since ++ (loud ∷ before))
    → loud.now ≤ now
time_le [] loud before now h r = h
time_le (x ∷ since) loud before now h r =
    let earlier = time_le since loud before x.now r.1 r.2 in omega (arith, h, earlier)

last_loud_late :
    (key : String) (since : List Sample) (loud : Sample) (before : List Sample)
    → IsRun (since ++ (loud ∷ before))
    → AllHear key since
    → is_loud_in key loud ≡ true
    → (ms : ℕ) × (last_loud key (since ++ (loud ∷ before)) ≡ some ms) × (loud.now ≤ ms)
last_loud_late key [] loud before r heard e = (
  loud.now,
  loud_at_loud (loud.threshold key) loud.now (lookup key loud.levels) (last_loud key before) e,
  omega arith,
)
last_loud_late key (x ∷ since) loud before r heard e =
    let threshold = x.threshold key in
    let level : Option ℕ = lookup key x.levels in
    let last : Option ℕ = last_loud key (since ++ (loud ∷ before)) in
    elim (Bool-cases (is_loud_in key x)) [
      | inl l ↦ (
        x.now,
        loud_at_loud threshold x.now level last l,
        time_le since loud before x.now r.1 r.2,
      )
      | inr q ↦
          let (ms, is, late) = last_loud_late key since loud before r.2 heard.1 e in
          (ms, loud_at_quiet threshold x.now level last heard.0 q ∙ is, late)
    ]

loud_since_heard :
    (threshold : String → ℕ) (now : ℕ) (key : String) (level old : Option ℕ)
    → is_heard level ≡ true
    → loud_since threshold now key level old ≡ loud_at (threshold key) now level old
loud_since_heard threshold now key none old h = absurd (ground arith)
loud_since_heard threshold now key (some level) old h = refl

-- Who is heard now, and when it was loud last by what is stored.
listed-last_loud :
    (x : Sample) (past : List Sample) (key : String)
    → IsRun (x ∷ past)
    → In key (listed x past)
      ↔ ((ms : ℕ) × (last_loud key (x ∷ past) ≡ some ms) × (x.now - ms ≤ speaking_hold_ms))
listed-last_loud x past key r =
    let threshold = x.threshold key in
    let level : Option ℕ = lookup key x.levels in
    let old : Option ℕ = lookup key (after past).last_loud_ms in
    let stored =
      update_iff (after past) x.levels x.threshold x.now (after-IsTracked past r.2) r.0 key in
    let both =
      same_loud x.now threshold x.now level old (last_loud key past) (omega arith)
        (held-after key past x.now r.2 r.1) in
    let by_old = held_iff x.now (loud_at threshold x.now level old) in
    let by_last = held_iff x.now (last_loud key (x ∷ past)) in
    (
      λ i.
          let (hears, (ms, e, near)) = stored.0 i in
          let is = loud_since_heard x.threshold x.now key level old hears in
          let (e_last, near_last) = (by_last ms).0 (sym both ∙ (by_old ms).1 (sym is ∙ e, near)) in
          (ms, e_last, near_last),
      λ h.
          let (ms, e, near) = h in
          let hears = loud_at_heard threshold x.now level (last_loud key past) ms e in
          let is = loud_since_heard x.threshold x.now key level old hears in
          let (e_old, near_old) = (by_old ms).0 (both ∙ (by_last ms).1 (e, near)) in
          stored.1 (hears, (ms, is ∙ e_old, near_old)),
    )

-- Over any samples at times that do not fall, each with a key once, exactly the keys are listed
-- that were loud in a sample at most half a second ago, the current one included, and were heard in
-- every sample since, the current one included.
pub listed_iff :
    (current : Sample) (past : List Sample) (key : String)
    → IsRun (current ∷ past)
    → In key (listed current past) ↔ (
        (since : List Sample) × (loud : Sample) × (before : List Sample) × (current ∷ past
          ≡ since ++ (loud ∷ before))
        × AllHear key since
        × (is_loud_in key loud ≡ true)
        × (current.now - loud.now ≤ speaking_hold_ms))
listed_iff current past key r =
    let by_last = listed-last_loud current past key r in
    (
      λ i.
          let (ms, e, near) = by_last.0 i in
          let (since, loud, before, is, heard, l, at) = last_loud_split key (current ∷ past) ms e in
          (since, loud, before, is, heard, l, ground (arith, near, at)),
      λ h.
          let (since, loud, before, is, heard, l, near) = h in
          let (ms, e, late) = last_loud_late key since loud before (subst IsRun is r) heard l in
          by_last.1 (ms, ap (last_loud key) is ∙ e, omega (arith, near, late)),
    )
