-- ===== src/Speakers/Listed.antt =====
-- src/services/speakers.ts: who is listed, by what is stored.
use mathlib.Core.Path.{subst}
use lo_lprox_chat.Common.{
  ℕ, ◌-◌, ◌≤◌, String, ◌≡◌, ◌↔◌, inl, inr, refl, sym, ap, ◌∙◌, true, Option, none, some, [], ◌∷◌,
  map, string_eq, arith, In, if_holds, Bool-cases,
}
use text.Mathlib.TextEquality.{eq_iff}
use lo_lprox_chat.Common.Dict.{Dict, lookup, HasKeysApart, erase-HasKeysApart}
use lo_lprox_chat.Speakers.{
  Speaking, nobody, note_loud, is_heard, is_done, start_one, settle_one, settle_all, put_by_time,
  by_time, update, speaking_hold_ms,
}
use lo_lprox_chat.Speakers.Kept.{
  loud_since, lookup-note_loud, note_loud-HasKeysApart, kept, begun, start_one-lookup,
  settle_all-lookup,
}

In-keys :
    (key : String) (m : Dict String ℕ)
    → In key (map (λ (e : String × ℕ). e.0) m) ↔ (is_heard (lookup key m) ≡ true)
unfolding lookup
In-keys key [] = (λ i. absurd i, λ e. absurd (ground arith))
In-keys key ((k, ms) ∷ m) = ground (arith, eq_iff k key, In-keys key m)

In-put_by_time :
    (key : String) (e : String × ℕ) (m : Dict String ℕ)
    → In key (map (λ (e : String × ℕ). e.0) (put_by_time e m))
      ↔ In key (map (λ (e : String × ℕ). e.0) (e ∷ m))
unfolding put_by_time
In-put_by_time key e [] = (λ i. i, λ i. i)
In-put_by_time key e (f ∷ m) = ground (arith, In-put_by_time key e m)

In-by_time :
    (key : String) (m : Dict String ℕ)
    → In key (map (λ (e : String × ℕ). e.0) (by_time m)) ↔ In key (map (λ (e : String × ℕ). e.0) m)
unfolding by_time
In-by_time key [] = (λ i. i, λ i. i)
In-by_time key (e ∷ m) = ground (arith, In-put_by_time key e (by_time m), In-by_time key m)

-- Who speaks was loud before, and no key is noted twice.
pub record IsTracked (s : Speaking) : Type 0 where
  pub apart : HasKeysApart s.last_loud_ms
  pub loud_first :
      (key : String) → lookup key s.last_loud_ms ≡ none → lookup key s.started_ms ≡ none

pub nobody-IsTracked : IsTracked nobody
unfolding lookup
nobody-IsTracked = record { apart = tt; loud_first = λ key e. refl }

settle_one-HasKeysApart :
    (levels : Dict String ℕ) (now : ℕ) (s : Speaking) (key : String) (ms : ℕ)
    → HasKeysApart s.last_loud_ms
    → HasKeysApart (settle_one levels now s key ms).last_loud_ms
unfolding settle_one
settle_one-HasKeysApart levels now s key ms h =
    if_holds (λ (t : Speaking). HasKeysApart t.last_loud_ms) (is_done levels now key ms) _
      (start_one s key now (lookup key s.started_ms)) (λ e. erase-HasKeysApart key s.last_loud_ms h)
      (λ e.
        subst HasKeysApart (sym (start_one-lookup s key now (lookup key s.started_ms) key refl).0)
          h)

settle_all-HasKeysApart :
    (levels : Dict String ℕ) (now : ℕ) (entries : Dict String ℕ) (s : Speaking)
    → HasKeysApart s.last_loud_ms
    → HasKeysApart (settle_all levels now entries s).last_loud_ms
unfolding settle_all
settle_all-HasKeysApart levels now [] s h = h
settle_all-HasKeysApart levels now ((k, ms) ∷ entries) s h =
    settle_all-HasKeysApart levels now entries (settle_one levels now s k ms)
      (settle_one-HasKeysApart levels now s k ms h)

loud_since-none :
    (threshold : String → ℕ) (now : ℕ) (key : String) (level last : Option ℕ)
    → loud_since threshold now key level last ≡ none
    → last ≡ none
loud_since-none threshold now key none last e = e
loud_since-none threshold now key (some l) last e = ground arith

module _ (levels : Dict String ℕ) (now : ℕ) (key : String) where
  begun-none :
      (since old : Option ℕ)
      → (since ≡ none → old ≡ none)
      → kept levels now key since since ≡ none
      → begun levels now key since old ≡ none
  begun-none none old h e = h refl
  begun-none (some ms) old h e = elim (Bool-cases (is_done levels now key ms)) [
    | inl d ↦ rw d refl
    | inr d ↦ absurd (let k : some ms ≡ none = rw d at e in ground arith)
  ]

  begun-heard :
      (since old : Option ℕ)
      → (since ≡ none → old ≡ none)
      → (is_heard (begun levels now key since old) ≡ true) ↔ (
          (is_heard (lookup key levels) ≡ true)
          × ((ms : ℕ) × (since ≡ some ms) × (now - ms ≤ speaking_hold_ms)))
  begun-heard none old h = (
    λ e. absurd (let k = h refl in ground arith),
    λ k. absurd (let (a, (t, e, b)) = k in ground arith),
  )
  begun-heard (some ms) none h =
      (λ e. (ground arith, (ms, refl, ground arith)), λ k. let (a, (t, e, b)) = k in ground arith)
  begun-heard (some ms) (some old) h =
      (λ e. (ground arith, (ms, refl, ground arith)), λ k. let (a, (t, e, b)) = k in ground arith)

module _ (s : Speaking) (levels : Dict String ℕ) (threshold : String → ℕ) (now : ℕ)
    (v : IsTracked s) (apart : HasKeysApart levels) where
  abbrev noted_last : Dict String ℕ
  noted_last = note_loud threshold now levels s.last_loud_ms

  abbrev since : String → Option ℕ
  since key = loud_since threshold now key (lookup key levels) (lookup key s.last_loud_ms)

  unheard : (key : String) → since key ≡ none → lookup key s.started_ms ≡ none
  unheard key e =
      v.loud_first key
        (loud_since-none threshold now key (lookup key levels) (lookup key s.last_loud_ms) e)

  -- What the update leaves of a key.
  pub update-lookup :
      (key : String)
      → let since = loud_since threshold now key (lookup key levels) (lookup key s.last_loud_ms) in
        (lookup key (update s levels threshold now).0.last_loud_ms
          ≡ kept levels now key since since)
        × (lookup key (update s levels threshold now).0.started_ms
            ≡ begun levels now key since (lookup key s.started_ms))
  unfolding update
  update-lookup key =
      let noted_is = lookup-note_loud threshold now key levels s.last_loud_ms apart in
      let all =
        settle_all-lookup levels now noted_last (record s { last_loud_ms = noted_last }) key
          (note_loud-HasKeysApart threshold now levels s.last_loud_ms v.apart) in
      (
        all.0 ∙ ap (λ o. kept levels now key o o) noted_is,
        all.1 ∙ ap (λ o. begun levels now key o (lookup key s.started_ms)) noted_is,
      )

  pub update-IsTracked : IsTracked (update s levels threshold now).0
  unfolding update
  update-IsTracked = record {
    apart =
        settle_all-HasKeysApart levels now noted_last (record s { last_loud_ms = noted_last })
          (note_loud-HasKeysApart threshold now levels s.last_loud_ms v.apart);
    loud_first = λ key e.
        let (last_is, started_is) = update-lookup key in
        started_is
        ∙ begun-none levels now key (since key) (lookup key s.started_ms) (unheard key)
            (sym last_is ∙ e);
  }

  -- Exactly the keys are listed that are heard in this sample and whose last loud time, the stored one
  -- unless this sample is loud, is half a second ago at most.
  pub update_iff :
      (key : String)
      → In key (update s levels threshold now).1 ↔ (
          (is_heard (lookup key levels) ≡ true)
          × ((ms : ℕ) × (loud_since threshold now key
                  (lookup key levels)
                  (lookup key s.last_loud_ms)
                ≡ some ms)
              × (now - ms ≤ speaking_hold_ms)))
  unfolding by_time update
  update_iff key =
      let t : Speaking = (update s levels threshold now).0 in
      let started_is = (update-lookup key).1 in
      let heard = begun-heard levels now key (since key) (lookup key s.started_ms) (unheard key) in
      let sorted = In-by_time key t.started_ms in
      let keys = In-keys key t.started_ms in
      (
        λ i. heard.0 (rw started_is at (keys.0 (sorted.0 i))),
        λ h. sorted.1 (keys.1 (rw started_is (heard.1 h))),
      )
