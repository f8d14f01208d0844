-- ===== src/Speakers/Kept.antt =====
-- src/services/speakers.ts: what an update leaves of a key.
use lo_lprox_chat.Common.{
  ℕ, String, ◌≡◌, inl, inr, refl, ap, ◌∙◌, false, Option, none, some, [], ◌∷◌, leb, ◌==◌, string_eq,
  arith, if_holds, if◌then◌else◌, Bool-cases,
}
use text.Mathlib.TextEquality.{eq_iff}
use lo_lprox_chat.Common.Dict.{
  Dict, lookup, insert, lookup-insert, lookup-erase, HasKeysApart, insert-HasKeysApart,
}
use lo_lprox_chat.Speakers.{Speaking, note_loud, is_done, start_one, settle_one, settle_all}

-- The last time that a key was loud, after a sample.
abbrev pub loud_since : (String → ℕ) → ℕ → String → Option ℕ → Option ℕ → Option ℕ
loud_since threshold now key none last = last
loud_since threshold now key (some level) last =
    if leb (threshold key) level then some now else last

pub noted :
    (threshold : String → ℕ) (now : ℕ) (k key : String) (level : ℕ) (last : Dict String ℕ)
    → k ≡ key
    → lookup key (if leb (threshold k) level then insert k now last else last)
      ≡ (if leb (threshold key) level then some now else lookup key last)
noted threshold now k key level last e = ground (arith, lookup-insert k key now last, eq_iff k key)

pub noted_other :
    (threshold : String → ℕ) (now : ℕ) (k key : String) (level : ℕ) (last : Dict String ℕ)
    → (k == key) ≡ false
    → lookup key (if leb (threshold k) level then insert k now last else last) ≡ lookup key last
noted_other threshold now k key level last e = ground (arith, lookup-insert k key now last)

pub lookup-note_loud :
    (threshold : String → ℕ) (now : ℕ) (key : String) (levels last : Dict String ℕ)
    → HasKeysApart levels
    → lookup key (note_loud threshold now levels last)
      ≡ loud_since threshold now key (lookup key levels) (lookup key last)
unfolding note_loud lookup
lookup-note_loud threshold now key [] last h = refl
lookup-note_loud threshold now key ((k, level) ∷ levels) last h = elim (Bool-cases (k == key)) [
  | inl same ↦
      let is : k ≡ key = (eq_iff k key).0 same in
      let gone : lookup key levels ≡ none = rw is at h.0 in
      lookup-note_loud threshold now key levels _ h.1
      ∙ rw (gone, same) (noted threshold now k key level last is)
  | inr other ↦
      lookup-note_loud threshold now key levels _ h.1
      ∙ rw other (
          ap (loud_since threshold now key (lookup key levels))
            (noted_other threshold now k key level last other))
]

pub note_loud-HasKeysApart :
    (threshold : String → ℕ) (now : ℕ) (levels last : Dict String ℕ)
    → HasKeysApart last
    → HasKeysApart (note_loud threshold now levels last)
unfolding note_loud
note_loud-HasKeysApart threshold now [] last h = h
note_loud-HasKeysApart threshold now ((k, level) ∷ levels) last h =
    note_loud-HasKeysApart threshold now levels _ (
      if_holds HasKeysApart (leb (threshold k) level) (insert k now last) last
        (λ e. insert-HasKeysApart k now last h) (λ e. h))

-- What is left of a key after the second loop.
abbrev pub kept : Dict String ℕ → ℕ → String → Option ℕ → Option ℕ → Option ℕ
kept levels now key none old = old
kept levels now key (some ms) old = if is_done levels now key ms then none else old

abbrev pub or_now : ℕ → Option ℕ → Option ℕ
or_now now none = some now
or_now now (some t) = some t

abbrev pub begun : Dict String ℕ → ℕ → String → Option ℕ → Option ℕ → Option ℕ
begun levels now key none old = old
begun levels now key (some ms) old = if is_done levels now key ms then none else or_now now old

pub start_one-lookup :
    (s : Speaking) (key : String) (now : ℕ) (o : Option ℕ) (other : String)
    → lookup key s.started_ms ≡ o
    → ((start_one s key now o).last_loud_ms ≡ s.last_loud_ms)
      × (lookup other (start_one s key now o).started_ms ≡ (
          if key == other
          then or_now now (lookup other s.started_ms)
          else lookup other s.started_ms))
start_one-lookup s key now none other e =
    (refl, ground (arith, lookup-insert key other now s.started_ms, eq_iff key other))
start_one-lookup s key now (some t) other e = (refl, ground (arith, eq_iff key other))

-- A round changes what there is of its key only.
pub settle_one-lookup :
    (levels : Dict String ℕ) (now : ℕ) (s : Speaking) (key : String) (ms : ℕ) (other : String)
    → let t = settle_one levels now s key ms in
      (lookup other t.last_loud_ms ≡ (
        if key == other
        then kept levels now key (some ms) (lookup other s.last_loud_ms)
        else lookup other s.last_loud_ms))
      × (lookup other t.started_ms ≡ (
          if key == other
          then begun levels now key (some ms) (lookup other s.started_ms)
          else lookup other s.started_ms))
unfolding settle_one
settle_one-lookup levels now s key ms other =
    let started = start_one-lookup s key now (lookup key s.started_ms) other refl in
    elim (Bool-cases (is_done levels now key ms)) [
      | inl e ↦ rw e (lookup-erase key other s.last_loud_ms, lookup-erase key other s.started_ms)
      | inr e ↦ rw e (ground (arith, started.0), started.1)
    ]

pub settle_all-lookup :
    (levels : Dict String ℕ) (now : ℕ) (entries : Dict String ℕ) (s : Speaking) (key : String)
    → HasKeysApart entries
    → let t = settle_all levels now entries s in
      (lookup key t.last_loud_ms
        ≡ kept levels now key (lookup key entries) (lookup key s.last_loud_ms))
      × (lookup key t.started_ms
          ≡ begun levels now key (lookup key entries) (lookup key s.started_ms))
unfolding settle_all lookup
settle_all-lookup levels now [] s key h = (refl, refl)
settle_all-lookup levels now ((k, ms) ∷ entries) s key h =
    let one = settle_one-lookup levels now s k ms key in
    let rest = settle_all-lookup levels now entries (settle_one levels now s k ms) key h.1 in
    elim (Bool-cases (k == key)) [
      | inl same ↦
          let is : k ≡ key = (eq_iff k key).0 same in
          let gone : lookup key entries ≡ none = rw is at h.0 in
          let t = settle_one levels now s k ms in
          rw same (
            rest.0
                ∙ ap (λ o. kept levels now key o (lookup key t.last_loud_ms)) gone
                ∙ one.0
                ∙ rw (same, is) refl,
            rest.1
                ∙ ap (λ o. begun levels now key o (lookup key t.started_ms)) gone
                ∙ one.1
                ∙ rw (same, is) refl,
          )
      | inr other ↦ rw other (
        rest.0 ∙ ap (kept levels now key (lookup key entries)) (one.0 ∙ rw other refl),
        rest.1 ∙ ap (begun levels now key (lookup key entries)) (one.1 ∙ rw other refl),
      )
    ]
