-- ===== src/Tracker/Dwell/Favourite/Watched.antt =====
-- src/services/tracking-helpers.ts: exactly when the camera names an icon.
use mathlib.Core.Path.{subst}
use lo_lprox_chat.Common.{
  ℕ, zero, suc, ◌+◌, ◌<◌, ◌≡◌, ◌↔◌, ◌⊎◌, inl, inr, refl, sym, ap, ◌∙◌, Bool, true, false, ◌&&◌,
  ◌||◌, not, none, some, List, [], ◌∷◌, filter, ◌==◌, nat_eq, nat_beq_iff, arith, In, All,
  All-weaken, In-filter, get_elem?, if_holds, Bool-cases,
}
use lo_lprox_chat.Tracker.Dwell.{DwellReading}
use lo_lprox_chat.Tracker.Dwell.Favourite.{
  numbered, dwell_counts, is_high, is_above_low, any_above_low, favourite_of, camera_favourite,
}

In-numbered :
    (k : ℕ) (readings : List DwellReading) (x : ℕ × DwellReading)
    → In x (numbered k readings)
    → (j : ℕ) × (x.0 ≡ k + j) × (get_elem? readings j ≡ some x.1)
In-numbered k [] x h = absurd h
In-numbered k (r ∷ readings) x (inl e) =
    (0, ap (λ y. y.0) e ∙ omega arith, ap (λ y. some y.1) (sym e))
In-numbered k (r ∷ readings) x (inr h) =
    let (j, place, got) = In-numbered (suc k) readings x h in (suc j, omega (arith, place), got)

module _ (p : ℕ × DwellReading → Bool) (i : ℕ) where
  -- Only what stands at the place may pass.
  abbrev IsAlone : ℕ × DwellReading → Type 0
  IsAlone x = (x.0 ≡ i) ⊎ (p x ≡ false)

  filter-none :
      (k : ℕ) (readings : List DwellReading)
      → i < k
      → All IsAlone (numbered k readings)
      → filter p (numbered k readings) ≡ []
  unfolding filter
  filter-none k [] before h = refl
  filter-none k (r ∷ readings) before h = elim h.0 [
    | inl e ↦ absurd (omega (arith, e, before))
    | inr e ↦ rw e (filter-none (suc k) readings (omega (arith, before)) h.1)
  ]

  filter-one :
      (k j : ℕ) (readings : List DwellReading) (r : DwellReading)
      → i ≡ k + j
      → get_elem? readings j ≡ some r
      → p (i, r) ≡ true
      → All IsAlone (numbered k readings)
      → filter p (numbered k readings) ≡ (i, r) ∷ []
  unfolding filter
  filter-one k j [] r place got holds h = absurd (ground (arith, got))
  filter-one k zero (q ∷ readings) r place got holds h =
      let here : (k, q) ≡ (i, r) = ground (arith, place, got) in
      let after : i < suc k = omega (arith, place) in
      let passes : p (k, q) ≡ true = ap p here ∙ holds in
      rw passes (
        ap (λ x. x ∷ filter p (numbered (suc k) readings)) here
        ∙ ap (λ xs. (i, r) ∷ xs) (filter-none (suc k) readings after h.1))
  filter-one k (suc j) (q ∷ readings) r place got holds h = elim h.0 [
    | inl e ↦ absurd (omega (arith, e, place))
    | inr e ↦ rw e (filter-one (suc k) j readings r (omega (arith, place)) got holds h.1)
  ]

filter-filter :
    (p q : ℕ × DwellReading → Bool) (xs : List (ℕ × DwellReading))
    → filter p (filter q xs) ≡ filter (λ x. q x && p x) xs
unfolding filter
filter-filter p q [] = refl
filter-filter p q (x ∷ xs) = elim (Bool-cases (q x)) [
  | inl e ↦ elim (Bool-cases (p x)) [
    | inl f ↦ rw (e, f) (ap (λ ys. x ∷ ys) (filter-filter p q xs))
    | inr f ↦ rw (e, f) (filter-filter p q xs)
  ]
  | inr e ↦ rw e (filter-filter p q xs)
]

-- Another icon than the one at `i` that counts was in view for a fifth of the time at most.
abbrev pub IsNotWatched : ℕ → ℕ × DwellReading → Type 0
IsNotWatched i r = (r.0 ≡ i) ⊎ (dwell_counts r.1 ≡ false) ⊎ (is_above_low r.1 ≡ false)

any_above_low_iff :
    (i : ℕ) (xs : List (ℕ × DwellReading))
    → (any_above_low (
          filter
            (λ (r : ℕ × DwellReading). not (r.0 == i))
            (filter (λ (r : ℕ × DwellReading). dwell_counts r.1) xs))
        ≡ false)
      ↔ All (IsNotWatched i) xs
unfolding filter any_above_low
any_above_low_iff i [] = (λ e. tt, λ h. refl)
any_above_low_iff i (x ∷ xs) =
    let rest = any_above_low_iff i xs in ground (arith, rest, nat_beq_iff x.0 i)

favourite_of-some :
    (ready high : List (ℕ × DwellReading)) (x : ℕ × DwellReading)
    → favourite_of ready high ≡ some x
    → (high ≡ x ∷ [])
      × (x.1.rejected ≡ false)
      × (any_above_low (filter (λ (r : ℕ × DwellReading). not (r.0 == x.0)) ready) ≡ false)
unfolding favourite_of
favourite_of-some ready [] x e = absurd (ground (arith, e))
favourite_of-some ready (h ∷ (g ∷ high)) x e = absurd (ground (arith, e))
favourite_of-some ready (h ∷ []) x found =
    let others = any_above_low (filter (λ (r : ℕ × DwellReading). not (r.0 == h.0)) ready) in
    if_holds
      (λ o.
        o ≡ some x
        → (h ∷ [] ≡ x ∷ [])
          × (x.1.rejected ≡ false)
          × (any_above_low (filter (λ (r : ℕ × DwellReading). not (r.0 == x.0)) ready) ≡ false))
      (h.1.rejected || others) none (some h) (λ _ e. absurd (ground (arith, e)))
      (λ free e.
        let same : h ≡ x = ground (arith, e) in
        let kept : h.1.rejected ≡ false = ground (arith, free) in
        let low : others ≡ false = ground (arith, free) in
        subst
          (λ x.
            (h ∷ [] ≡ x ∷ [])
            × (x.1.rejected ≡ false)
            × (any_above_low (filter (λ (r : ℕ × DwellReading). not (r.0 == x.0)) ready) ≡ false))
          same (refl, kept, low))
      found

favourite_of_one :
    (ready : List (ℕ × DwellReading)) (x : ℕ × DwellReading)
    → x.1.rejected ≡ false
    → any_above_low (filter (λ (r : ℕ × DwellReading). not (r.0 == x.0)) ready) ≡ false
    → favourite_of ready (x ∷ []) ≡ some x
unfolding favourite_of
favourite_of_one ready x kept low = rw (kept, low) refl

not_both :
    (i : ℕ) (x : ℕ × DwellReading)
    → IsNotWatched i x
    → IsAlone (λ x. dwell_counts x.1 && is_high x.1) i x
unfolding is_high is_above_low
not_both i x h = ground arith

-- The camera names an icon exactly if that counts, was in view for at least three fifths of the time
-- and was not rejected, and every other icon that counts was in view for a fifth of the time at most.
pub camera_favourite_iff :
    (readings : List DwellReading) (i : ℕ) (r : DwellReading)
    → (camera_favourite readings ≡ some (i, r)) ↔ (
        (get_elem? readings i ≡ some r)
        × (dwell_counts r ≡ true)
        × (is_high r ≡ true)
        × (r.rejected ≡ false)
        × All (IsNotWatched i) (numbered 0 readings))
unfolding camera_favourite
camera_favourite_iff readings i r =
    let counted : ℕ × DwellReading → Bool = λ x. dwell_counts x.1 in
    let high : ℕ × DwellReading → Bool = λ x. is_high x.1 in
    let all = numbered 0 readings in
    let ready = filter counted all in
    (
      λ e.
          let (only, kept, low) = favourite_of-some ready (filter high ready) (i, r) e in
          let here : In (i, r) (filter high ready) = subst (In (i, r)) (sym only) (inl refl) in
          let (in_ready, is_high_r) = In-filter high ready (i, r) here in
          let (in_all, counts) = In-filter counted all (i, r) in_ready in
          let (j, place, got) = In-numbered 0 readings (i, r) in_all in
          let at_i : j ≡ i = omega (arith, place) in
          (
            subst (λ j. get_elem? readings j ≡ some r) at_i got,
            counts,
            is_high_r,
            kept,
            (any_above_low_iff i all).0 low,
          ),
      λ h.
          let (got, counts, is_high_r, kept, low) = h in
          let one : filter (λ x. counted x && high x) all ≡ (i, r) ∷ [] =
            filter-one (λ x. counted x && high x) i 0 i readings r (omega arith) got
              (ground (arith, counts, is_high_r))
              (All-weaken (IsNotWatched i) (IsAlone (λ x. counted x && high x) i) all (not_both i)
                low) in
          ap (favourite_of ready) (filter-filter high counted all ∙ one)
          ∙ favourite_of_one ready (i, r) kept ((any_above_low_iff i all).1 low),
    )
