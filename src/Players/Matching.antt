-- ===== src/Players/Matching.antt =====
-- src/core/identity.ts: which player of the roster is the local one.
use mathlib.Core.Path.{subst}
use lo_lprox_chat.Common.{
  ℕ, zero, suc, ◌+◌, ◌≡◌, ◌↔◌, refl, ap, ◌∙◌, Bool, true, false, some, List, [], ◌∷◌, get_elem?,
  arith, Bool-cases, inl, inr,
}
use lo_lprox_chat.Players.{
  Identity, on_key, on_game_name, same_key, same_game_name, indexes, by_game_name, match_in,
  match_local,
}

module _ {A : Type 0} where
  -- No entry has it.
  abbrev pub IsNowhere : (A → Bool) → List A → Type 0
  IsNowhere p xs = (i : ℕ) (x : A) → get_elem? xs i ≡ some x → p x ≡ false

  -- The entry at `i` has it, and no other.
  pub record IsAlone (p : A → Bool) (xs : List A) (i : ℕ) : Type 0 where
    pub here : (x : A) × (get_elem? xs i ≡ some x) × (p x ≡ true)
    pub only : (j : ℕ) (y : A) → get_elem? xs j ≡ some y → p y ≡ true → j ≡ i

  IsNowhere-tail : (p : A → Bool) (x : A) (xs : List A) → IsNowhere p (x ∷ xs) → IsNowhere p xs
  IsNowhere-tail p x xs h i y e = h (suc i) y e

  IsNowhere-cons :
      (p : A → Bool) (x : A) (xs : List A) → p x ≡ false → IsNowhere p xs → IsNowhere p (x ∷ xs)
  IsNowhere-cons p x xs e h zero y at_i = ground arith
  IsNowhere-cons p x xs e h (suc i) y at_i = h i y at_i

  indexes-IsNowhere :
      (p : A → Bool) (from : ℕ) (xs : List A) → (indexes p from xs ≡ []) ↔ IsNowhere p xs
  unfolding indexes
  indexes-IsNowhere p from [] = (λ e i x h. absurd (ground arith), λ h. refl)
  indexes-IsNowhere p from (x ∷ xs) =
      let ih = indexes-IsNowhere p (suc from) xs in
      elim (Bool-cases (p x)) [
        | inl e ↦ rw e (λ k. absurd (ground arith), λ h. absurd (ground (arith, h zero x refl)))
        | inr e ↦ rw e (
          λ k i y at_i. IsNowhere-cons p x xs e (ih.0 k) i y at_i,
          λ h. ih.1 (λ i y at_i. h (suc i) y at_i),
        )
      ]

  IsAlone-first :
      (p : A → Bool) (x : A) (xs : List A) → p x ≡ true → IsNowhere p xs → IsAlone p (x ∷ xs) zero
  IsAlone-first p x xs e h = record { here = (x, refl, e); only = first }
    where
      first : (j : ℕ) (y : A) → get_elem? (x ∷ xs) j ≡ some y → p y ≡ true → j ≡ 0
      first zero y at_j q = refl
      first (suc j) y at_j q = absurd (ground (arith, h j y at_j))

  IsAlone-later :
      (p : A → Bool) (x : A) (xs : List A) (i : ℕ)
      → p x ≡ false
      → IsAlone p xs i
      → IsAlone p (x ∷ xs) (suc i)
  IsAlone-later p x xs i e h = record { here = h.here; only = later }
    where
      later : (j : ℕ) (y : A) → get_elem? (x ∷ xs) j ≡ some y → p y ≡ true → j ≡ suc i
      later zero y at_j q = absurd (ground arith)
      later (suc j) y at_j q = ap suc (h.only j y at_j q)

  indexes-one :
      (p : A → Bool) (from k : ℕ) (xs : List A)
      → indexes p from xs ≡ k ∷ []
      → (i : ℕ) × (k ≡ from + i) × IsAlone p xs i
  unfolding indexes
  indexes-one p from k [] e = absurd (ground arith)
  indexes-one p from k (x ∷ xs) e = elim (Bool-cases (p x)) [
    | inl q ↦
        let both : (from ∷ indexes p (suc from) xs) ≡ k ∷ [] = rw q at e in
        (
          0,
          ground arith,
          IsAlone-first p x xs q ((indexes-IsNowhere p (suc from) xs).0 (ground arith)),
        )
    | inr q ↦
        let (i, k_is, alone) = indexes-one p (suc from) k xs (rw q at e) in
        (suc i, omega (arith, k_is), IsAlone-later p x xs i q alone)
  ]

  alone-indexes :
      (p : A → Bool) (from i : ℕ) (xs : List A)
      → IsAlone p xs i
      → indexes p from xs ≡ (from + i) ∷ []
  unfolding indexes
  alone-indexes p from i [] h = absurd (let (x, e, q) = h.here in ground arith)
  alone-indexes p from zero (x ∷ xs) h =
      let (y, e, q) = h.here in
      let px : p x ≡ true = ground arith in
      rw
        (
          px,
          (indexes-IsNowhere p (suc from) xs).1 (λ i z at_i. elim (Bool-cases (p z)) [
            | inl t ↦ absurd (let k = h.only (suc i) z at_i t in omega (arith, k))
            | inr f ↦ f
          ]),
        )
        (ap (λ k. k ∷ []) (omega arith))
  alone-indexes p from (suc i) (x ∷ xs) h = elim (Bool-cases (p x)) [
    | inl t ↦ absurd (let k = h.only 0 x refl t in omega (arith, k))
    | inr f ↦
        let rest : IsAlone p xs i = record {
          here = h.here;
          only = λ j y e q. let k = h.only (suc j) y e q in omega (arith, k);
        } in
        rw f (alone-indexes p (suc from) i xs rest ∙ ap (λ k. k ∷ []) (omega arith))
  ]

IsAlone-at :
    {A : Type 0} (p : A → Bool) (xs : List A) (i : ℕ) → indexes p 0 xs ≡ i ∷ [] → IsAlone p xs i
IsAlone-at p xs i e =
    let (j, i_is, alone) = indexes-one p 0 i xs e in
    subst (IsAlone p xs) (omega (arith, i_is)) alone

match_in_iff :
    (keys names : List ℕ) (i : ℕ)
    → ((match_in keys names ≡ some (i, on_key)) ↔ (keys ≡ i ∷ []))
      × ((match_in keys names ≡ some (i, on_game_name)) ↔ ((keys ≡ []) × (names ≡ i ∷ [])))
unfolding match_in by_game_name
match_in_iff (k ∷ []) names i = ground arith
match_in_iff (k ∷ l ∷ keys) names i = ground arith
match_in_iff [] [] i = ground arith
match_in_iff [] (n ∷ []) i = ground arith
match_in_iff [] (n ∷ m ∷ names) i = ground arith

-- The local player is the entry at `i` exactly if it is the only one with the same full Riot ID, or
-- none has that and it is the only one with the same name where one of the two has no tag line. So
-- where several would do, nobody is taken.
pub match_local_iff :
    (roster : List Identity) (local : Identity) (i : ℕ)
    → ((match_local roster local ≡ some (i, on_key)) ↔ IsAlone (same_key local) roster i)
      × ((match_local roster local ≡ some (i, on_game_name))
          ↔ (IsNowhere (same_key local) roster × IsAlone (same_game_name local) roster i))
unfolding match_local
match_local_iff roster local i =
    let keys = indexes (same_key local) 0 roster in
    let names = indexes (same_game_name local) 0 roster in
    let split = match_in_iff keys names i in
    let nowhere = indexes-IsNowhere (same_key local) 0 roster in
    (
      (
        λ e. IsAlone-at (same_key local) roster i (split.0.0 e),
        λ h.
            split.0.1
              (alone-indexes (same_key local) 0 i roster h ∙ ap (λ k. k ∷ []) (omega arith)),
      ),
      (
        λ e.
            let (none_by_key, one_name) = split.1.0 e in
            (nowhere.0 none_by_key, IsAlone-at (same_game_name local) roster i one_name),
        λ h. split.1.1 (
          nowhere.1 h.0,
          alone-indexes (same_game_name local) 0 i roster h.1 ∙ ap (λ k. k ∷ []) (omega arith),
        ),
      ),
    )
