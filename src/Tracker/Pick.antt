-- ===== src/Tracker/Pick.antt =====
-- src/services/tracking-helpers.ts: the loops that keep the best of those that pass a test.
use lo_lprox_chat.Common.{
  ◌≡◌, ◌⊎◌, inl, inr, Bool, true, false, ◌&&◌, Option, none, some, List, [], ◌∷◌, arith, In, All,
  if_holds, if◌then◌else◌, Bool-cases,
}

-- `!best || x is better`.
abbrev pub beats {ℓ} : {A : Type ℓ} → (A → A → Bool) → A → Option A → Bool
beats better x none = true
beats better x (some best) = better x best

-- `for (...) { if (!ok) continue; if (!best || better) best = x; }`.
unfoldable pub pick {ℓ} : {A : Type ℓ} → (A → Bool) → (A → A → Bool) → Option A → List A → Option A
pick ok better best [] = best
pick ok better best (x ∷ xs) =
    pick ok better (if ok x && beats better x best then some x else best) xs

-- An order, as far as the loop needs one.
pub record IsBetter {ℓ} {A : Type ℓ} (better : A → A → Bool) : Type ℓ where
  pub irreflexive : (x : A) → better x x ≡ false
  pub transitive : (x y z : A) → better x y ≡ true → better y z ≡ true → better x z ≡ true

module _ {A : Type 0} (ok : A → Bool) (better : A → A → Bool) (order : IsBetter better) where
  -- What does not pass, or is not better than what is kept.
  abbrev pub IsNoBetter : Option A → A → Type 0
  IsNoBetter none x = ok x ≡ false
  IsNoBetter (some best) x = (ok x ≡ false) ⊎ (better x best ≡ false)

  abbrev step : A → Option A → Option A
  step x best = if ok x && beats better x best then some x else best

  replaced : (x old y : A) → better x old ≡ true → better y old ≡ false → better y x ≡ false
  replaced x old y up down = elim (Bool-cases (better y x)) [
    | inl e ↦ absurd (let k = order.transitive y x old e up in ground arith)
    | inr e ↦ e
  ]

  step-IsNoBetter :
      (x : A) (best : Option A) (y : A) → IsNoBetter best y → IsNoBetter (step x best) y
  step-IsNoBetter x none y h =
      if_holds (λ o. IsNoBetter o y) (ok x && true) (some x) none (λ e. inl h) (λ e. h)
  step-IsNoBetter x (some old) y h =
      if_holds (λ o. IsNoBetter o y) (ok x && better x old) (some x) (some old)
        (λ e. elim h [
          | inl fails ↦ inl fails
          | inr down ↦ inr (replaced x old y (ground (arith, e)) down)
        ])
        (λ e. h)

  step-IsNoBetter_self : (x : A) (best : Option A) → IsNoBetter (step x best) x
  step-IsNoBetter_self x none =
      if_holds (λ o. IsNoBetter o x) (ok x && true) (some x) none (λ e. inr (order.irreflexive x))
        (λ e. ground (arith, e))
  step-IsNoBetter_self x (some old) =
      if_holds (λ o. IsNoBetter o x) (ok x && better x old) (some x) (some old)
        (λ e. inr (order.irreflexive x)) (λ e. ground (arith, e))

  pick-IsNoBetter_before :
      (best : Option A) (xs : List A) (y : A)
      → IsNoBetter best y
      → IsNoBetter (pick ok better best xs) y
  unfolding pick
  pick-IsNoBetter_before best [] y h = h
  pick-IsNoBetter_before best (x ∷ xs) y h =
      pick-IsNoBetter_before (step x best) xs y (step-IsNoBetter x best y h)

  -- Nothing that passes is better than what is picked, and if nothing is picked, nothing passes.
  pub pick-IsNoBetter :
      (best : Option A) (xs : List A) → All (IsNoBetter (pick ok better best xs)) xs
  unfolding pick
  pick-IsNoBetter best [] = tt
  pick-IsNoBetter best (x ∷ xs) = (
    pick-IsNoBetter_before (step x best) xs x (step-IsNoBetter_self x best),
    pick-IsNoBetter (step x best) xs,
  )

  -- What is picked passes.
  abbrev Passes : Option A → List A → A → Type 0
  Passes best xs y = (best ≡ some y) ⊎ (In y xs × (ok y ≡ true))

  step-Passes :
      (x : A) (best : Option A) (xs : List A) (y : A)
      → step x best ≡ some y
      → Passes best (x ∷ xs) y
  step-Passes x best xs y =
      if_holds (λ o. o ≡ some y → Passes best (x ∷ xs) y) (ok x && beats better x best) (some x)
        best
        (λ e is.
          let same : y ≡ x = ground (arith, is) in inr (inl same, rw same (ground (arith, e))))
        (λ e is. inl is)

  pick-Passes_before :
      (best : Option A) (xs : List A) (y : A) → pick ok better best xs ≡ some y → Passes best xs y
  unfolding pick
  pick-Passes_before best [] y e = inl e
  pick-Passes_before best (x ∷ xs) y e = elim (pick-Passes_before (step x best) xs y e) [
    | inl here ↦ step-Passes x best xs y here
    | inr (later, passes) ↦ inr (inr later, passes)
  ]

  pub pick-passes :
      (xs : List A) (y : A) → pick ok better none xs ≡ some y → In y xs × (ok y ≡ true)
  pick-passes xs y e = elim (pick-Passes_before none xs y e) [
    | inl nothing ↦ absurd (ground (arith, nothing))
    | inr h ↦ h
  ]
