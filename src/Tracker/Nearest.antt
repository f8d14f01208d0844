-- ===== src/Tracker/Nearest.antt =====
-- src/services/tracking-helpers.ts: the loops that look for the nearest of several points.
use mathlib.Core.Path.{subst}
use lo_lprox_chat.Common.{
  ℕ, suc, ◌+◌, ◌≤◌, ◌<◌, ◌≡◌, ◌⊎◌, inl, inr, refl, Option, none, some, List, [], ◌∷◌, leb, arith,
  All, get_elem?, if_holds, if◌then◌else◌,
}
use lo_lprox_chat.Tracker.{Point, distance_sq}

-- The place in the list of the point found so far.
pub record Found : Type 0 where
  pub place : ℕ
  pub d_sq : ℕ

abbrev pub within : Option Found → ℕ → ℕ
within none reach_sq = reach_sq
within (some f) reach_sq = f.d_sq

-- `let bestD = reach; for ... { if (d <= bestD) { best = m; bestD = d } }`: of equals the last.
unfoldable pub nearest_from : Point → ℕ → ℕ → Option Found → List Point → Option Found
nearest_from at reach_sq i found [] = found
nearest_from at reach_sq i found (p ∷ ps) =
    nearest_from at reach_sq (suc i)
      (if leb (distance_sq p at) (within found reach_sq)
        then some (record { place = i; d_sq = distance_sq p at })
        else found)
      ps

unfoldable pub nearest : Point → ℕ → List Point → Option Found
unfolding nearest_from
nearest at reach_sq ps = nearest_from at reach_sq 0 none ps

-- Not nearer than what is found.
abbrev pub IsBeaten : Option Found → ℕ → ℕ → Type 0
IsBeaten none reach_sq d_sq = reach_sq < d_sq
IsBeaten (some f) reach_sq d_sq = f.d_sq ≤ d_sq

module _ (at : Point) (reach_sq : ℕ) where
  abbrev updated : ℕ → Option Found → ℕ → Option Found
  updated i found d_sq =
      if leb d_sq (within found reach_sq) then some (record { place = i; d_sq = d_sq }) else found

  updated-IsBeaten :
      (i : ℕ) (found : Option Found) (d_sq old : ℕ)
      → IsBeaten found reach_sq old
      → IsBeaten (updated i found d_sq) reach_sq old
  updated-IsBeaten i none d_sq old h =
      if_holds (λ f. IsBeaten f reach_sq old) (leb d_sq reach_sq)
        (some (record { place = i; d_sq = d_sq })) none (λ e. ground arith) (λ e. h)
  updated-IsBeaten i (some f) d_sq old h =
      if_holds (λ f. IsBeaten f reach_sq old) (leb d_sq f.d_sq)
        (some (record { place = i; d_sq = d_sq })) (some f) (λ e. ground arith) (λ e. h)

  updated-IsBeaten_self :
      (i : ℕ) (found : Option Found) (d_sq : ℕ) → IsBeaten (updated i found d_sq) reach_sq d_sq
  updated-IsBeaten_self i none d_sq =
      if_holds (λ f. IsBeaten f reach_sq d_sq) (leb d_sq reach_sq)
        (some (record { place = i; d_sq = d_sq })) none (λ e. ground arith) (λ e. ground arith)
  updated-IsBeaten_self i (some f) d_sq =
      if_holds (λ f. IsBeaten f reach_sq d_sq) (leb d_sq f.d_sq)
        (some (record { place = i; d_sq = d_sq })) (some f) (λ e. ground arith) (λ e. ground arith)

  nearest_from-IsBeaten_before :
      (i : ℕ) (found : Option Found) (ps : List Point) (old : ℕ)
      → IsBeaten found reach_sq old
      → IsBeaten (nearest_from at reach_sq i found ps) reach_sq old
  unfolding nearest_from
  nearest_from-IsBeaten_before i found [] old h = h
  nearest_from-IsBeaten_before i found (p ∷ ps) old h =
      nearest_from-IsBeaten_before (suc i) (updated i found (distance_sq p at)) ps old
        (updated-IsBeaten i found (distance_sq p at) old h)

  nearest_from-IsBeaten :
      (i : ℕ) (found : Option Found) (ps : List Point)
      → All (λ q. IsBeaten (nearest_from at reach_sq i found ps) reach_sq (distance_sq q at)) ps
  unfolding nearest_from
  nearest_from-IsBeaten i found [] = tt
  nearest_from-IsBeaten i found (p ∷ ps) =
      let next = updated i found (distance_sq p at) in
      (
        nearest_from-IsBeaten_before (suc i) next ps (distance_sq p at)
            (updated-IsBeaten_self i found (distance_sq p at)),
        nearest_from-IsBeaten (suc i) next ps,
      )

  -- Where what is found comes from.
  abbrev From : ℕ → Option Found → List Point → Found → Type 0
  From i found ps f =
      (found ≡ some f)
      ⊎ ((j : ℕ) × (p : Point) × (get_elem? ps j ≡ some p)
          × (f.place ≡ i + j)
          × (f.d_sq ≡ distance_sq p at)
          × (f.d_sq ≤ reach_sq))

  updated-From :
      (i : ℕ) (found : Option Found) (p : Point) (ps : List Point) (f : Found)
      → within found reach_sq ≤ reach_sq
      → updated i found (distance_sq p at) ≡ some f
      → From i found (p ∷ ps) f
  updated-From i found p ps f h =
      if_holds (λ r. r ≡ some f → From i found (p ∷ ps) f)
        (leb (distance_sq p at) (within found reach_sq))
        (some (record { place = i; d_sq = distance_sq p at })) found
        (λ e is. inr (0, p, refl, ground arith, ground arith, ground arith)) (λ e is. inl is)

  nearest_from-From :
      (i : ℕ) (found : Option Found) (ps : List Point) (f : Found)
      → within found reach_sq ≤ reach_sq
      → nearest_from at reach_sq i found ps ≡ some f
      → From i found ps f
  unfolding nearest_from
  nearest_from-From i found [] f h e = inl e
  nearest_from-From i found (p ∷ ps) f h e =
      let next = updated i found (distance_sq p at) in
      let low : within next reach_sq ≤ reach_sq =
        if_holds (λ r. within r reach_sq ≤ reach_sq)
          (leb (distance_sq p at) (within found reach_sq))
          (some (record { place = i; d_sq = distance_sq p at })) found (λ e. ground arith)
          (λ e. h) in
      elim (nearest_from-From (suc i) next ps f low e) [
        | inl here ↦ updated-From i found p ps f h here
        | inr (j, q, is, place, d, r) ↦ inr (suc j, q, is, omega arith, d, r)
      ]

  -- None is nearer than what is found; if nothing is found, no point is within reach.
  pub nearest-IsBeaten :
      (ps : List Point)
      → All (λ q. IsBeaten (nearest at reach_sq ps) reach_sq (distance_sq q at)) ps
  unfolding nearest
  nearest-IsBeaten ps = nearest_from-IsBeaten 0 none ps

  -- What is found is a point of the list within reach.
  pub nearest-get_elem? :
      (ps : List Point) (f : Found)
      → nearest at reach_sq ps ≡ some f
      → (p : Point) × (get_elem? ps f.place ≡ some p)
        × (f.d_sq ≡ distance_sq p at)
        × (f.d_sq ≤ reach_sq)
  unfolding nearest
  nearest-get_elem? ps f e = elim (nearest_from-From 0 none ps f (omega arith) e) [
    | inl nothing ↦ absurd (ground (arith, nothing))
    | inr (j, p, is, place, d, r) ↦
        let here : j ≡ f.place = omega (arith, place) in
        (p, subst (λ j. get_elem? ps j ≡ some p) here is, d, r)
  ]
