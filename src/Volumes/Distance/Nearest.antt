-- ===== src/Volumes/Distance/Nearest.antt =====
-- `closestApproach` of server/src/volumes.ts finds the least distance.
use lo_lprox_chat.Common.{
  ℕ, ◌≤◌, ◌≡◌, refl, Option, none, some, List, [], ◌∷◌, arith, In, inl, inr, ltb, if_holds,
}
use lo_lprox_chat.Client.{Point}
use lo_lprox_chat.Volumes.Distance.{hypot, nearer, approach_from, approach, closest_approach}

-- What has been found so far is at most `n`.
abbrev pub AtMost : Option ℕ → ℕ → Type 0
AtMost none n = ⊥
AtMost (some best) n = best ≤ n

-- What has been found so far, if anything, has the property `P`.
abbrev pub Reaches : (ℕ → Type 0) → Option ℕ → Type 0
Reaches P none = Unit
Reaches P (some best) = P best

nearer-AtMost : (best : Option ℕ) (d : ℕ) → AtMost (nearer best d) d
nearer-AtMost none d = omega arith
nearer-AtMost (some best) d = ground arith

nearer_keeps : (best : Option ℕ) (d n : ℕ) → AtMost best n → AtMost (nearer best d) n
nearer_keeps none d n h = absurd h
nearer_keeps (some best) d n h = ground arith

nearer-Reaches :
    (P : ℕ → Type 0) (best : Option ℕ) (d : ℕ) → Reaches P best → P d → Reaches P (nearer best d)
nearer-Reaches P none d h k = k
nearer-Reaches P (some best) d h k = if_holds P (ltb d best) d best (λ _. k) (λ _. h)

approach_from_keeps :
    (p : Point) (qs : List Point) (best : Option ℕ) (n : ℕ)
    → AtMost best n
    → AtMost (approach_from p qs best) n
unfolding approach_from
approach_from_keeps p [] best n h = h
approach_from_keeps p (q ∷ qs) best n h =
    approach_from_keeps p qs (nearer best (hypot p q)) n (nearer_keeps best (hypot p q) n h)

approach_from-AtMost :
    (p : Point) (qs : List Point) (best : Option ℕ) (q : Point)
    → In q qs
    → AtMost (approach_from p qs best) (hypot p q)
unfolding approach_from
approach_from-AtMost p [] best q m = absurd m
approach_from-AtMost p (r ∷ qs) best q (inl e) =
    approach_from_keeps p qs (nearer best (hypot p r)) (hypot p q)
      (rw e (nearer-AtMost best (hypot p r)))
approach_from-AtMost p (r ∷ qs) best q (inr m) =
    approach_from-AtMost p qs (nearer best (hypot p r)) q m

approach_from-Reaches :
    (P : ℕ → Type 0) (p : Point) (qs : List Point) (best : Option ℕ)
    → Reaches P best
    → ((q : Point) → In q qs → P (hypot p q))
    → Reaches P (approach_from p qs best)
unfolding approach_from
approach_from-Reaches P p [] best h k = h
approach_from-Reaches P p (q ∷ qs) best h k =
    approach_from-Reaches P p qs (nearer best (hypot p q))
      (nearer-Reaches P best (hypot p q) h (k q (inl refl))) (λ r m. k r (inr m))

approach_keeps :
    (ps qs : List Point) (best : Option ℕ) (n : ℕ) → AtMost best n → AtMost (approach ps qs best) n
unfolding approach
approach_keeps [] qs best n h = h
approach_keeps (p ∷ ps) qs best n h =
    approach_keeps ps qs (approach_from p qs best) n (approach_from_keeps p qs best n h)

approach-AtMost :
    (ps qs : List Point) (best : Option ℕ) (p q : Point)
    → In p ps
    → In q qs
    → AtMost (approach ps qs best) (hypot p q)
unfolding approach
approach-AtMost [] qs best p q m k = absurd m
approach-AtMost (r ∷ ps) qs best p q (inl e) k =
    approach_keeps ps qs (approach_from r qs best) (hypot p q)
      (rw e (approach_from-AtMost r qs best q k))
approach-AtMost (r ∷ ps) qs best p q (inr m) k =
    approach-AtMost ps qs (approach_from r qs best) p q m k

approach-Reaches :
    (P : ℕ → Type 0) (ps qs : List Point) (best : Option ℕ)
    → Reaches P best
    → ((p q : Point) → In p ps → In q qs → P (hypot p q))
    → Reaches P (approach ps qs best)
unfolding approach
approach-Reaches P [] qs best h k = h
approach-Reaches P (p ∷ ps) qs best h k =
    approach-Reaches P ps qs (approach_from p qs best)
      (approach_from-Reaches P p qs best h (λ q m. k p q (inl refl) m)) (λ r q m l. k r q (inr m) l)

-- A pair of points, one of each list, that is `d` apart.
pub record IsApart (ps qs : List Point) (d : ℕ) : Type 0 where
  pub from : Point
  pub to : Point
  pub listed_from : In from ps
  pub listed_to : In to qs
  pub apart : hypot from to ≡ d

-- The closest approach is the distance of some pair of points, and at most that of any other pair;
-- there is one as soon as there is a pair.
pub closest_approach_lem :
    (ps qs : List Point)
    → Reaches (IsApart ps qs) (closest_approach ps qs)
      × ((p q : Point) → In p ps → In q qs → AtMost (closest_approach ps qs) (hypot p q))
unfolding closest_approach
closest_approach_lem ps qs = (
  approach-Reaches (IsApart ps qs) ps qs none tt
      (λ p q m k. record { from = p; to = q; listed_from = m; listed_to = k; apart = refl }),
  approach-AtMost ps qs none,
)
