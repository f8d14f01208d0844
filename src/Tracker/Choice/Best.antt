-- ===== src/Tracker/Choice/Best.antt =====
-- src/services/tracking-helpers.ts: what is known of the blob that is followed, or locked again.
use lo_lprox_chat.Common.{
  ℕ, ◌*◌, max, ◌≤◌, ◌≡◌, ◌⊎◌, inl, inr, refl, sym, Bool, true, false, Option, none, some, List, [],
  ◌∷◌, ltb, leb, arith, In, All, Bool-cases, Option-cases,
}
use mathlib.Core.Path.{subst}
use lo_lprox_chat.Tracker.{Point, distance_sq}
use lo_lprox_chat.Tracker.Pick.{IsBetter, IsNoBetter, pick-IsNoBetter, pick-passes}
use lo_lprox_chat.Tracker.Choice.{
  Blob, Score, is_higher, is_in_range, is_near, may_follow, score_of, pick_best_blob_in_range,
  pick_classifier_reacquisition, reacquire_threshold_at, reacquire_reach_units, is_in_base_zone,
  far_reacquire_threshold,
}

is_higher-IsBetter : (score : Blob → Score) → IsBetter (λ b best. is_higher (score b) (score best))
is_higher-IsBetter score = record {
  irreflexive = λ x. ground arith;
  transitive = λ x y z e f. ground (arith, e, f);
}

All-In : {A : Type 0} (P : A → Type 0) (xs : List A) (x : A) → All P xs → In x xs → P x
All-In P [] x h i = absurd i
All-In P (y ∷ xs) x h (inl e) = subst P (sym e) h.0
All-In P (y ∷ xs) x h (inr i) = All-In P xs x h.1 i

module _ (last predicted : Point) (max_jump near_field : ℕ) (has_classifier : Bool)
    (cls white : Blob → ℕ) where
  abbrev follows : Blob → Bool
  follows = may_follow last predicted max_jump near_field has_classifier cls white

  abbrev scores : Blob → Score
  scores = score_of last predicted max_jump near_field has_classifier cls white

  -- The blob with the highest score of those that may be followed, or none, where none may.
  abbrev pub IsBest : List Blob → Option Blob → Type 0
  IsBest blobs none =
      All (λ b. may_follow last predicted max_jump near_field has_classifier cls white b ≡ false)
        blobs
  IsBest blobs (some best) =
      In best blobs
      × (may_follow last predicted max_jump near_field has_classifier cls white best ≡ true)
      × All
          (λ b.
            (may_follow last predicted max_jump near_field has_classifier cls white b ≡ false)
            ⊎ (is_higher (score_of last predicted max_jump near_field has_classifier cls white b)
                  (score_of last predicted max_jump near_field has_classifier cls white best)
                ≡ false))
          blobs

  -- The blob that is followed is the best of those that may be; and there is one if any may be.
  pub pick_best_blob_in_range_lem :
      (blobs : List Blob) (found : Option Blob)
      → pick_best_blob_in_range last predicted max_jump near_field has_classifier cls white blobs
        ≡ found
      → IsBest blobs found
  unfolding pick_best_blob_in_range
  pick_best_blob_in_range_lem blobs none e =
      subst
        (λ o.
          All
            (IsNoBetter follows (λ b best. is_higher (scores b) (scores best))
              (is_higher-IsBetter scores) o)
            blobs)
        e
        (pick-IsNoBetter follows (λ b best. is_higher (scores b) (scores best))
          (is_higher-IsBetter scores) none blobs)
  pick_best_blob_in_range_lem blobs (some best) e =
      let (member, ok) =
        pick-passes follows (λ b best. is_higher (scores b) (scores best))
          (is_higher-IsBetter scores) blobs best e in
      (
        member,
        ok,
        subst
            (λ o.
              All
                (IsNoBetter follows (λ b best. is_higher (scores b) (scores best))
                  (is_higher-IsBetter scores) o)
                blobs)
            e
            (pick-IsNoBetter follows (λ b best. is_higher (scores b) (scores best))
              (is_higher-IsBetter scores) none blobs),
      )

  near_may_follow :
      (b : Blob)
      → is_in_range last predicted max_jump near_field has_classifier cls white b ≡ true
      → is_near last predicted max_jump near_field has_classifier cls white b ≡ true
      → follows b ≡ true
  unfolding may_follow
  near_may_follow b range near = ground (arith, range, near)

  -- A blob near where the icon was, or is expected, is never lost, whatever the classifier says of it:
  -- some blob is followed.
  pub near-followed :
      (blobs : List Blob) (b : Blob)
      → In b blobs
      → is_in_range last predicted max_jump near_field has_classifier cls white b ≡ true
      → is_near last predicted max_jump near_field has_classifier cls white b ≡ true
      → (best : Blob) × (pick_best_blob_in_range last predicted max_jump near_field has_classifier
            cls white blobs
          ≡ some best)
  near-followed blobs b member range near =
      let found =
        pick_best_blob_in_range last predicted max_jump near_field has_classifier cls white blobs in
      elim (Option-cases found) [
        | inl lost ↦
            let k =
              All-In (λ b. follows b ≡ false) blobs b (pick_best_blob_in_range_lem blobs none lost)
                member in
            absurd (let j = near_may_follow b range near in ground (arith, k, j))
        | inr (best, e) ↦ (best, e)
      ]

reacquire_threshold_at_lem :
    (ordinary : ℕ) (candidate : Point) (last : Option Point) (elapsed_ms width height level : ℕ)
    → reacquire_threshold_at ordinary candidate last elapsed_ms width height ≤ level
    → (ordinary ≤ level)
      × ((last ≡ none)
          ⊎ ((seen : Point) × (last ≡ some seen)
              × (distance_sq candidate seen
                  ≤ reacquire_reach_units elapsed_ms * reacquire_reach_units elapsed_ms))
          ⊎ (is_in_base_zone candidate width height ≡ true)
          ⊎ (far_reacquire_threshold ≤ level))
unfolding reacquire_threshold_at
reacquire_threshold_at_lem ordinary candidate none elapsed_ms width height level h = (h, inl refl)
reacquire_threshold_at_lem ordinary candidate (some seen) elapsed_ms width height level h =
    let reach_sq = reacquire_reach_units elapsed_ms * reacquire_reach_units elapsed_ms in
    elim (Bool-cases (leb (distance_sq candidate seen) reach_sq)) [
      | inl e ↦ (rw e at h, inr (inl (seen, refl, ground (arith, e))))
      | inr e ↦ elim (Bool-cases (is_in_base_zone candidate width height)) [
        | inl b ↦ (let k = h in rw (e, b) at k, inr (inr (inl b)))
        | inr b ↦
            let k : max ordinary far_reacquire_threshold ≤ level = rw (e, b) at h in
            (omega (arith, k), inr (inr (inr (omega (arith, k)))))
      ]
    ]

-- A blob that is locked again is the player's by the ordinary threshold, and if it lies further off
-- than a champion gets in the time and in no base, by the far one.
pub reacquired_lem :
    (ordinary : ℕ) (place : Blob → Point) (last : Option Point) (elapsed_ms width height : ℕ)
    (cls : Blob → ℕ) (blobs : List Blob) (b : Blob)
    → pick_classifier_reacquisition
        (λ b. reacquire_threshold_at ordinary (place b) last elapsed_ms width height)
        cls
        blobs
      ≡ some b
    → In b blobs
      × (ordinary ≤ cls b)
      × ((last ≡ none)
          ⊎ ((seen : Point) × (last ≡ some seen)
              × (distance_sq (place b) seen
                  ≤ reacquire_reach_units elapsed_ms * reacquire_reach_units elapsed_ms))
          ⊎ (is_in_base_zone (place b) width height ≡ true)
          ⊎ (far_reacquire_threshold ≤ cls b))
unfolding pick_classifier_reacquisition
reacquired_lem ordinary place last elapsed_ms width height cls blobs b e =
    let threshold : Blob → ℕ =
      λ b. reacquire_threshold_at ordinary (place b) last elapsed_ms width height in
    let (member, ok) =
      pick-passes (λ b. leb (threshold b) (cls b)) (λ b best. ltb (cls best) (cls b))
        (record { irreflexive = λ x. ground arith; transitive = λ x y z e f. ground (arith, e, f) })
        blobs b e in
    let above : threshold b ≤ cls b = ground (arith, ok) in
    let (level, why) =
      reacquire_threshold_at_lem ordinary (place b) last elapsed_ms width height (cls b) above in
    (member, level, why)
