-- ===== src/Rooms/Entries.antt =====
-- Lists of references into the heap of server/src/rooms.ts, and the searches that `join` and
-- `leave` make in them.
use mathlib.Core.Bool.{false≢true}
use mathlib.Core.Path.{subst}
use lo_lprox_chat.Common.{
  ℕ, String, ◌≡◌, refl, sym, ◌∙◌, ◌≢◌, Bool-cases, inl, inr, Bool, true, some, List, [], ◌∷◌, arith,
  ◌==◌, nat_eq, string_eq, nat_beq_iff, All, In, All-append, ◌++◌,
}
use text.Mathlib.TextEquality.{eq_iff}
use lo_lprox_chat.Client.{Client}
use lo_lprox_chat.Rooms.{find, remove_first}

module _ {A : Type 0} where
  pub All-In : (P : A → Type 0) (xs : List A) (a : A) → All P xs → In a xs → P a
  All-In P [] a h i = absurd i
  All-In P (x ∷ xs) a h (inl e) = subst P (sym e) h.0
  All-In P (x ∷ xs) a h (inr i) = All-In P xs a h.1 i

  pub All-intro : (P : A → Type 0) (xs : List A) → ((a : A) → In a xs → P a) → All P xs
  All-intro P [] f = tt
  All-intro P (x ∷ xs) f = (f x (inl refl), All-intro P xs (λ a i. f a (inr i)))

  pub find-holds : (p : A → Bool) (xs : List A) (a : A) → find p xs ≡ some a → p a ≡ true
  unfolding find
  find-holds p [] a e = cc
  find-holds p (x ∷ xs) a e = ground (arith, find-holds p xs a)

  pub find-In : (p : A → Bool) (xs : List A) (a : A) → find p xs ≡ some a → In a xs
  unfolding find
  find-In p [] a e = cc
  find-In p (x ∷ xs) a e = ground (arith, find-In p xs a)

  pub In-remove_first :
      (p : A → Bool) (xs : List A) (a : A) → In a xs → find p xs ≢ some a → In a (remove_first p xs)
  unfolding find remove_first
  In-remove_first p [] a i n = absurd i
  In-remove_first p (x ∷ xs) a i n = ground (arith, In-remove_first p xs a)

  pub remove_first-All :
      (P : A → Type 0) (p : A → Bool) (xs : List A) → All P xs → All P (remove_first p xs)
  unfolding remove_first
  remove_first-All P p [] h = tt
  remove_first-All P p (x ∷ xs) h = ground (arith, remove_first-All P p xs h.1)

  pub In-remove_first_sub :
      (p : A → Bool) (xs : List A) (a : A) → In a (remove_first p xs) → In a xs
  unfolding remove_first
  In-remove_first_sub p [] a i = i
  In-remove_first_sub p (x ∷ xs) a i = ground (arith, In-remove_first_sub p xs a)

-- No two entries of a room have one name.
module _ (heap : ℕ → Client) where
  abbrev pub Apart : ℕ → ℕ → Type 0
  Apart i j = (heap j).name ≢ (heap i).name

  abbrev pub Distinct : List ℕ → Type 0
  Distinct [] = Unit
  Distinct (i ∷ xs) = All (Apart i) xs × Distinct xs

  pub remove_first-Distinct :
      (p : ℕ → Bool) (xs : List ℕ) → Distinct xs → Distinct (remove_first p xs)
  unfolding remove_first
  remove_first-Distinct p [] h = tt
  remove_first-Distinct p (x ∷ xs) h = elim (Bool-cases (p x)) [
    | inl hit ↦ rw hit h.1
    | inr miss ↦ rw miss (remove_first-All (Apart x) p xs h.0, remove_first-Distinct p xs h.1)
  ]

  -- What is left when the entry of a name is taken out has other names.
  pub remove_named :
      (name : String) (xs : List ℕ)
      → Distinct xs
      → All (λ j. (heap j).name ≢ name) (remove_first (λ j. (heap j).name == name) xs)
  unfolding remove_first
  remove_named name [] h = tt
  remove_named name (x ∷ xs) h = elim (Bool-cases ((heap x).name == name)) [
    | inl hit ↦
        rw hit
          (subst (λ n. All (λ j. (heap j).name ≢ n) xs) ((eq_iff (heap x).name name).0 hit) h.0)
    | inr miss ↦
        rw miss
          ((λ e. false≢true (sym miss ∙ (eq_iff (heap x).name name).1 e)), remove_named name xs h.1)
  ]

  pub remove_ref :
      (i : ℕ) (xs : List ℕ) → Distinct xs → In i xs → All (Apart i) (remove_first (λ j. j == i) xs)
  unfolding remove_first
  remove_ref i [] h k = absurd k
  remove_ref i (x ∷ xs) h k = elim (Bool-cases (x == i)) [
    | inl hit ↦ rw hit (subst (λ n. All (Apart n) xs) ((nat_beq_iff x i).0 hit) h.0)
    | inr miss ↦ elim k [
      | inl e ↦ absurd (false≢true (sym miss ∙ (nat_beq_iff x i).1 (sym e)))
      | inr k' ↦ rw miss ((λ e. All-In (Apart x) xs i h.0 k' (sym e)), remove_ref i xs h.1 k')
    ]
  ]

  -- An entry with another name than all of a list may come last in it.
  pub Distinct-append_last :
      (xs : List ℕ) (n : ℕ)
      → Distinct xs
      → All (λ j. (heap j).name ≢ (heap n).name) xs
      → Distinct (xs ++ n ∷ [])
  Distinct-append_last [] n d h = (tt, tt)
  Distinct-append_last (x ∷ xs) n d h = (
    All-append (Apart x) xs (n ∷ []) d.0 ((λ e. h.0 (sym e)), tt),
    Distinct-append_last xs n d.1 h.1,
  )
