-- ===== src/Common/Dict.antt =====
-- A JavaScript `Map` as an association list in insertion order.
use Prim.Native.Nat.{ℕ, suc}
use mathlib.Core.Path.{◌≡◌, refl}
use mathlib.Core.Option.{Option, none, some}
use mathlib.Core.List.{List, [], ◌∷◌}
use native.Mathlib.Omega.{arith}
use lo_lprox_chat.Common.Tests.{if◌then◌else◌}
use lo_lprox_chat.Common.Keys.{Eq, ◌==◌}

abbrev pub Dict {ℓ κ} : Type ℓ → Type κ → Type (ℓ ⊔ κ)
Dict K V = List (K × V)

-- `map.size`.
unfoldable pub size {ℓ κ} : {K : Type ℓ} {V : Type κ} → Dict K V → ℕ
size [] = 0
size (_ ∷ m) = suc (size m)

module _ {ℓ κ} {K : Type ℓ} {V : Type κ} ⦃e : Eq K⦄ where
  -- `map.set(key, value)`: in place, or at the end.
  unfoldable pub insert : K → V → Dict K V → Dict K V
  insert k v [] = (k, v) ∷ []
  insert k v ((j, w) ∷ m) = if j == k then (k, v) ∷ m else (j, w) ∷ insert k v m

  -- `map.delete(key)`.
  unfoldable pub erase : K → Dict K V → Dict K V
  erase k [] = []
  erase k ((j, w) ∷ m) = if j == k then erase k m else (j, w) ∷ erase k m

  -- `map.get(key)`.
  unfoldable pub lookup : K → Dict K V → Option V
  lookup k [] = none
  lookup k ((j, w) ∷ m) = if j == k then some w else lookup k m

  pub lookup-erase :
      (k j : K) (m : Dict K V) → lookup j (erase k m) ≡ (if k == j then none else lookup j m)
  unfolding lookup erase
  lookup-erase k j [] = ground arith
  lookup-erase k j ((i, w) ∷ m) =
      ground (arith, e.same_iff k j, e.same_iff i k, e.same_iff i j, lookup-erase k j m)

  pub lookup-insert :
      (key other : K) (value : V) (m : Dict K V)
      → lookup other (insert key value m) ≡ (if key == other then some value else lookup other m)
  unfolding lookup insert
  lookup-insert key other value [] = refl
  lookup-insert key other value ((j, _) ∷ m) = ground (
    arith,
    lookup-insert key other value m,
    e.same_iff key other,
    e.same_iff j key,
    e.same_iff j other,
  )

  pub lookup-insert_self : (k : K) (v : V) (m : Dict K V) → lookup k (insert k v m) ≡ some v
  lookup-insert_self k v m = ground (arith, lookup-insert k k v m, e.same_iff k k)

  -- No key stands twice, as in a `Map`.
  abbrev pub HasKeysApart : Dict K V → Type κ
  HasKeysApart [] = Unit
  HasKeysApart ((k, v) ∷ m) = (lookup k m ≡ none) × HasKeysApart m

  pub insert-HasKeysApart :
      (k : K) (v : V) (m : Dict K V) → HasKeysApart m → HasKeysApart (insert k v m)
  unfolding insert lookup
  insert-HasKeysApart k v [] h = (refl, tt)
  insert-HasKeysApart k v ((j, w) ∷ m) h =
      ground (
        arith,
        e.same_iff j k,
        e.same_iff k j,
        lookup-insert k j v m,
        insert-HasKeysApart k v m h.1,
      )

  pub erase-HasKeysApart : (k : K) (m : Dict K V) → HasKeysApart m → HasKeysApart (erase k m)
  unfolding erase
  erase-HasKeysApart k [] h = tt
  erase-HasKeysApart k ((j, w) ∷ m) h =
      ground (arith, e.same_iff j k, lookup-erase k j m, erase-HasKeysApart k m h.1)
