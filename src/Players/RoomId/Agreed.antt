-- ===== src/Players/RoomId/Agreed.antt =====
-- src/core/room.ts: clients of one game find one room, and the server lets them into it.
use mathlib.Core.Logic.{∥∥₁_elim}
use mathlib.Core.List.{Perm, Permᴰ}
use lo_lprox_chat.Common.{
  ℕ, zero, suc, ◌+◌, ◌*◌, ◌/◌, ◌%◌, ◌^◌, ◌≤◌, ◌<◌, ◌≡◌, refl, sym, ap, ◌∙◌, true, false, List, [],
  ◌∷◌, length, ltb, lt→ltb, nat_eq, arith, if◌then◌else◌, Bool-cases, inl, inr,
}
use lo_lprox_chat.Address.Chars.{Chars}
use lo_lprox_chat.Text.{every}
use lo_lprox_chat.Validate.{is_room_id, is_room_char}
use lo_lprox_chat.Players.RoomId.{
  text_le, insert, sort, join, mix, hash_from, digit36, to_base36, generate_room_id,
}

text_le_total : (x y : Chars) → text_le x y ≡ false → text_le y x ≡ true
unfolding text_le
text_le_total [] y e = absurd (ground arith)
text_le_total (c ∷ cs) [] e = refl
text_le_total (c ∷ cs) (d ∷ ds) e = ground (arith, text_le_total cs ds)

text_le_antisym : (x y : Chars) → text_le x y ≡ true → text_le y x ≡ true → x ≡ y
unfolding text_le
text_le_antisym [] [] e f = refl
text_le_antisym [] (d ∷ ds) e f = absurd (ground arith)
text_le_antisym (c ∷ cs) [] e f = absurd (ground arith)
text_le_antisym (c ∷ cs) (d ∷ ds) e f = ground (arith, text_le_antisym cs ds)

text_le_trans : (x y z : Chars) → text_le x y ≡ true → text_le y z ≡ true → text_le x z ≡ true
unfolding text_le
text_le_trans [] y z e f = refl
text_le_trans (c ∷ cs) [] z e f = absurd (ground arith)
text_le_trans (c ∷ cs) (d ∷ ds) [] e f = absurd (ground arith)
text_le_trans (c ∷ cs) (d ∷ ds) (a ∷ as') e f = ground (arith, text_le_trans cs ds as')

insert_comm : (x y : Chars) (l : List Chars) → insert x (insert y l) ≡ insert y (insert x l)
unfolding insert
insert_comm x y [] = ground (arith, text_le_total x y, text_le_antisym x y)
insert_comm x y (z ∷ l) = ground (
  arith,
  insert_comm x y l,
  text_le_total x y,
  text_le_antisym x y,
  text_le_total x z,
  text_le_total y z,
  text_le_trans x y z,
  text_le_trans y x z,
  text_le_trans x z y,
  text_le_trans y z x,
)

sort-Permᴰ : (xs ys : List Chars) → Permᴰ xs ys → sort xs ≡ sort ys
unfolding sort
sort-Permᴰ xs ys Permᴰ.nil = refl
sort-Permᴰ xs ys (Permᴰ.cons {l₁ = l} {l₂ = m} e d) = rw e (ap (insert _) (sort-Permᴰ l m d))
sort-Permᴰ xs ys (Permᴰ.swap {a = a} {b = b} {l = l} e f) =
    rw (sym e, sym f) (insert_comm a b (sort l))
sort-Permᴰ xs ys (Permᴰ.trans {l₂ = m} d e) = sort-Permᴰ xs m d ∙ sort-Permᴰ m ys e

is_room_char-digit36 : (d : ℕ) → d < 36 → is_room_char (digit36 d) ≡ true
is_room_char-digit36 d h = ground arith

to_base36-chars :
    (rounds n : ℕ) (acc : Chars)
    → every is_room_char acc ≡ true
    → every is_room_char (to_base36 rounds n acc) ≡ true
unfolding to_base36 every
to_base36-chars zero n acc h = h
to_base36-chars (suc rounds) n acc h =
    let more =
      to_base36-chars rounds (n / 36) (digit36 (n % 36) ∷ acc)
        (rw (is_room_char-digit36 (n % 36) (omega arith), h) refl) in
    elim (Bool-cases (ltb n 36)) [
      | inl small ↦ rw small (rw (is_room_char-digit36 n (ground arith), h) refl)
      | inr large ↦ rw large more
    ]

to_base36-length :
    (rounds n : ℕ) (acc : Chars)
    → (length acc ≤ length (to_base36 rounds n acc))
      × (length (to_base36 rounds n acc) ≤ rounds + length acc)
unfolding to_base36
to_base36-length zero n acc = (omega arith, omega arith)
to_base36-length (suc rounds) n acc =
    let rest = to_base36-length rounds (n / 36) (digit36 (n % 36) ∷ acc) in
    elim (Bool-cases (ltb n 36)) [
      | inl small ↦ rw small (omega arith, omega arith)
      | inr large ↦ rw large (omega (arith, rest.0), omega (arith, rest.1))
    ]

to_base36-nonempty : (rounds n : ℕ) → 1 ≤ length (to_base36 (suc rounds) n [])
unfolding to_base36
to_base36-nonempty rounds n =
    let rest = (to_base36-length rounds (n / 36) (digit36 (n % 36) ∷ [])).0 in
    elim (Bool-cases (ltb n 36)) [
      | inl small ↦ rw small (omega arith)
      | inr large ↦ rw large (omega (arith, rest))
    ]

-- Enough rounds for all numbers below a bound: more make no difference.
abbrev IsEnough : ℕ → ℕ → ℕ → Type 0
IsEnough rounds more bound =
    (n : ℕ) (acc : Chars) → n < bound → to_base36 rounds n acc ≡ to_base36 (rounds + more) n acc

one_round : (more : ℕ) → IsEnough 1 more 36
unfolding to_base36
one_round more n acc h = let e : 1 + more ≡ suc more = omega arith in rw (e, lt→ltb n 36 h) refl

next_round :
    (rounds more bound : ℕ) → IsEnough rounds more bound → IsEnough (suc rounds) more (36 * bound)
unfolding to_base36
next_round rounds more bound rest n acc h =
    let e : suc rounds + more ≡ suc (rounds + more) = omega arith in
    rw e (
      ap (λ r. if ltb n 36 then digit36 n ∷ acc else r)
        (rest (n / 36) (digit36 (n % 36) ∷ acc) (omega (arith, h))))

-- 36 ^ 7 is above 2 ^ 32.
seven_rounds : (more : ℕ) → IsEnough 7 more 78364164096
seven_rounds more = next_round 6 more 2176782336 (
    next_round 5 more 60466176 (
      next_round 4 more 1679616
        (next_round 3 more 46656 (next_round 2 more 1296 (next_round 1 more 36 (one_round more))))))

hash_from-bound : (hash : ℕ) (cs : Chars) → hash < 2 ^ 32 → hash_from hash cs < 2 ^ 32
unfolding hash_from
hash_from-bound hash [] h = h
hash_from-bound hash (c ∷ cs) h = hash_from-bound (mix hash c) cs (omega arith)

is_room_id-of :
    (cs : Chars)
    → every is_room_char cs ≡ true
    → 1 ≤ length cs
    → length cs ≤ 7
    → is_room_id cs ≡ true
unfolding is_room_id
is_room_id-of cs chars nonempty short = ground arith

-- The order in which a client lists the players does not matter: it finds the same room as every
-- other that has the same names. The id is one that the server takes, of seven characters at most,
-- and has all the digits of the hash: more rounds would add none.
pub generate_room_id-agreed :
    (names other : List Chars) (more : ℕ)
    → Perm names other
    → (generate_room_id names ≡ generate_room_id other)
      × (is_room_id (generate_room_id names) ≡ true)
      × (length (generate_room_id names) ≤ 7)
      × (to_base36 (7 + more) (hash_from 5381 (join (sort names))) [] ≡ generate_room_id names)
unfolding generate_room_id every
generate_room_id-agreed names other more p =
    let hash = hash_from 5381 (join (sort names)) in
    let short : length (to_base36 7 hash []) ≤ 7 = omega (arith, to_base36-length 7 hash []) in
    (
      ap (λ l. to_base36 7 (hash_from 5381 (join l)) [])
          (∥∥₁_elim p (hlevel) (sort-Permᴰ names other)),
      is_room_id-of (to_base36 7 hash []) (to_base36-chars 7 hash [] refl)
          (to_base36-nonempty 6 hash) short,
      short,
      sym (
          seven_rounds more hash []
            (omega (arith, hash_from-bound 5381 (join (sort names)) (omega arith)))),
    )
