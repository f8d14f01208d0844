-- ===== src/Players/RoomId.antt =====
-- src/core/room.ts: the id of the room of a game, hashed from the names of its players.
pub mod Agreed
use lo_lprox_chat.Common.{
  ℕ, zero, suc, ◌+◌, ◌-◌, ◌*◌, ◌/◌, ◌%◌, ◌^◌, Bool, true, false, List, [], ◌∷◌, ◌++◌, ltb, ◌==◌,
  nat_eq, if◌then◌else◌,
}
use lo_lprox_chat.Address.Chars.{Chars}

-- The order of `sort()` on texts: by their UTF-16 units, a prefix first.
unfoldable pub text_le : Chars → Chars → Bool
text_le [] ds = true
text_le (c ∷ cs) [] = false
text_le (c ∷ cs) (d ∷ ds) = let rest = text_le cs ds in if c == d then rest else ltb c d

unfoldable pub insert : Chars → List Chars → List Chars
insert x [] = x ∷ []
insert x (y ∷ ys) = let rest = insert x ys in if text_le x y then x ∷ y ∷ ys else y ∷ rest

-- `[...playerNames].sort()`.
unfoldable pub sort : List Chars → List Chars
unfolding insert
sort [] = []
sort (x ∷ xs) = insert x (sort xs)

-- `sorted.join('|')`.
unfoldable pub join : List Chars → Chars
join [] = []
join (x ∷ []) = x
join (x ∷ y ∷ xs) = x ++ (b'|' ∷ join (y ∷ xs))

-- `((hash << 5) + hash + code) >>> 0`, an unsigned number of 32 bits.
abbrev pub mix : ℕ → ℕ → ℕ
mix hash code = (hash * 32 + hash + code) % 2 ^ 32

unfoldable pub hash_from : ℕ → Chars → ℕ
hash_from hash [] = hash
hash_from hash (c ∷ cs) = hash_from (mix hash c) cs

abbrev pub digit36 : ℕ → ℕ
digit36 d = if ltb d 10 then b'0' + d else b'a' + (d - 10)

-- `toString(36)`, with as many rounds as a number of 32 bits can have digits.
unfoldable pub to_base36 : ℕ → ℕ → Chars → Chars
to_base36 zero n acc = acc
to_base36 (suc rounds) n acc =
    let rest = to_base36 rounds (n / 36) (digit36 (n % 36) ∷ acc) in
    if ltb n 36 then digit36 n ∷ acc else rest

unfoldable pub generate_room_id : List Chars → Chars
unfolding sort join hash_from to_base36
generate_room_id names = to_base36 7 (hash_from 5381 (join (sort names))) []
