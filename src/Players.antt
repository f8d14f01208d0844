-- ===== src/Players.antt =====
-- src/core/identity.ts and src/core/streamer-detect.ts: who the players of a game are. Names are
-- lists of UTF-16 units.
pub mod RoomId
pub mod MapDetect
pub mod Roster
pub mod Matching
use lo_lprox_chat.Common.{
  ℕ, zero, suc, ◌+◌, Bool, true, false, not, Option, none, some, List, [], ◌∷◌, ◌++◌, ◌&&◌, ◌||◌,
  ◌==◌, nat_eq, if◌then◌else◌,
}
use lo_lprox_chat.Address.Chars.{Chars, trim, is_empty, chars_eq}

-- The identity fields of a payload: `none` is a field that is missing or holds no string.
pub record RawIdentity : Type 0 where
  pub summoner_name : Option Chars
  pub riot_id : Option Chars
  pub riot_id_game_name : Option Chars
  pub riot_id_tag_line : Option Chars

pub record Identity : Type 0 where
  pub key : Chars
  pub game_name : Chars
  pub tag_line : Chars
  pub display : Chars

abbrev pub hash_sign : ℕ
hash_sign = b'#'

abbrev pub as_trimmed_string : Option Chars → Chars
as_trimmed_string none = []
as_trimmed_string (some cs) = trim cs

-- What stands before and after the last `#`, if there is one.
abbrev pub cut_here : ℕ → Chars → Option (Chars × Chars) → Option (Chars × Chars)
cut_here c cs none = if c == hash_sign then some ([], cs) else none
cut_here c cs (some (a, b)) = some (c ∷ a, b)

unfoldable pub cut_last_hash : Chars → Option (Chars × Chars)
cut_last_hash [] = none
cut_last_hash (c ∷ cs) = cut_here c cs (cut_last_hash cs)

abbrev pub split_of : Chars → Option (Chars × Chars) → Chars × Chars
split_of value none = (value, [])
split_of value (some (a, b)) = (trim a, trim b)

-- `splitRiotId`: the game name and the tag line.
unfoldable pub split_riot_id : Chars → Chars × Chars
unfolding cut_last_hash
split_riot_id value = split_of value (cut_last_hash value)

-- `a || b` of texts.
abbrev pub or_text : Chars → Chars → Chars
or_text [] b = b
or_text (c ∷ cs) b = c ∷ cs

-- "name#tag", or the name where there is no tag.
abbrev pub with_tag : Chars → Chars → Chars
with_tag name [] = name
with_tag name (c ∷ tag) = name ++ (hash_sign ∷ c ∷ tag)

-- The name and tag line of the first of the three fields that holds something.
unfoldable pub first_name : Chars → Chars → Chars → Chars → Option (Chars × Chars)
unfolding split_riot_id
first_name (c ∷ game) tag riot_id summoner = some (c ∷ game, tag)
first_name [] tag (c ∷ riot_id) summoner = some (split_riot_id (c ∷ riot_id))
first_name [] tag [] (c ∷ summoner) = some (split_riot_id (c ∷ summoner))
first_name [] tag [] [] = none

-- `fold` is `.normalize('NFKC').toLowerCase()`, the tables of Unicode.
module _ (fold : Chars → Chars) where
  unfoldable pub normalize_name : Chars → Chars
  normalize_name value = fold (trim value)

  -- The end of `readIdentity`: no identity without a name.
  unfoldable pub identity_of : Chars → Chars → Chars → Chars → Option Identity
  unfolding normalize_name
  identity_of [] tag riot_id summoner = none
  identity_of (c ∷ game) tag riot_id summoner =
      let name = normalize_name (c ∷ game) in
      let line = normalize_name tag in
      some (record {
        key = with_tag name line;
        game_name = name;
        tag_line = line;
        display = or_text riot_id (or_text summoner (with_tag (c ∷ game) tag));
      })

  unfoldable pub read_identity : RawIdentity → Option Identity
  unfolding first_name identity_of split_riot_id
  read_identity raw =
      let tag = as_trimmed_string raw.riot_id_tag_line in
      let riot_id = as_trimmed_string raw.riot_id in
      let summoner = as_trimmed_string raw.summoner_name in
      elim (first_name (as_trimmed_string raw.riot_id_game_name) tag riot_id summoner) [
        | none ↦ none
        | some names ↦
            identity_of names.0 (or_text names.1 (or_text tag (split_riot_id summoner).1)) riot_id
              summoner
      ]

-- `identityEquals`.
unfoldable pub identity_equals : Identity → Identity → Bool
identity_equals a b =
    a.key == b.key || a.game_name == b.game_name && (is_empty a.tag_line || is_empty b.tag_line)

-- The indexes, from `from` on, of the entries of which `p` holds.
unfoldable pub indexes {ℓ} : {A : Type ℓ} → (A → Bool) → ℕ → List A → List ℕ
indexes p from [] = []
indexes p from (x ∷ xs) = let rest = indexes p (suc from) xs in if p x then from ∷ rest else rest

pub data MatchedOn : Type 0 where
  on_key on_game_name : MatchedOn

abbrev pub Match : Type 0
Match = ℕ × MatchedOn

abbrev pub same_key : Identity → Identity → Bool
same_key local candidate = candidate.key == local.key

-- The second tier: the same name, and one of the two without a tag line.
abbrev pub same_game_name : Identity → Identity → Bool
same_game_name local candidate =
    candidate.game_name == local.game_name
    && not (not (is_empty candidate.tag_line) && not (is_empty local.tag_line))

unfoldable pub by_game_name : List ℕ → Option Match
by_game_name (i ∷ []) = some (i, on_game_name)
by_game_name _ = none

unfoldable pub match_in : List ℕ → List ℕ → Option Match
unfolding by_game_name
match_in (i ∷ []) names = some (i, on_key)
match_in (i ∷ j ∷ keys) names = none
match_in [] names = by_game_name names

unfoldable pub match_local : List Identity → Identity → Option Match
unfolding match_in indexes
match_local roster local =
    match_in (indexes (same_key local) 0 roster) (indexes (same_game_name local) 0 roster)
