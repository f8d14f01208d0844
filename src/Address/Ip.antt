-- ===== src/Address/Ip.antt =====
-- Addresses in server/src/rate-limit.ts: `normalizeIp`, `expandV6` and `bucketKeyForIp`. Numbers are
-- read as they stand in what `isIP` accepts, in digits without a sign.
use lo_lprox_chat.Common.{
  ℕ, zero, suc, ◌+◌, ◌-◌, ◌*◌, ◌/◌, ◌%◌, Bool, true, false, not, ◌&&◌, ◌||◌, Option, none, some,
  List, [], ◌∷◌, ◌++◌, map, leb, ltb, nat_beq, length, if◌then◌else◌,
}
use lo_lprox_chat.Text.{within, codes}
use lo_lprox_chat.Rooms.{bind}
use lo_lprox_chat.Address.Chars.{
  Chars, trim, to_lower, includes, cons_piece, split_on, cut_at, after_prefix, every_digit,
  is_empty,
}

-- Up to the last `c`, itself included, and what comes after it.
unfoldable pub cut_last : ℕ → Chars → Chars × Chars
cut_last c [] = ([], [])
cut_last c (d ∷ ds) =
    let rest = cut_last c ds in
    if not (is_empty rest.0)
    then (d ∷ rest.0, rest.1)
    else if nat_beq d c
    then (d ∷ [], rest.1)
    else ([], d ∷ rest.1)

-- `text.split('::')`; the flag says that the character before was a `:` that may begin a pair.
unfoldable pub split_pairs : Bool → Chars → List Chars
split_pairs false [] = [] ∷ []
split_pairs true [] = (b':' ∷ []) ∷ []
split_pairs false (d ∷ ds) =
    let rest = split_pairs (nat_beq d b':') ds in if nat_beq d b':' then rest else cons_piece d rest
split_pairs true (d ∷ ds) =
    let rest = split_pairs false ds in
    if nat_beq d b':' then [] ∷ rest else cons_piece b':' (cons_piece d rest)

-- `Number(text)`.
unfoldable pub digits_value : ℕ → Chars → ℕ
digits_value acc [] = acc
digits_value acc (c ∷ cs) = digits_value (acc * 10 + (c - 0x30)) cs

-- `Number` of an octet. Of texts that are no decimal digits, `Number` also reads '', '0x1'
-- and '1e1'; none of them is part of an address that `isIP` accepts.
unfoldable pub number_of : Chars → Option ℕ
unfolding every_digit digits_value
number_of cs = if is_empty cs || not (every_digit cs) then none else some (digits_value 0 cs)

-- `parseInt(text, 16)`: as far as there are digits.
abbrev pub is_hex : ℕ → Bool
is_hex c = within 0x30 0x39 c || within 0x61 0x66 c || within 0x41 0x46 c

abbrev pub hex_value : ℕ → ℕ
hex_value c = if within 0x30 0x39 c then c - 0x30 else if within 0x61 0x66 c then c - 87 else c - 55

unfoldable pub hex_prefix : ℕ → Chars → ℕ
hex_prefix acc [] = acc
hex_prefix acc (c ∷ cs) =
    let further = hex_prefix (acc * 16 + hex_value c) cs in if is_hex c then further else acc

unfoldable pub parse_hex : Chars → Option ℕ
unfolding hex_prefix
parse_hex [] = none
parse_hex (c ∷ cs) = if is_hex c then some (hex_prefix 0 (c ∷ cs)) else none

-- `n.toString(16)`; a group has four digits at most.
abbrev pub hex_digit : ℕ → ℕ
hex_digit n = if ltb n 10 then n + 0x30 else n + 87

unfoldable pub to_hex_on : ℕ → ℕ → Chars
to_hex_on zero n = []
to_hex_on (suc fuel) n =
    let high = to_hex_on fuel (n / 16) in
    if ltb n 16 then hex_digit n ∷ [] else high ++ hex_digit (n % 16) ∷ []

unfoldable pub to_hex : ℕ → Chars
unfolding to_hex_on
to_hex n = to_hex_on 4 n

-- All of the values, if all are there and within the bound.
unfoldable pub all_within : ℕ → List (Option ℕ) → Option (List ℕ)
all_within bound [] = some []
all_within bound (none ∷ os) = none
all_within bound (some n ∷ os) =
    if leb n bound then bind (all_within bound os) (λ ns. some (n ∷ ns)) else none

-- Four octets as two groups in hexadecimal.
abbrev pub quad_groups : List ℕ → Option Chars
quad_groups (a ∷ b ∷ c ∷ d ∷ []) = some (to_hex (a * 256 + b) ++ b':' ∷ to_hex (c * 256 + d))
quad_groups _ = none

-- A trailing dotted quad becomes two groups.
unfoldable pub without_quad : Chars → Option Chars
unfolding cut_last includes split_on number_of all_within
without_quad addr =
    let cut = cut_last b':' addr in
    if includes b'.' cut.1
    then bind (bind (all_within 255 (map number_of (split_on b'.' cut.1))) quad_groups)
        (λ groups. some (cut.0 ++ groups))
    else some addr

unfoldable pub groups_of : Chars → List Chars
unfolding split_on
groups_of half = if is_empty half then [] else split_on b':' half

unfoldable pub zeros : ℕ → List Chars
zeros zero = []
zeros (suc n) = (b'0' ∷ []) ∷ zeros n

unfoldable pub fill_groups : List Chars → Option (List Chars)
unfolding groups_of zeros
fill_groups (whole ∷ []) =
    let head = groups_of whole in if nat_beq (length head) 8 then some head else none
fill_groups (before ∷ after ∷ []) =
    let head = groups_of before in
    let tail = groups_of after in
    let used = length head + length tail in
    if leb used 8 then some (head ++ (zeros (8 - used) ++ tail)) else none
fill_groups _ = none

unfoldable pub expand_v6 : Chars → Option (List ℕ)
unfolding without_quad split_pairs fill_groups all_within parse_hex
expand_v6 addr =
    bind (bind (without_quad addr) (λ s. fill_groups (split_pairs false s)))
      (λ parts. all_within 0xffff (map parse_hex parts))

-- `/^\[([^\]]+)\](?::\d+)?$/`.
abbrev pub is_port : Chars → Bool
is_port [] = true
is_port (c ∷ cs) = nat_beq c b':' && not (is_empty cs) && every_digit cs

abbrev pub bracketed_before : Chars × Option Chars → Option Chars
bracketed_before (inside, none) = none
bracketed_before (inside, some after) =
    if is_empty inside || not (is_port after) then none else some inside

unfoldable pub bracketed : Chars → Option Chars
unfolding cut_at every_digit
bracketed [] = none
bracketed (c ∷ cs) = if nat_beq c b'[' then bracketed_before (cut_at b']' cs) else none

-- What comes before the only `:` of a text with a `.`; any other text as it is.
abbrev pub without_port_at : Chars → Chars × Option Chars → Chars
without_port_at s (before, none) = s
without_port_at s (before, some after) = if includes b':' after then s else before

unfoldable pub without_port : Chars → Chars
unfolding includes cut_at
without_port s = if includes b'.' s then without_port_at s (cut_at b':' s) else s

abbrev pub or_else_chars : Option Chars → Chars → Chars
or_else_chars none s = s
or_else_chars (some t) s = t

-- `isIP` of node:net: 4, 6, or 0 for what is no address.
module _ (is_ip : Chars → ℕ) where
  abbrev pub unmapped_from : Chars → Option Chars → Chars
  unmapped_from s none = s
  unmapped_from s (some mapped) = if nat_beq (is_ip mapped) 4 then mapped else s

  unfoldable pub unmapped : Chars → Chars
  unfolding after_prefix
  unmapped s = unmapped_from s (after_prefix (codes "::ffff:") s)

  abbrev pub if_ip : Chars → Option Chars
  if_ip s = if nat_beq (is_ip s) 0 then none else some s

  unfoldable pub normalize_ip : Chars → Option Chars
  unfolding trim to_lower bracketed without_port unmapped
  normalize_ip raw =
      let s = to_lower (trim raw) in
      if is_empty s then none else if_ip (unmapped (or_else_chars (bracketed s) (without_port s)))

  -- The first four groups, for the /64 that a client has at least.
  abbrev pub key_of_groups : Chars → Option (List ℕ) → Chars
  key_of_groups ip (some (a ∷ b ∷ c ∷ d ∷ rest)) =
      to_hex a ++ b':' ∷ to_hex b ++ b':' ∷ to_hex c ++ b':' ∷ to_hex d ++ codes "::/64"
  key_of_groups ip _ = ip

  unfoldable pub bucket_key : Chars → Chars
  unfolding expand_v6 to_hex
  bucket_key ip = if nat_beq (is_ip ip) 6 then key_of_groups ip (expand_v6 ip) else ip
