-- ===== src/Address/Trust.antt =====
-- server/src/rate-limit.ts: which proxies are trusted, from the environment. `Number` is a parameter:
-- it answers for a text that it reads as a whole number of at least 0.
pub mod Narrow
use lo_lprox_chat.Common.{
  ℕ, ◌+◌, ◌-◌, ◌*◌, Bool, true, false, not, ◌&&◌, ◌||◌, Option, none, some, List, [], ◌∷◌, ◌++◌,
  ltb, leb, min, nat_beq, length, filter, ◌==◌, if◌then◌else◌,
}
use lo_lprox_chat.Text.{codes}
use lo_lprox_chat.Address.Chars.{Chars, trim, to_lower, is_space, is_empty, cons_piece, chars_eq}
use lo_lprox_chat.Address.Ip.{normalize_ip}
use lo_lprox_chat.Address.Nets.{CidrNet, Groups, group_bits, address_groups, private_nets}
use lo_lprox_chat.Address.Origin.{ProxyTrust}

-- `MAX_TRUST_PROXY_HOPS` and `MAX_TRUSTED_PROXY_NETS`.
abbrev pub max_trust_proxy_hops : ℕ
max_trust_proxy_hops = 8

abbrev pub max_trusted_proxy_nets : ℕ
max_trusted_proxy_nets = 64

-- What stands before and after the last `/`, if there is one.
abbrev pub push_before : ℕ → Chars → Option (Chars × Chars) → Option (Chars × Chars)
push_before c cs (some (before, after)) = some (c ∷ before, after)
push_before c cs none = if nat_beq c b'/' then some ([], cs) else none

unfoldable pub cut_last_slash : Chars → Option (Chars × Chars)
cut_last_slash [] = none
cut_last_slash (c ∷ cs) = push_before c cs (cut_last_slash cs)

abbrev pub is_separator : ℕ → Bool
is_separator c = nat_beq c b',' || is_space c

-- `split(/[,\s]+/)`, but for empty pieces, which are dropped from it.
unfoldable pub split_tokens : Chars → List Chars
split_tokens [] = [] ∷ []
split_tokens (c ∷ cs) =
    let rest = split_tokens cs in if is_separator c then [] ∷ rest else cons_piece c rest

abbrev pub full_of : Groups → ℕ
full_of g = length g.parts * group_bits g.family

unfoldable pub net_of : Groups → Option ℕ → Option CidrNet
net_of g none = none
net_of g (some n) =
    if leb n (full_of g)
    then some (record { family = g.family; parts = g.parts; prefix = n })
    else none

abbrev pub is_off_word : Chars → Bool
is_off_word s = s == codes "off" || s == codes "false" || s == codes "no" || s == codes "0"

unfoldable pub is_off : Chars → Bool
unfolding trim to_lower
is_off text = is_off_word (to_lower (trim text))

abbrev pub or_empty : Option Chars → Chars
or_empty none = []
or_empty (some text) = text

-- Without a `/`, the whole address.
unfoldable pub whole_net : Option Groups → Option CidrNet
whole_net none = none
whole_net (some g) = some (record { family = g.family; parts = g.parts; prefix = full_of g })

-- What a token adds: nothing where it is no network, or covers every address.
unfoldable pub usable : Option CidrNet → List CidrNet
usable none = []
usable (some net) = if nat_beq net.prefix 0 then [] else net ∷ []

-- `slice(0, n)`.
unfoldable pub first_nets : ℕ → List CidrNet → List CidrNet
first_nets n [] = []
first_nets n (net ∷ nets) = let rest = first_nets (n - 1) nets in if leb n 0 then [] else net ∷ rest

abbrev pub hops_of : Option ℕ → ℕ
hops_of none = 1
hops_of (some n) = if leb 1 n then min n max_trust_proxy_hops else 1

module _ (is_ip : Chars → ℕ) (number : Chars → Option ℕ) where
  unfoldable pub part_net : Chars → Option Groups → Option CidrNet
  unfolding net_of
  part_net length_text none = none
  part_net length_text (some g) = net_of g (number length_text)

  unfoldable pub groups_of_address : Option Chars → Option Groups
  unfolding address_groups
  groups_of_address none = none
  groups_of_address (some addr) = address_groups is_ip addr

  unfoldable pub parse_cut : Chars → Option (Chars × Chars) → Option CidrNet
  unfolding whole_net part_net groups_of_address normalize_ip
  parse_cut s none = whole_net (groups_of_address (normalize_ip is_ip s))
  parse_cut s (some (before, after)) =
      part_net after (groups_of_address (normalize_ip is_ip before))

  unfoldable pub parse_cidr : Chars → Option CidrNet
  unfolding trim to_lower cut_last_slash parse_cut
  parse_cidr raw =
      let s = to_lower (trim raw) in if is_empty s then none else parse_cut s (cut_last_slash s)

  unfoldable pub nets_of_token : Chars → List CidrNet
  unfolding to_lower parse_cidr usable
  nets_of_token token =
      if to_lower token == codes "private" then private_nets else usable (parse_cidr token)

  unfoldable pub nets_of_tokens : List Chars → List CidrNet
  unfolding nets_of_token
  nets_of_tokens [] = []
  nets_of_tokens (t ∷ tokens) = nets_of_token t ++ nets_of_tokens tokens

  unfoldable pub parse_trusted_proxies : Option Chars → List CidrNet
  unfolding split_tokens nets_of_tokens first_nets
  parse_trusted_proxies raw =
      let nets =
        nets_of_tokens (filter (λ token. not (is_empty token)) (split_tokens (or_empty raw))) in
      if ltb max_trusted_proxy_nets (length nets)
      then first_nets max_trusted_proxy_nets nets
      else nets

  unfoldable pub parse_trust_proxy_hops : Option Chars → ℕ
  unfolding trim to_lower
  parse_trust_proxy_hops raw =
      let v = to_lower (trim (or_empty raw)) in
      if is_empty v then 1 else if is_off_word v then 0 else hops_of (number v)

  -- The list where it has a usable entry, else the number of hops.
  abbrev pub or_hops : Option Chars → List CidrNet → ProxyTrust
  or_hops trust_proxy [] = record { nets = []; hops = parse_trust_proxy_hops trust_proxy }
  or_hops trust_proxy (net ∷ nets) = record { nets = net ∷ nets; hops = 1 }

  unfoldable pub resolve_proxy_trust : Option Chars → Option Chars → ProxyTrust
  unfolding trim is_off parse_trusted_proxies
  resolve_proxy_trust trusted_proxies trust_proxy =
      let listed = trim (or_empty trusted_proxies) in
      if is_empty listed
      then or_hops trust_proxy []
      else if is_off listed
      then record { nets = []; hops = 0 }
      else or_hops trust_proxy (parse_trusted_proxies (some listed))
