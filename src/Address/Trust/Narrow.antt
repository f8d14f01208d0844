-- ===== src/Address/Trust/Narrow.antt =====
-- server/src/rate-limit.ts: whatever the environment says, not everybody is trusted.
use lo_lprox_chat.Common.{
  ℕ, ◌-◌, ◌*◌, ◌≤◌, not, Option, none, some, List, [], ◌∷◌, ltb, leb, nat_beq, length, filter,
  arith, All, All-append, if_holds,
}
use lo_lprox_chat.Address.Chars.{Chars, trim, to_lower, is_empty}
use lo_lprox_chat.Address.Nets.{CidrNet, Groups, group_bits, private_nets}
use lo_lprox_chat.Address.Origin.{ProxyTrust}
use lo_lprox_chat.Address.Trust.{
  full_of, net_of, whole_net, part_net, parse_cut, parse_cidr, usable, nets_of_token,
  nets_of_tokens, first_nets, split_tokens, or_empty, parse_trusted_proxies, hops_of,
  parse_trust_proxy_hops, is_off, is_off_word, or_hops, resolve_proxy_trust, cut_last_slash,
  max_trust_proxy_hops, max_trusted_proxy_nets,
}

abbrev bits_of : CidrNet → ℕ
bits_of net = length net.parts * group_bits net.family

-- A network that does not have all addresses, and no more bits than they have.
abbrev pub IsNarrow : CidrNet → Type 0
IsNarrow net = (1 ≤ net.prefix) × (net.prefix ≤ length net.parts * group_bits net.family)

abbrev IsFitting : Option CidrNet → Type 0
IsFitting none = Unit
IsFitting (some net) = net.prefix ≤ bits_of net

private_nets-IsNarrow : All IsNarrow private_nets
private_nets-IsNarrow = (
  (omega arith, omega arith),
  (
    (omega arith, omega arith),
    (
      (omega arith, omega arith),
      (
        (omega arith, omega arith),
        (
          (omega arith, omega arith),
          (
            (omega arith, omega arith),
            ((omega arith, omega arith), ((omega arith, omega arith), tt)),
          ),
        ),
      ),
    ),
  ),
)

net_of-IsFitting : (g : Groups) (n : Option ℕ) → IsFitting (net_of g n)
unfolding net_of
net_of-IsFitting g none = tt
net_of-IsFitting g (some n) =
    if_holds IsFitting (leb n (full_of g)) _ none (λ e. ground arith) (λ e. tt)

whole_net-IsFitting : (o : Option Groups) → IsFitting (whole_net o)
unfolding whole_net
whole_net-IsFitting none = tt
whole_net-IsFitting (some g) = omega arith

usable-IsNarrow : (o : Option CidrNet) → IsFitting o → All IsNarrow (usable o)
unfolding usable
usable-IsNarrow none h = tt
usable-IsNarrow (some net) h =
    if_holds (All IsNarrow) (nat_beq net.prefix 0) [] (net ∷ []) (λ e. tt)
      (λ e. ((ground arith, h), tt))

first_nets_lem :
    (n : ℕ) (nets : List CidrNet)
    → All IsNarrow nets
    → All IsNarrow (first_nets n nets) × (length (first_nets n nets) ≤ n)
unfolding first_nets
first_nets_lem n [] h = (tt, omega arith)
first_nets_lem n (net ∷ nets) h =
    let (narrow, few) = first_nets_lem (n - 1) nets h.1 in
    if_holds (λ (ns : List CidrNet). All IsNarrow ns × (length ns ≤ n)) (leb n 0) []
      (net ∷ first_nets (n - 1) nets) (λ e. (tt, omega arith))
      (λ e. ((h.0, narrow), ground (arith, e, few)))

module _ (is_ip : Chars → ℕ) (number : Chars → Option ℕ) where
  part_net-IsFitting : (text : Chars) (o : Option Groups) → IsFitting (part_net is_ip number text o)
  unfolding part_net
  part_net-IsFitting text none = tt
  part_net-IsFitting text (some g) = net_of-IsFitting g (number text)

  parse_cut-IsFitting :
      (s : Chars) (cut : Option (Chars × Chars)) → IsFitting (parse_cut is_ip number s cut)
  unfolding parse_cut
  parse_cut-IsFitting s none = whole_net-IsFitting _
  parse_cut-IsFitting s (some (before, after)) = part_net-IsFitting after _

  parse_cidr-IsFitting : (raw : Chars) → IsFitting (parse_cidr is_ip number raw)
  unfolding parse_cidr
  parse_cidr-IsFitting raw =
      let s = to_lower (trim raw) in
      if_holds IsFitting (is_empty s) none (parse_cut is_ip number s (cut_last_slash s)) (λ e. tt)
        (λ e. parse_cut-IsFitting s (cut_last_slash s))

  nets_of_tokens-IsNarrow :
      (tokens : List Chars) → All IsNarrow (nets_of_tokens is_ip number tokens)
  unfolding nets_of_tokens nets_of_token
  nets_of_tokens-IsNarrow [] = tt
  nets_of_tokens-IsNarrow (t ∷ tokens) =
      All-append IsNarrow (nets_of_token is_ip number t) (nets_of_tokens is_ip number tokens)
        (if_holds (All IsNarrow) _ private_nets (usable (parse_cidr is_ip number t))
          (λ e. private_nets-IsNarrow)
          (λ e. usable-IsNarrow (parse_cidr is_ip number t) (parse_cidr-IsFitting t)))
        (nets_of_tokens-IsNarrow tokens)

  parse_trusted_proxies_lem :
      (raw : Option Chars)
      → All IsNarrow (parse_trusted_proxies is_ip number raw)
        × (length (parse_trusted_proxies is_ip number raw) ≤ max_trusted_proxy_nets)
  unfolding parse_trusted_proxies
  parse_trusted_proxies_lem raw =
      let tokens = filter (λ token. not (is_empty token)) (split_tokens (or_empty raw)) in
      let nets = nets_of_tokens is_ip number tokens in
      if_holds (λ (ns : List CidrNet). All IsNarrow ns × (length ns ≤ max_trusted_proxy_nets))
        (ltb max_trusted_proxy_nets (length nets)) (first_nets max_trusted_proxy_nets nets) nets
        (λ e. first_nets_lem max_trusted_proxy_nets nets (nets_of_tokens-IsNarrow tokens))
        (λ e. (nets_of_tokens-IsNarrow tokens, ground (arith, e)))

  hops_of-le : (o : Option ℕ) → hops_of o ≤ max_trust_proxy_hops
  hops_of-le none = omega arith
  hops_of-le (some n) = ground arith

  parse_trust_proxy_hops-le :
      (raw : Option Chars) → parse_trust_proxy_hops is_ip number raw ≤ max_trust_proxy_hops
  unfolding parse_trust_proxy_hops
  parse_trust_proxy_hops-le raw =
      let v = to_lower (trim (or_empty raw)) in
      if_holds (λ n. n ≤ max_trust_proxy_hops) (is_empty v) 1 _ (λ e. omega arith)
        (λ e.
          if_holds (λ n. n ≤ max_trust_proxy_hops) (is_off_word v) 0 (hops_of (number v))
            (λ e. omega arith) (λ e. hops_of-le (number v)))

  -- What is trusted at most: 64 networks, of which none has all addresses, or else 8 hops.
  abbrev pub IsBounded : ProxyTrust → Type 0
  IsBounded trust =
      All IsNarrow trust.nets
      × (length trust.nets ≤ max_trusted_proxy_nets)
      × (trust.hops ≤ max_trust_proxy_hops)

  or_hops-IsBounded :
      (raw : Option Chars) (nets : List CidrNet)
      → All IsNarrow nets
      → length nets ≤ max_trusted_proxy_nets
      → IsBounded (or_hops is_ip number raw nets)
  or_hops-IsBounded raw [] h few = (tt, omega arith, parse_trust_proxy_hops-le raw)
  or_hops-IsBounded raw (net ∷ nets) h few = (h, few, omega arith)

  -- Whatever the two variables say, none of the trusted networks has all addresses, there are 64 at
  -- most, and 8 hops at most.
  pub resolve_proxy_trust-IsBounded :
      (trusted_proxies trust_proxy : Option Chars)
      → IsBounded (resolve_proxy_trust is_ip number trusted_proxies trust_proxy)
  unfolding resolve_proxy_trust
  resolve_proxy_trust-IsBounded trusted_proxies trust_proxy =
      let listed = trim (or_empty trusted_proxies) in
      let (narrow, few) = parse_trusted_proxies_lem (some listed) in
      if_holds IsBounded (is_empty listed) (or_hops is_ip number trust_proxy []) _
        (λ e. or_hops-IsBounded trust_proxy [] tt (omega arith))
        (λ e.
          if_holds IsBounded (is_off listed) (record { nets = []; hops = 0 })
            (or_hops is_ip number trust_proxy (parse_trusted_proxies is_ip number (some listed)))
            (λ e. (tt, omega arith, omega arith))
            (λ e.
              or_hops-IsBounded trust_proxy (parse_trusted_proxies is_ip number (some listed))
                narrow few))
