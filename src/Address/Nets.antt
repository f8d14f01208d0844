-- ===== src/Address/Nets.antt =====
-- Networks in server/src/rate-limit.ts: `ipInNet` and the private ranges.
use lo_lprox_chat.Common.{
  ℕ, ◌-◌, ◌/◌, ◌^◌, Bool, true, false, ◌&&◌, ◌||◌, Option, none, some, List, [], ◌∷◌, map, min,
  nat_beq, if◌then◌else◌,
}
use lo_lprox_chat.Limits.Concurrency.{or_zero}
use lo_lprox_chat.Address.Chars.{Chars, split_on}
use lo_lprox_chat.Address.Ip.{number_of, expand_v6}

-- `parts` are octets for family 4 and groups of 16 bits for family 6.
pub record CidrNet : Type 0 where
  pub family : ℕ
  pub parts : List ℕ
  pub prefix : ℕ

pub record Groups : Type 0 where
  pub family : ℕ
  pub parts : List ℕ

-- `GROUP_BITS`.
abbrev pub group_bits : ℕ → ℕ
group_bits family = if nat_beq family 4 then 8 else 16

-- The loop, group by group while bits of the prefix remain.
unfoldable pub parts_match : ℕ → ℕ → List ℕ → List ℕ → Bool
parts_match width remaining [] bs = true
parts_match width remaining (a ∷ more) [] = true
parts_match width remaining (a ∷ more) (b ∷ bs) =
    let shift = width - min width remaining in
    nat_beq remaining 0
    || (nat_beq (a / 2 ^ shift) (b / 2 ^ shift) && parts_match width (remaining - width) more bs)

abbrev pub groups_in_net : CidrNet → Option Groups → Bool
groups_in_net net none = false
groups_in_net net (some a) =
    nat_beq a.family net.family && parts_match (group_bits net.family) net.prefix a.parts net.parts

abbrev pub v6_groups : Option (List ℕ) → Option Groups
v6_groups none = none
v6_groups (some parts) = some (record { family = 6; parts = parts })

module _ (is_ip : Chars → ℕ) where
  unfoldable pub address_groups : Chars → Option Groups
  unfolding split_on number_of expand_v6
  address_groups ip =
      if nat_beq (is_ip ip) 4
      then some (record {
        family = 4;
        parts = map (λ octet. or_zero (number_of octet)) (split_on b'.' ip);
      })
      else if nat_beq (is_ip ip) 6
      then v6_groups (expand_v6 ip)
      else none

  unfoldable pub ip_in_net : Chars → CidrNet → Bool
  unfolding address_groups parts_match
  ip_in_net ip net = groups_in_net net (address_groups ip)

  unfoldable pub in_any_net : Chars → List CidrNet → Bool
  unfolding ip_in_net
  in_any_net ip [] = false
  in_any_net ip (n ∷ nets) = ip_in_net ip n || in_any_net ip nets

abbrev pub v4 : List ℕ → ℕ → CidrNet
v4 parts prefix = record { family = 4; parts = parts; prefix = prefix }

abbrev pub v6 : ℕ → ℕ → ℕ → CidrNet
v6 first last prefix = record {
  family = 6;
  parts = first ∷ 0 ∷ 0 ∷ 0 ∷ 0 ∷ 0 ∷ 0 ∷ last ∷ [];
  prefix = prefix;
}

-- `PRIVATE_NETS`, as `parseCidr` reads them.
abbrev pub private_nets : List CidrNet
private_nets =
    v4 (127 ∷ 0 ∷ 0 ∷ 0 ∷ []) 8
    ∷ v4 (10 ∷ 0 ∷ 0 ∷ 0 ∷ []) 8
    ∷ v4 (172 ∷ 16 ∷ 0 ∷ 0 ∷ []) 12
    ∷ v4 (192 ∷ 168 ∷ 0 ∷ 0 ∷ []) 16
    ∷ v4 (169 ∷ 254 ∷ 0 ∷ 0 ∷ []) 16
    ∷ v6 0 1 128
    ∷ v6 0xfc00 0 7
    ∷ v6 0xfe80 0 10
    ∷ []
