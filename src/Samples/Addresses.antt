-- ===== src/Samples/Addresses.antt =====
-- Requests behind a proxy at 10.0.0.2, counted for their addresses.
use lo_lprox_chat.Common.{
  ℕ, ◌≡◌, refl, false, ◌&&◌, some, List, [], ◌∷◌, ◌++◌, filter, if◌then◌else◌,
}
use lo_lprox_chat.Json.{str}
use lo_lprox_chat.Text.{codes, within, every}
use lo_lprox_chat.Address.Chars.{
  Chars, includes, split_on, trim, trim_start, trim_end, to_lower, cut_at, after_prefix,
  every_digit,
}
use lo_lprox_chat.Address.Ip.{
  normalize_ip, bucket_key, expand_v6, number_of, digits_value, bracketed, without_port, unmapped,
  cut_last, split_pairs, to_hex, to_hex_on, hex_prefix, parse_hex, all_within, without_quad,
  groups_of, zeros, fill_groups,
}
use lo_lprox_chat.Address.Nets.{CidrNet, v4, ip_in_net, in_any_net, address_groups, parts_match}
use lo_lprox_chat.Address.Origin.{
  missing, one, Request, ProxyTrust, walk, stranger, exhausted, entries_of, client_ip,
  client_ip_by_proxy_list, socket_key, key_name,
}
use lo_lprox_chat.Address.Origin.Padding.{client_ip_by_proxy_list-padding}
use lo_lprox_chat.Address.Origin.Sources.{IsKnown, believes, client_ip_lem}
use lo_lprox_chat.Address.Origin.Players.{player_key_inj}

-- A test of addresses that is good enough for these texts.
abbrev pub is_ip : Chars → ℕ
is_ip cs =
    if every (λ c. within 0x2e 0x39 c) cs && includes b'.' cs
    then 4
    else if includes b':' cs
    then 6
    else 0

abbrev proxies : List CidrNet
proxies = v4 (10 ∷ 0 ∷ 0 ∷ 0 ∷ []) 8 ∷ []

abbrev proxied : Request
proxied = record { remote = some (codes "10.0.0.2"); forwarded_for = missing; real_ip = missing }

runs : Unit {0}
unfolding every includes split_on trim trim_start trim_end to_lower cut_at after_prefix every_digit
    normalize_ip bucket_key number_of digits_value bracketed without_port unmapped ip_in_net
    in_any_net address_groups parts_match walk entries_of filter expand_v6 cut_last split_pairs
    to_hex to_hex_on hex_prefix parse_hex all_within without_quad groups_of zeros fill_groups
runs = tt

-- The walk steps over our own proxy, to the client.
client_found :
    walk is_ip proxies (entries_of (codes "203.0.113.9, 10.0.0.7")) exhausted
    ≡ stranger (codes "203.0.113.9")
unfolding runs
client_found = refl

v6_key : bucket_key is_ip (codes "2001:db8::1") ≡ codes "2001:db8:0:0::/64"
unfolding runs
v6_key = refl

client_ip_by_proxy_list-padding_example :
    client_ip_by_proxy_list is_ip
      (record proxied {
        forwarded_for = one (codes "1.2.3.4" ++ b',' ∷ codes "203.0.113.9, 10.0.0.7");
      })
      proxies
    ≡ client_ip_by_proxy_list is_ip
        (record proxied { forwarded_for = one (codes "203.0.113.9, 10.0.0.7") })
        proxies
client_ip_by_proxy_list-padding_example =
    client_ip_by_proxy_list-padding is_ip proxies proxied (codes "1.2.3.4")
      (codes "203.0.113.9, 10.0.0.7") (rw client_found (λ e. cc))

abbrev pub direct : Request
direct = record {
  remote = some (codes "198.51.100.7");
  forwarded_for = one (codes "1.2.3.4");
  real_ip = missing;
}

abbrev pub trust : ProxyTrust
trust = record { nets = proxies; hops = 1 }

client_ip_lem_example :
    IsKnown is_ip (socket_key is_ip direct.remote) (client_ip is_ip direct trust)
    × (believes is_ip direct trust ≡ false
        → client_ip is_ip direct trust ≡ (socket_key is_ip direct.remote, false))
client_ip_lem_example = client_ip_lem is_ip direct trust

player_key_inj_example :
    (codes "10.0.0.1" ≡ codes "10.0.0.1") × (key_name (str "ann") ≡ key_name (str "ann"))
unfolding includes
player_key_inj_example =
    player_key_inj (codes "10.0.0.1") (codes "10.0.0.1") (str "ann") (str "ann") refl refl refl
