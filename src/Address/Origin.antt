-- ===== src/Address/Origin.antt =====
-- `clientIp` of server/src/rate-limit.ts: who a request is counted for, and `playerKey`. The flag
-- that comes with a key says that `onUntrustedForward` was called.
pub mod Padding
pub mod Sources
pub mod Players
use lo_lprox_chat.Common.{
  ℕ, zero, suc, ◌+◌, ◌-◌, ◌/◌, ◌%◌, string_eq, ltb, String, Bool, true, false, not, ◌&&◌, ◌||◌,
  Option, none, some, List, [], ◌∷◌, ◌++◌, map, filter, leb, nat_beq, length, ◌==◌, if◌then◌else◌,
}
use lo_lprox_chat.Text.{codes}
use lo_lprox_chat.Json.{Json, str}
use lo_lprox_chat.Rooms.{bind}
use lo_lprox_chat.Address.Chars.{Chars, trim, split_on, cut_at, is_empty, chars_eq}
use lo_lprox_chat.Address.Ip.{normalize_ip, bucket_key}
use lo_lprox_chat.Address.Nets.{CidrNet, in_any_net, private_nets}

-- A header is missing, or has one value or several.
pub data Header : Type 0 where
  missing : Header
  one : Chars → Header
  several : List Chars → Header

-- What `clientIp` reads of a request: `remoteAddress` and two headers.
pub record Request : Type 0 where
  pub remote : Option Chars
  pub forwarded_for : Header
  pub real_ip : Header

pub record ProxyTrust : Type 0 where
  pub nets : List CidrNet
  pub hops : ℕ

-- `values.join(',')`.
unfoldable pub join_commas : List Chars → Chars
join_commas [] = []
join_commas (v ∷ []) = v
join_commas (v ∷ w ∷ vs) = v ++ b',' ∷ join_commas (w ∷ vs)

unfoldable pub header_value : Header → Chars
unfolding join_commas
header_value missing = []
header_value (one v) = v
header_value (several vs) = join_commas vs

unfoldable pub strip_zone : Chars → Chars
unfolding cut_at
strip_zone addr = (cut_at b'%' addr).0

-- `.split(',').map(trim).filter(nonempty)`.
unfoldable pub entries_of : Chars → List Chars
unfolding split_on trim filter
entries_of text = filter (λ e. not (is_empty e)) (map trim (split_on b',' text))

-- `entries[entries.length - n]`, counted from the right; the last for `n = 1`.
unfoldable pub from_right {ℓ} : {A : Type ℓ} → ℕ → List A → Option A
from_right n [] = none
from_right n (x ∷ xs) = if nat_beq (length (x ∷ xs)) n then some x else from_right n xs

abbrev pub Key : Type 0
Key = Chars × Bool

abbrev pub is_none {ℓ} : {A : Type ℓ} → Option A → Bool
is_none none = true
is_none (some _) = false

-- How the walk ends: at the address of a stranger, at an unusable entry, or past all entries.
pub data Walk : Type 0 where
  stranger : Chars → Walk
  unusable exhausted : Walk

module _ (is_ip : Chars → ℕ) where
  abbrev pub key_or : Chars → Option Chars → Chars
  key_or bare none = bare
  key_or bare (some ip) = bucket_key is_ip ip

  abbrev pub bare_key : Chars → Chars
  bare_key bare = if is_empty bare then codes "unknown" else key_or bare (normalize_ip is_ip bare)

  -- An absent remote address and an empty one are the same here.
  unfoldable pub socket_key : Option Chars → Chars
  unfolding strip_zone trim normalize_ip bucket_key
  socket_key none = codes "unknown"
  socket_key (some raw) = if is_empty raw then codes "unknown" else bare_key (strip_zone (trim raw))

  abbrev pub is_in_nets : List CidrNet → Option Chars → Bool
  is_in_nets nets none = false
  is_in_nets nets (some ip) = in_any_net is_ip ip nets

  -- The address of the peer, if there is one.
  unfoldable pub peer_ip : Option Chars → Option Chars
  unfolding strip_zone normalize_ip
  peer_ip none = none
  peer_ip (some raw) = if is_empty raw then none else normalize_ip is_ip (strip_zone raw)

  unfoldable pub is_trusted_peer : Option Chars → Bool
  unfolding peer_ip in_any_net
  is_trusted_peer remote = is_in_nets private_nets (peer_ip remote)

  abbrev pub walk_entry : List CidrNet → Option Chars → Walk → Walk
  walk_entry nets none left = unusable
  walk_entry nets (some ip) left = if in_any_net is_ip ip nets then left else stranger ip

  -- From the right: what stands further left counts only if all of the rest are listed proxies.
  unfoldable pub walk : List CidrNet → List Chars → Walk → Walk
  unfolding normalize_ip in_any_net
  walk nets [] left = left
  walk nets (e ∷ entries) left = walk nets entries (walk_entry nets (normalize_ip is_ip e) left)

  abbrev pub real_ip_key : Chars → Chars → Option Chars → Key
  real_ip_key fallback raw none = (fallback, not (is_empty raw))
  real_ip_key fallback raw (some ip) = (bucket_key is_ip ip, false)

  abbrev pub walk_key : Chars → Walk → Key
  walk_key fallback (stranger ip) = (bucket_key is_ip ip, false)
  walk_key fallback unusable = (fallback, true)
  walk_key fallback exhausted = (fallback, true)

  unfoldable pub forwarded_key : List CidrNet → Request → Chars → List Chars → Key
  unfolding header_value normalize_ip bucket_key walk
  forwarded_key nets req fallback [] =
      let raw = header_value req.real_ip in real_ip_key fallback raw (normalize_ip is_ip raw)
  forwarded_key nets req fallback (e ∷ entries) =
      walk_key fallback (walk nets (e ∷ entries) exhausted)

  unfoldable pub client_ip_by_proxy_list : Request → List CidrNet → Key
  unfolding socket_key peer_ip in_any_net forwarded_key entries_of header_value
  client_ip_by_proxy_list req nets =
      let fallback = socket_key req.remote in
      if is_in_nets nets (peer_ip req.remote)
      then forwarded_key nets req fallback (entries_of (header_value req.forwarded_for))
      else (fallback, false)

  -- The counted entry, or the last one of a list that is too short.
  abbrev pub counted : ℕ → List Chars → Option Chars
  counted hops entries =
      if leb hops (length entries) then from_right hops entries else from_right 1 entries

  -- What the two headers say, once each is read.
  abbrev pub agreed : Chars → Bool → Option Chars → Option Chars → Key
  agreed fallback tried none none = (fallback, tried)
  agreed fallback tried none (some xff) = (bucket_key is_ip xff, false)
  agreed fallback tried (some real) none = (bucket_key is_ip real, false)
  agreed fallback tried (some real) (some xff) =
      if bucket_key is_ip real == bucket_key is_ip xff
      then (bucket_key is_ip real, false)
      else (fallback, true)

  unfoldable pub counted_key : Request → ℕ → Chars → Key
  unfolding header_value entries_of normalize_ip bucket_key from_right
  counted_key req hops fallback =
      let raw_real = if nat_beq hops 1 then header_value req.real_ip else [] in
      let entries = entries_of (header_value req.forwarded_for) in
      agreed fallback (not (is_empty entries && is_empty raw_real)) (normalize_ip is_ip raw_real)
        (bind (counted hops entries) (normalize_ip is_ip))

  unfoldable pub client_ip_by_hop_count : Request → ℕ → Key
  unfolding socket_key is_trusted_peer counted_key
  client_ip_by_hop_count req hops =
      let fallback = socket_key req.remote in
      if nat_beq hops 0 || not (is_trusted_peer req.remote)
      then (fallback, false)
      else counted_key req hops fallback

  unfoldable pub client_ip : Request → ProxyTrust → Key
  unfolding client_ip_by_proxy_list client_ip_by_hop_count
  client_ip req trust =
      if is_empty trust.nets
      then client_ip_by_hop_count req trust.hops
      else client_ip_by_proxy_list req trust.nets

-- `MAX_PLAYER_KEY_NAME`.
abbrev pub max_player_key_name : ℕ
max_player_key_name = 64

-- The UTF-16 units of code points.
unfoldable pub utf16 : List ℕ → Chars
utf16 [] = []
utf16 (c ∷ cs) =
    let rest = utf16 cs in
    if ltb c 0x10000
    then c ∷ rest
    else (0xd800 + (c - 0x10000) / 0x400) ∷ (0xdc00 + (c - 0x10000) % 0x400) ∷ rest

-- `text.slice(0, n)`.
unfoldable pub take {ℓ} : {A : Type ℓ} → ℕ → List A → List A
take zero xs = []
take (suc n) [] = []
take (suc n) (x ∷ xs) = x ∷ take n xs

-- What of a name goes into a key.
unfoldable pub key_name : Json → Option Chars
unfolding utf16 take
key_name (str s) = if s == "" then none else some (take max_player_key_name (utf16 (codes s)))
key_name _ = none

abbrev pub with_name : Chars → Option Chars → Chars
with_name ip none = ip
with_name ip (some name) = ip ++ 0 ∷ name

unfoldable pub player_key : Chars → Json → Chars
unfolding key_name
player_key ip name = with_name ip (key_name name)
