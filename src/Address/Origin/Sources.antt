-- ===== src/Address/Origin/Sources.antt =====
-- Where the key of a request comes from, in server/src/rate-limit.ts.
use lo_lprox_chat.Common.{
  ℕ, ◌≡◌, ◌≢◌, refl, ◌⊎◌, inl, inr, Bool, true, false, not, ◌&&◌, ◌||◌, Option, none, some, List,
  [], ◌∷◌, arith, nat_beq, if◌then◌else◌, Bool-cases, nat_beq_iff, ◌==◌,
}
use lo_lprox_chat.Rooms.{bind}
use lo_lprox_chat.Address.Chars.{Chars, trim, to_lower, is_empty, chars_eq}
use lo_lprox_chat.Address.Ip.{normalize_ip, bucket_key, if_ip}
use lo_lprox_chat.Address.Nets.{CidrNet, in_any_net}
use lo_lprox_chat.Address.Origin.{
  Request, ProxyTrust, Key, Walk, stranger, unusable, exhausted, walk, walk_entry, walk_key,
  entries_of, header_value, forwarded_key, client_ip_by_proxy_list, client_ip_by_hop_count,
  client_ip, is_in_nets, peer_ip, socket_key, is_trusted_peer, counted_key, counted, agreed,
  real_ip_key,
}

module _ (is_ip : Chars → ℕ) where
  -- The key is that of the socket, or, with no complaint, that of an address.
  abbrev pub IsKnown : Chars → Key → Type 0
  IsKnown fallback k =
      (k.0 ≡ fallback)
      ⊎ ((ip : Chars) × (is_ip ip ≢ 0) × (k.0 ≡ bucket_key is_ip ip) × (k.1 ≡ false))

  if_ip-address : (s ip : Chars) → if_ip is_ip s ≡ some ip → is_ip ip ≢ 0
  if_ip-address s ip e zero_family = elim (Bool-cases (nat_beq (is_ip s) 0)) [
    | inl family ↦ ground (arith, family)
    | inr address ↦
        let same : some s ≡ some ip = rw address at e in
        let here : is_ip s ≡ 0 = ground arith in ground (arith, (nat_beq_iff (is_ip s) 0).1 here)
  ]

  -- What is left of a text is an address.
  normalize-address : (raw ip : Chars) → normalize_ip is_ip raw ≡ some ip → is_ip ip ≢ 0
  unfolding normalize_ip
  normalize-address raw ip e = elim (Bool-cases (is_empty (to_lower (trim raw)))) [
    | inl nothing ↦ absurd (ground (arith, nothing))
    | inr text ↦ if_ip-address _ ip (rw text at e)
  ]

  abbrev FindsAddress : Walk → Type 0
  FindsAddress (stranger ip) = is_ip ip ≢ 0
  FindsAddress unusable = Unit
  FindsAddress exhausted = Unit

  walk_entry-FindsAddress :
      (nets : List CidrNet) (e : Chars) (o : Option Chars) (left : Walk)
      → normalize_ip is_ip e ≡ o
      → FindsAddress left
      → FindsAddress (walk_entry is_ip nets o left)
  walk_entry-FindsAddress nets e none left q h = tt
  walk_entry-FindsAddress nets e (some ip) left q h = elim (Bool-cases (in_any_net is_ip ip nets)) [
    | inl listed ↦ rw listed h
    | inr other ↦ rw other (normalize-address e ip q)
  ]

  walk-FindsAddress :
      (nets : List CidrNet) (entries : List Chars) (left : Walk)
      → FindsAddress left
      → FindsAddress (walk is_ip nets entries left)
  unfolding walk
  walk-FindsAddress nets [] left h = h
  walk-FindsAddress nets (e ∷ entries) left h =
      walk-FindsAddress nets entries (walk_entry is_ip nets (normalize_ip is_ip e) left)
        (walk_entry-FindsAddress nets e (normalize_ip is_ip e) left refl h)

  walk_key-IsKnown :
      (fallback : Chars) (w : Walk) → FindsAddress w → IsKnown fallback (walk_key is_ip fallback w)
  walk_key-IsKnown fallback (stranger ip) h = inr (ip, h, refl, refl)
  walk_key-IsKnown fallback unusable h = inl refl
  walk_key-IsKnown fallback exhausted h = inl refl

  real_ip_key-IsKnown :
      (fallback raw : Chars) (o : Option Chars)
      → normalize_ip is_ip raw ≡ o
      → IsKnown fallback (real_ip_key is_ip fallback raw o)
  real_ip_key-IsKnown fallback raw none e = inl refl
  real_ip_key-IsKnown fallback raw (some ip) e = inr (ip, normalize-address raw ip e, refl, refl)

  forwarded_key-IsKnown :
      (nets : List CidrNet) (req : Request) (fallback : Chars) (entries : List Chars)
      → IsKnown fallback (forwarded_key is_ip nets req fallback entries)
  unfolding forwarded_key
  forwarded_key-IsKnown nets req fallback [] =
      let raw = header_value req.real_ip in
      real_ip_key-IsKnown fallback raw (normalize_ip is_ip raw) refl
  forwarded_key-IsKnown nets req fallback (e ∷ entries) =
      walk_key-IsKnown fallback (walk is_ip nets (e ∷ entries) exhausted)
        (walk-FindsAddress nets (e ∷ entries) exhausted tt)

  agreed-IsKnown :
      (fallback : Chars) (tried : Bool) (real xff : Option Chars)
      → ((ip : Chars) → real ≡ some ip → is_ip ip ≢ 0)
      → ((ip : Chars) → xff ≡ some ip → is_ip ip ≢ 0)
      → IsKnown fallback (agreed is_ip fallback tried real xff)
  agreed-IsKnown fallback tried none none h k = inl refl
  agreed-IsKnown fallback tried none (some x) h k = inr (x, k x refl, refl, refl)
  agreed-IsKnown fallback tried (some r) none h k = inr (r, h r refl, refl, refl)
  agreed-IsKnown fallback tried (some r) (some x) h k =
      elim (Bool-cases (bucket_key is_ip r == bucket_key is_ip x)) [
        | inl same ↦ rw same (inr (r, h r refl, refl, refl))
        | inr differ ↦ rw differ (inl refl)
      ]

  bound-address :
      (o : Option Chars) (ip : Chars) → bind o (normalize_ip is_ip) ≡ some ip → is_ip ip ≢ 0
  bound-address none ip e = cc
  bound-address (some raw) ip e = normalize-address raw ip e

  counted_key-IsKnown :
      (req : Request) (hops : ℕ) (fallback : Chars)
      → IsKnown fallback (counted_key is_ip req hops fallback)
  unfolding counted_key
  counted_key-IsKnown req hops fallback =
      let raw_real = if nat_beq hops 1 then header_value req.real_ip else [] in
      let entries = entries_of (header_value req.forwarded_for) in
      agreed-IsKnown fallback (not (is_empty entries && is_empty raw_real))
        (normalize_ip is_ip raw_real) (bind (counted is_ip hops entries) (normalize_ip is_ip))
        (normalize-address raw_real) (bound-address (counted is_ip hops entries))

  -- A key that is used only if headers are believed.
  abbrev Guarded : Bool → Chars → Key → Type 0
  Guarded believed fallback k = IsKnown fallback k × (believed ≡ false → k ≡ (fallback, false))

  believed-Guarded :
      (t : Bool) (fallback : Chars) (k : Key)
      → IsKnown fallback k
      → Guarded t fallback (if t then k else (fallback, false))
  believed-Guarded true fallback k h = (h, λ e. cc)
  believed-Guarded false fallback k h = (inl refl, λ e. refl)

  refused-Guarded :
      (t : Bool) (fallback : Chars) (k : Key)
      → IsKnown fallback k
      → Guarded (not t) fallback (if t then (fallback, false) else k)
  refused-Guarded true fallback k h = (inl refl, λ e. refl)
  refused-Guarded false fallback k h = (h, λ e. cc)

  by_proxy_list-Guarded :
      (req : Request) (nets : List CidrNet)
      → Guarded
          (is_in_nets is_ip nets (peer_ip is_ip req.remote))
          (socket_key is_ip req.remote)
          (client_ip_by_proxy_list is_ip req nets)
  unfolding client_ip_by_proxy_list
  by_proxy_list-Guarded req nets =
      let fallback = socket_key is_ip req.remote in
      let entries = entries_of (header_value req.forwarded_for) in
      believed-Guarded (is_in_nets is_ip nets (peer_ip is_ip req.remote)) fallback
        (forwarded_key is_ip nets req fallback entries)
        (forwarded_key-IsKnown nets req fallback entries)

  by_hop_count-Guarded :
      (req : Request) (hops : ℕ)
      → Guarded
          (not (nat_beq hops 0 || not (is_trusted_peer is_ip req.remote)))
          (socket_key is_ip req.remote)
          (client_ip_by_hop_count is_ip req hops)
  unfolding client_ip_by_hop_count
  by_hop_count-Guarded req hops =
      let fallback = socket_key is_ip req.remote in
      refused-Guarded (nat_beq hops 0 || not (is_trusted_peer is_ip req.remote)) fallback
        (counted_key is_ip req hops fallback) (counted_key-IsKnown req hops fallback)

  -- Whether the headers of a request are read at all.
  abbrev pub believes : Request → ProxyTrust → Bool
  believes req trust =
      if is_empty trust.nets
      then not (nat_beq trust.hops 0 || not (is_trusted_peer is_ip req.remote))
      else is_in_nets is_ip trust.nets (peer_ip is_ip req.remote)

-- A request is counted for its socket, or for the key of something that is an address; and for its
-- socket only, with no complaint, if its peer is no trusted proxy, whatever its headers say.
pub client_ip_lem :
    (is_ip : Chars → ℕ) (req : Request) (trust : ProxyTrust)
    → IsKnown is_ip (socket_key is_ip req.remote) (client_ip is_ip req trust)
      × (believes is_ip req trust ≡ false
          → client_ip is_ip req trust ≡ (socket_key is_ip req.remote, false))
unfolding client_ip
client_ip_lem is_ip req trust = elim (Bool-cases (is_empty trust.nets)) [
  | inl counts ↦ rw counts (by_hop_count-Guarded is_ip req trust.hops)
  | inr lists ↦ rw lists (by_proxy_list-Guarded is_ip req trust.nets)
]
