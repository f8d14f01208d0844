-- ===== src/Address/Origin/Padding.antt =====
-- Padding X-Forwarded-For does not move the walk of server/src/rate-limit.ts.
use lo_lprox_chat.Common.{
  ℕ, ◌≡◌, ◌≢◌, refl, sym, ◌∙◌, ap, false, not, Option, none, some, List, [], ◌∷◌, ◌++◌, map, filter,
  arith, nat_beq, if◌then◌else◌, Bool-cases, inl, inr, nat_beq_iff,
}
use lo_lprox_chat.Address.Chars.{Chars, trim, split_on, cons_piece, is_empty}
use lo_lprox_chat.Address.Ip.{normalize_ip}
use lo_lprox_chat.Address.Nets.{CidrNet, in_any_net}
use lo_lprox_chat.Address.Origin.{
  one, Request, Walk, exhausted, walk, walk_entry, walk_key, entries_of, header_value,
  forwarded_key, client_ip_by_proxy_list, is_in_nets, peer_ip, socket_key,
}

cons_piece-nonempty : (d : ℕ) (ps : List Chars) → cons_piece d ps ≢ []
cons_piece-nonempty d [] e = cc
cons_piece-nonempty d (p ∷ ps) e = cc

split_on-nonempty : (c : ℕ) (cs : Chars) → split_on c cs ≢ []
unfolding split_on
split_on-nonempty c [] e = cc
split_on-nonempty c (d ∷ ds) e = elim (Bool-cases (nat_beq d c)) [
  | inl hit ↦ absurd (ground (arith, hit))
  | inr miss ↦ cons_piece-nonempty d (split_on c ds) (rw miss at e)
]

cons_piece-append :
    (d : ℕ) (ps qs : List Chars) → ps ≢ [] → cons_piece d (ps ++ qs) ≡ cons_piece d ps ++ qs
cons_piece-append d [] qs n = absurd (n refl)
cons_piece-append d (p ∷ ps) qs n = refl

-- What a text is split into depends on nothing across a separator.
split_on-append :
    (c : ℕ) (front rest : Chars)
    → split_on c (front ++ c ∷ rest) ≡ split_on c front ++ split_on c rest
unfolding split_on
split_on-append c [] rest = ground (arith, nat_beq_iff c c)
split_on-append c (d ∷ front) rest = elim (Bool-cases (nat_beq d c)) [
  | inl hit ↦ rw hit (ap (λ ps. [] ∷ ps) (split_on-append c front rest))
  | inr miss ↦ rw miss (
      ap (cons_piece d) (split_on-append c front rest)
      ∙ cons_piece-append d (split_on c front) (split_on c rest) (split_on-nonempty c front))
]

kept-append :
    (xs ys : List Chars)
    → filter (λ e. not (is_empty e)) (map trim (xs ++ ys))
      ≡ filter (λ e. not (is_empty e)) (map trim xs) ++ filter (λ e. not (is_empty e)) (map trim ys)
unfolding filter
kept-append [] ys = refl
kept-append (x ∷ xs) ys = elim (Bool-cases (is_empty (trim x))) [
  | inl gone ↦ rw gone (kept-append xs ys)
  | inr kept ↦ rw kept (ap (λ es. trim x ∷ es) (kept-append xs ys))
]

entries_of-append :
    (front rest : Chars) → entries_of (front ++ b',' ∷ rest) ≡ entries_of front ++ entries_of rest
unfolding entries_of
entries_of-append front rest =
    rw (split_on-append b',' front rest) (kept-append (split_on b',' front) (split_on b',' rest))

module _ (is_ip : Chars → ℕ) (nets : List CidrNet) where
  walk-append :
      (xs ys : List Chars) (left : Walk)
      → walk is_ip nets (xs ++ ys) left ≡ walk is_ip nets ys (walk is_ip nets xs left)
  unfolding walk
  walk-append [] ys left = refl
  walk-append (x ∷ xs) ys left =
      walk-append xs ys (walk_entry is_ip nets (normalize_ip is_ip x) left)

  walk_stops_at :
      (entries : List Chars) (o : Option Chars) (left : Walk)
      → (walk is_ip nets entries exhausted ≢ exhausted
          → walk is_ip nets entries left ≡ walk is_ip nets entries exhausted)
      → walk is_ip nets entries (walk_entry is_ip nets o exhausted) ≢ exhausted
      → walk is_ip nets entries (walk_entry is_ip nets o left)
        ≡ walk is_ip nets entries (walk_entry is_ip nets o exhausted)
  walk_stops_at entries none left further n = refl
  walk_stops_at entries (some ip) left further n = elim (Bool-cases (in_any_net is_ip ip nets)) [
    | inl listed ↦ rw listed (further (rw listed at n))
    | inr other ↦ rw other refl
  ]

  -- What is further left does not matter, unless all entries are listed proxies.
  walk_stops :
      (entries : List Chars) (left : Walk)
      → walk is_ip nets entries exhausted ≢ exhausted
      → walk is_ip nets entries left ≡ walk is_ip nets entries exhausted
  unfolding walk
  walk_stops [] left n = absurd (n refl)
  walk_stops (e ∷ entries) left n =
      walk_stops_at entries (normalize_ip is_ip e) left (walk_stops entries left) n

  forwarded-walk :
      (req : Request) (fallback : Chars) (entries : List Chars)
      → walk is_ip nets entries exhausted ≢ exhausted
      → forwarded_key is_ip nets req fallback entries
        ≡ walk_key is_ip fallback (walk is_ip nets entries exhausted)
  unfolding forwarded_key walk
  forwarded-walk req fallback [] n = absurd (n refl)
  forwarded-walk req fallback (e ∷ entries) n = refl

  padded_walk :
      (padding rest : Chars)
      → walk is_ip nets (entries_of rest) exhausted ≢ exhausted
      → walk is_ip nets (entries_of (padding ++ b',' ∷ rest)) exhausted
        ≡ walk is_ip nets (entries_of rest) exhausted
  padded_walk padding rest n =
      ap (λ es. walk is_ip nets es exhausted) (entries_of-append padding rest)
      ∙ walk-append (entries_of padding) (entries_of rest) exhausted
      ∙ walk_stops (entries_of rest) (walk is_ip nets (entries_of padding) exhausted) n

-- If the last entries of the header, those that the proxies wrote, end the walk, then what is put in
-- front of them changes nothing: neither the key nor whether the header is counted as unusable.
pub client_ip_by_proxy_list-padding :
    (is_ip : Chars → ℕ) (nets : List CidrNet) (req : Request) (padding rest : Chars)
    → walk is_ip nets (entries_of rest) exhausted ≢ exhausted
    → client_ip_by_proxy_list is_ip
        (record req { forwarded_for = one (padding ++ b',' ∷ rest) })
        nets
      ≡ client_ip_by_proxy_list is_ip (record req { forwarded_for = one rest }) nets
unfolding client_ip_by_proxy_list header_value
client_ip_by_proxy_list-padding is_ip nets req padding rest n =
    let padded = padded_walk is_ip nets padding rest n in
    let fallback = socket_key is_ip req.remote in
    let same : forwarded_key is_ip nets
          (record req { forwarded_for = one (padding ++ b',' ∷ rest) }) fallback
          (entries_of (padding ++ b',' ∷ rest))
        ≡ forwarded_key is_ip nets (record req { forwarded_for = one rest }) fallback
            (entries_of rest) =
      forwarded-walk is_ip nets (record req { forwarded_for = one (padding ++ b',' ∷ rest) })
        fallback (entries_of (padding ++ b',' ∷ rest)) (λ e. n (sym padded ∙ e))
      ∙ ap (walk_key is_ip fallback) padded
      ∙ sym (
          forwarded-walk is_ip nets (record req { forwarded_for = one rest }) fallback
            (entries_of rest) n) in
    ap (λ k. if is_in_nets is_ip nets (peer_ip is_ip req.remote) then k else (fallback, false)) same
