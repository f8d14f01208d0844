-- ===== src/Turn/Age.antt =====
-- How old the credentials are that server/src/turn.ts hands out.
use lo_lprox_chat.Common.{
  ℕ, ◌+◌, ◌<◌, ◌≡◌, refl, ◌⊎◌, inl, inr, Option, none, some, List, [], ◌∷◌, arith, In, nat_eq, ltb,
  ltb→lt, Bool-cases, ◌==◌, ◌||◌, if_holds,
}
use lo_lprox_chat.Common.Dict.{Dict, lookup, insert, erase, lookup-insert, lookup-erase}
use lo_lprox_chat.Address.Chars.{Chars, is_empty}
use lo_lprox_chat.Turn.{
  Fetched, got, failed, Cached, Begun, answered, waits, begin_cached, begin_request, serve_stale,
  finish_request, turn_request_ttl_ms, cache_refresh_lead_ms, cache_stale_grace_ms,
}

-- One list that the provider gave, and when.
pub record Grant (A : Type 0) : Type 0 where
  pub at_ms : ℕ
  pub servers : List A

-- The cache, the requests that wait, each with what it saw cached, and all that was ever granted.
pub record Service (A : Type 0) : Type 0 where
  pub cache : Option (Cached A)
  pub waiting : Dict ℕ (Option (Cached A))
  pub grants : List (Grant A)

-- A request comes, or the provider answers one.
pub data Event (A : Type 0) : Type 0 where
  asks : (request : ℕ) → (key_id api_token : Chars) → (now : ℕ) → Event A
  hears : (request now : ℕ) → Fetched A → Event A

module _ {A : Type 0} where
  abbrev pub time_of : Event A → ℕ
  time_of (asks r key_id api_token now) = now
  time_of (hears r now f) = now

  abbrev pub no_service : Service A
  no_service = record { cache = none; waiting = []; grants = [] }

  abbrev on_begun : Service A → ℕ → Begun A → Service A × List A
  on_begun s r (answered servers) = (s, servers)
  on_begun s r (waits seen) = (record s { waiting = insert r seen s.waiting }, [])

  abbrev note : ℕ → Fetched A → List (Grant A) → List (Grant A)
  note now (got servers) grants = record { at_ms = now; servers = servers } ∷ grants
  note now failed grants = grants

  abbrev on_fetched :
      Service A → ℕ → ℕ → Fetched A → Option (Option (Cached A)) → Service A × List A
  on_fetched s r now f none = (s, [])
  on_fetched s r now f (some seen) =
      let out = finish_request now f seen s.cache in
      (record { cache = out.0; waiting = erase r s.waiting; grants = note now f s.grants }, out.1)

  -- What an event leaves, and the list that is sent, if one is.
  unfoldable pub serve : Service A → Event A → Service A × List A
  unfolding begin_request finish_request
  serve s (asks r key_id api_token now) = on_begun s r (begin_request key_id api_token now s.cache)
  serve s (hears r now f) = on_fetched s r now f (lookup r s.waiting)

  unfoldable pub run : Service A → List (Event A) → Service A
  unfolding serve
  run s [] = s
  run s (e ∷ es) = run (serve s e).0 es

  -- What is cached was granted, and its lifetime counts from then.
  abbrev IsGranted : List (Grant A) → Option (Cached A) → Type 0
  IsGranted grants none = Unit
  IsGranted grants (some c) =
      (g : Grant A) × In g grants
      × (g.servers ≡ c.ice_servers)
      × (c.expires_at_ms ≡ g.at_ms + turn_request_ttl_ms)

  record IsValid (s : Service A) : Type 0 where
    pub cached : IsGranted s.grants s.cache
    pub seen : (r : ℕ) (o : Option (Cached A)) → lookup r s.waiting ≡ some o → IsGranted s.grants o

  -- Nothing, or a list that was granted less than 25 hours before.
  abbrev pub IsCurrent : List (Grant A) → ℕ → List A → Type 0
  IsCurrent grants now servers =
      (servers ≡ [])
      ⊎ ((g : Grant A) × In g grants × (g.servers ≡ servers) × (now < g.at_ms + 90000000))

  serve_stale-IsCurrent :
      (grants : List (Grant A)) (now : ℕ) (o : Option (Cached A))
      → IsGranted grants o
      → IsCurrent grants now (serve_stale now o)
  serve_stale-IsCurrent grants now none h = inl refl
  serve_stale-IsCurrent grants now (some c) (g, m, same, e) =
      elim (Bool-cases (ltb now (c.expires_at_ms + cache_stale_grace_ms))) [
        | inl soon ↦ rw soon (
            inr (
              g,
              m,
              same,
              omega (arith, e, ltb→lt now (c.expires_at_ms + cache_stale_grace_ms) soon),
            ))
        | inr late ↦ rw late (inl refl)
      ]

  -- What a request comes to at once.
  abbrev IsFine : List (Grant A) → ℕ → Begun A → Type 0
  IsFine grants now (answered servers) = IsCurrent grants now servers
  IsFine grants now (waits seen) = IsGranted grants seen

  begin_cached-IsFine :
      (grants : List (Grant A)) (now : ℕ) (o : Option (Cached A))
      → IsGranted grants o
      → IsFine grants now (begin_cached now o)
  unfolding begin_cached
  begin_cached-IsFine grants now none h = tt
  begin_cached-IsFine grants now (some c) (g, m, same, e) =
      if_holds (IsFine grants now) (ltb (now + cache_refresh_lead_ms) c.expires_at_ms) _ _
        (λ fresh. inr (
          g,
          m,
          same,
          omega (arith, e, ltb→lt (now + cache_refresh_lead_ms) c.expires_at_ms fresh),
        ))
        (λ _. (g, m, same, e))

  begin_request-IsFine :
      (grants : List (Grant A)) (key_id api_token : Chars) (now : ℕ) (o : Option (Cached A))
      → IsGranted grants o
      → IsFine grants now (begin_request key_id api_token now o)
  unfolding begin_request
  begin_request-IsFine grants key_id api_token now o h =
      if_holds (IsFine grants now) (is_empty key_id || is_empty api_token) (answered [])
        (begin_cached now o) (λ _. inl refl) (λ _. begin_cached-IsFine grants now o h)

  IsGranted-note :
      (now : ℕ) (f : Fetched A) (grants : List (Grant A)) (o : Option (Cached A))
      → IsGranted grants o
      → IsGranted (note now f grants) o
  IsGranted-note now (got servers) grants none h = tt
  IsGranted-note now (got servers) grants (some c) (g, m, same, e) = (g, inr m, same, e)
  IsGranted-note now failed grants o h = h

  -- Both of what an event does: the service stays valid, and what is sent is current.
  abbrev IsServed : ℕ → Service A × List A → Type 0
  IsServed now out = IsValid out.0 × IsCurrent out.0.grants now out.1

  on_begun-IsServed :
      (s : Service A) (r now : ℕ) (b : Begun A)
      → IsValid s
      → IsFine s.grants now b
      → IsServed now (on_begun s r b)
  on_begun-IsServed s r now (answered servers) v h = (v, h)
  on_begun-IsServed s r now (waits o) v h = (
    record {
      cached = v.cached;
      seen = λ q p e. elim (Bool-cases (r == q)) [
        | inl same ↦
            let eq : o ≡ p = ground (arith, lookup-insert r q o s.waiting, same) in rw eq at h
        | inr other ↦ v.seen q p (ground (arith, lookup-insert r q o s.waiting, other))
      ];
    },
    inl refl,
  )

  finish-IsCurrent :
      (grants : List (Grant A)) (now : ℕ) (f : Fetched A) (seen current : Option (Cached A))
      → IsGranted grants seen
      → IsGranted grants current
      → IsGranted (note now f grants) (finish_request now f seen current).0
        × IsCurrent (note now f grants) now (finish_request now f seen current).1
  unfolding finish_request
  finish-IsCurrent grants now (got servers) seen current h k = (
    (record { at_ms = now; servers = servers }, inl refl, refl, refl),
    inr (record { at_ms = now; servers = servers }, inl refl, refl, omega arith),
  )
  finish-IsCurrent grants now failed seen current h k = (k, serve_stale-IsCurrent grants now seen h)

  on_fetched-IsServed :
      (s : Service A) (r now : ℕ) (f : Fetched A) (o : Option (Option (Cached A)))
      → lookup r s.waiting ≡ o
      → IsValid s
      → IsServed now (on_fetched s r now f o)
  on_fetched-IsServed s r now f none q v = (v, inl refl)
  on_fetched-IsServed s r now f (some seen) q v =
      let (cached, current) =
        finish-IsCurrent s.grants now f seen s.cache (v.seen r seen q) v.cached in
      (
        record {
          cached = cached;
          seen = λ p o e.
              IsGranted-note now f s.grants o
                (v.seen p o (ground (arith, lookup-erase r p s.waiting, e)));
        },
        current,
      )

  serve-IsServed : (s : Service A) (e : Event A) → IsValid s → IsServed (time_of e) (serve s e)
  unfolding serve
  serve-IsServed s (asks r key_id api_token now) v =
      on_begun-IsServed s r now (begin_request key_id api_token now s.cache) v
        (begin_request-IsFine s.grants key_id api_token now s.cache v.cached)
  serve-IsServed s (hears r now f) v = on_fetched-IsServed s r now f (lookup r s.waiting) refl v

  run-IsValid : (s : Service A) (es : List (Event A)) → IsValid s → IsValid (run s es)
  unfolding run
  run-IsValid s [] v = v
  run-IsValid s (e ∷ es) v = run-IsValid (serve s e).0 es (serve-IsServed s e v).0

  no_service-IsValid : IsValid no_service
  unfolding lookup
  no_service-IsValid = record { cached = tt; seen = λ r o e. cc }

-- However requests and the provider's answers are interleaved, whatever is sent is empty, or a list
-- that the provider granted less than 25 hours before.
pub serve-IsCurrent :
    {A : Type 0} (es : List (Event A)) (e : Event A)
    → let out = serve (run no_service es) e in IsCurrent out.0.grants (time_of e) out.1
serve-IsCurrent es e =
    (serve-IsServed (run no_service es) e (run-IsValid no_service es no_service-IsValid)).1
