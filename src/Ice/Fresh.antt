-- ===== src/Ice/Fresh.antt =====
-- src/core/config.ts: what the cache of ICE servers may hold, and that nobody is forgotten.
use mathlib.Core.Path.{subst}
use lo_lprox_chat.Common.{
  ℕ, suc, ◌+◌, ◌≤◌, ◌<◌, ◌≡◌, ◌≢◌, inl, inr, refl, Bool, true, false, Option, none, some, List, [],
  ◌∷◌, arith, ltb, In, if_holds, Bool-cases, if◌then◌else◌,
}
use lo_lprox_chat.Ice.{
  Ice, IceServerCache, no_ice, IceReply, at_once, shares, starts, ask_server, get_ice_servers_from,
  get_ice_servers, fetch_ice_servers, on_answer,
}

-- A caller, or an answer of the server to the request under way.
pub data IceEvent : Type 0 where
  asks : (caller now : ℕ) → IceEvent
  answers : (now : ℕ) → Option (List ℕ) → IceEvent

-- What the runs keep: the state, the lists that the server gave, how many requests were started and
-- how many answers came.
pub record Run : Type 0 where
  pub ice : Ice
  pub grants : List (ℕ × List ℕ)
  pub started : ℕ
  pub ended : ℕ

abbrev pub start : Run
start = record { ice = no_ice; grants = []; started = 0; ended = 0 }

abbrev count_start : IceReply → ℕ → ℕ
count_start starts n = suc n
count_start shares n = n
count_start (at_once l) n = n

abbrev grant : ℕ → Option (List ℕ) → List (ℕ × List ℕ) → List (ℕ × List ℕ)
grant now (some (server ∷ servers)) grants = (now, server ∷ servers) ∷ grants
grant now _ grants = grants

-- An answer comes only to a request under way.
abbrev has_request : Option (List ℕ) → Bool
has_request none = false
has_request (some _) = true

unfoldable pub next : Run → IceEvent → Run
next r (asks caller now) =
    let out = get_ice_servers r.ice caller now in
    record r { ice = out.0; started = count_start out.1 r.started }
next r (answers now answer) =
    if has_request r.ice.in_flight
    then record r {
      ice = (on_answer r.ice now answer).0;
      grants = grant now answer r.grants;
      ended = suc r.ended;
    }
    else r

unfoldable pub run : Run → List IceEvent → Run
unfolding next
run r [] = r
run r (e ∷ events) = run (next r e) events

-- A cached list was given by the server less than a minute before it expires, and a request is under
-- way exactly if one more was started than was answered.
abbrev IsCached : List (ℕ × List ℕ) → Option IceServerCache → Type 0
IsCached grants none = Unit
IsCached grants (some c) =
    (granted : ℕ) × In (granted, c.servers) grants × (c.expires_at_ms ≡ granted + 60000)

abbrev IsCounted : Option (List ℕ) → ℕ → ℕ → Type 0
IsCounted none started ended = started ≡ ended
IsCounted (some callers) started ended = started ≡ suc ended

record IsFresh (r : Run) : Type 0 where
  cached : IsCached r.grants r.ice.cache
  counted : IsCounted r.ice.in_flight r.started r.ended

IsCached-more :
    (g : ℕ × List ℕ) (grants : List (ℕ × List ℕ)) (c : Option IceServerCache)
    → IsCached grants c
    → IsCached (g ∷ grants) c
IsCached-more g grants none h = tt
IsCached-more g grants (some c) (t, given, e) = (t, inr given, e)

ask_server-IsFresh :
    (r : Run) (caller : ℕ) (o : Option (List ℕ))
    → IsCached r.grants r.ice.cache
    → IsCounted o r.started r.ended
    → IsFresh (record r {
      ice = (ask_server r.ice caller o).0;
      started = count_start (ask_server r.ice caller o).1 r.started;
    })
unfolding ask_server
ask_server-IsFresh r caller none h k = record { cached = h; counted = ground (arith, k) }
ask_server-IsFresh r caller (some callers) h k = record { cached = h; counted = k }

get_from-IsFresh :
    (r : Run) (caller now : ℕ) (c : Option IceServerCache)
    → IsFresh r
    → IsFresh (record r {
      ice = (get_ice_servers_from r.ice caller now c).0;
      started = count_start (get_ice_servers_from r.ice caller now c).1 r.started;
    })
unfolding get_ice_servers_from
get_from-IsFresh r caller now none h =
    ask_server-IsFresh r caller r.ice.in_flight h.cached h.counted
get_from-IsFresh r caller now (some c) h =
    if_holds
      (λ (out : Ice × IceReply).
        IsFresh (record r { ice = out.0; started = count_start out.1 r.started }))
      (ltb now c.expires_at_ms) (r.ice, at_once c.servers) (ask_server r.ice caller r.ice.in_flight)
      (λ e. record { cached = h.cached; counted = h.counted })
      (λ e. ask_server-IsFresh r caller r.ice.in_flight h.cached h.counted)

answer-IsCached :
    (s : Ice) (grants : List (ℕ × List ℕ)) (now : ℕ) (answer : Option (List ℕ))
    → IsCached grants s.cache
    → IsCached (grant now answer grants) (fetch_ice_servers s now answer).0.cache
unfolding fetch_ice_servers
answer-IsCached s grants now none h = h
answer-IsCached s grants now (some []) h = h
answer-IsCached s grants now (some (server ∷ servers)) h = (now, inl refl, refl)

answer-counted :
    (o : Option (List ℕ)) (started ended : ℕ)
    → has_request o ≡ true
    → IsCounted o started ended
    → started ≡ suc ended
answer-counted none started ended e h = absurd (ground arith)
answer-counted (some callers) started ended e h = h

next-IsFresh : (r : Run) (e : IceEvent) → IsFresh r → IsFresh (next r e)
unfolding next get_ice_servers on_answer
next-IsFresh r (asks caller now) h = get_from-IsFresh r caller now r.ice.cache h
next-IsFresh r (answers now answer) h =
    if_holds IsFresh (has_request r.ice.in_flight) _ r
      (λ e. record {
        cached = answer-IsCached r.ice r.grants now answer h.cached;
        counted = answer-counted r.ice.in_flight r.started r.ended e h.counted;
      })
      (λ e. h)

run-IsFresh : (r : Run) (events : List IceEvent) → IsFresh r → IsFresh (run r events)
unfolding run
run-IsFresh r [] h = h
run-IsFresh r (e ∷ events) h = run-IsFresh (next r e) events (next-IsFresh r e h)

counted-le :
    (o : Option (List ℕ)) (started ended : ℕ) → IsCounted o started ended → started ≤ suc ended
counted-le none started ended h = omega (arith, h)
counted-le (some callers) started ended h = omega (arith, h)

ask-later :
    (s : Ice) (caller : ℕ) (o : Option (List ℕ)) (l : List ℕ)
    → (ask_server s caller o).1 ≢ at_once l
unfolding ask_server
ask-later s caller none l e = ground arith
ask-later s caller (some callers) l e = ground arith

at_once-cached :
    (s : Ice) (grants : List (ℕ × List ℕ)) (caller now : ℕ) (l : List ℕ) (c : Option IceServerCache)
    → IsCached grants c
    → (get_ice_servers_from s caller now c).1 ≡ at_once l
    → (granted : ℕ) × In (granted, l) grants × (now < granted + 60000)
unfolding get_ice_servers_from
at_once-cached s grants caller now l none h e = absurd (ask-later s caller s.in_flight l e)
at_once-cached s grants caller now l (some c) (t, given, until) e =
    elim (Bool-cases (ltb now c.expires_at_ms)) [
      | inl valid ↦
          let same : c.servers ≡ l = ground arith in
          (t, subst (λ k. In (t, k) grants) same given, ground (arith, until, valid))
      | inr late ↦ absurd (ask-later s caller s.in_flight l (rw late at e))
    ]

-- Whatever the order of calls and answers: a list that is served at once is one that the server
-- itself gave less than a minute before, and no fallback; and no second request is under way.
pub run-serves :
    (events : List IceEvent) (caller now : ℕ) (l : List ℕ)
    → (get_ice_servers (run start events).ice caller now).1 ≡ at_once l
    → ((granted : ℕ) × In (granted, l) (run start events).grants × (now < granted + 60000))
      × ((run start events).started ≤ suc (run start events).ended)
unfolding get_ice_servers
run-serves events caller now l e =
    let r : Run = run start events in
    let h = run-IsFresh start events (record { cached = tt; counted = refl }) in
    (
      at_once-cached r.ice r.grants caller now l r.ice.cache h.cached e,
      counted-le r.ice.in_flight r.started r.ended h.counted,
    )
