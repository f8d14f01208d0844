-- ===== src/Ice.antt =====
-- src/core/config.ts: the ICE servers of a client, with their cache. A list of servers is a list of
-- numbers, times are in milliseconds; a request is cut in two, before and after its answer.
pub mod Fresh
use lo_lprox_chat.Common.{
  ℕ, suc, ◌+◌, Bool, true, false, Option, none, some, List, [], ◌∷◌, ltb, if◌then◌else◌,
}

pub record IceServerCache : Type 0 where
  pub servers : List ℕ
  pub expires_at_ms : ℕ

-- `in_flight` has the callers that share the request under way, by numbers, if there is one.
pub record Ice : Type 0 where
  pub cache : Option IceServerCache
  pub in_flight : Option (List ℕ)

abbrev pub no_ice : Ice
no_ice = record { cache = none; in_flight = none }

-- `ICE_SERVERS`, the list without a relay.
abbrev pub stun_only : List ℕ
stun_only = 0 ∷ []

-- `ICE_CACHE_TTL_MS`.
abbrev pub ice_cache_ttl_ms : ℕ
ice_cache_ttl_ms = 60000

-- What a call of `getIceServers` gets: a list at once, or the answer of a request, which it may be
-- the one to start.
pub data IceReply : Type 0 where
  at_once : List ℕ → IceReply
  shares starts : IceReply

unfoldable pub ask_server : Ice → ℕ → Option (List ℕ) → Ice × IceReply
ask_server s caller (some callers) = (record s { in_flight = some (caller ∷ callers) }, shares)
ask_server s caller none = (record s { in_flight = some (caller ∷ []) }, starts)

unfoldable pub get_ice_servers_from : Ice → ℕ → ℕ → Option IceServerCache → Ice × IceReply
unfolding ask_server
get_ice_servers_from s caller now none = ask_server s caller s.in_flight
get_ice_servers_from s caller now (some c) =
    if ltb now c.expires_at_ms then (s, at_once c.servers) else ask_server s caller s.in_flight

unfoldable pub get_ice_servers : Ice → ℕ → ℕ → Ice × IceReply
unfolding get_ice_servers_from
get_ice_servers s caller now = get_ice_servers_from s caller now s.cache

-- The server's answer: a failure of any kind, or the list in it.
unfoldable pub fetch_ice_servers : Ice → ℕ → Option (List ℕ) → Ice × List ℕ
fetch_ice_servers s now none = (s, stun_only)
fetch_ice_servers s now (some []) = (s, stun_only)
fetch_ice_servers s now (some (server ∷ servers)) = (
  record s {
    cache = some (record { servers = server ∷ servers; expires_at_ms = now + ice_cache_ttl_ms });
  },
  server ∷ servers,
)

abbrev pub callers_of : Option (List ℕ) → List ℕ
callers_of none = []
callers_of (some callers) = callers

-- The request under way is answered: who waits for it, and with what they are answered.
unfoldable pub on_answer : Ice → ℕ → Option (List ℕ) → Ice × List ℕ × List ℕ
unfolding fetch_ice_servers
on_answer s now answer =
    let fetched = fetch_ice_servers s now answer in
    (record fetched.0 { in_flight = none }, callers_of s.in_flight, fetched.1)
