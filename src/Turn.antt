-- ===== src/Turn.antt =====
-- server/src/turn.ts: credentials for TURN servers. The provider's answers are inputs, of any type; the
-- signature of a self-hosted server (HMAC and base64) is a parameter.
pub mod Age
use lo_lprox_chat.Common.{
  ℕ, zero, suc, ◌+◌, ◌*◌, ◌/◌, ◌%◌, Bool, true, false, ◌||◌, Option, none, some, List, [], ◌∷◌,
  ◌++◌, ltb, nat_eq, if◌then◌else◌,
}
use lo_lprox_chat.Common.Dict.{Dict, lookup, insert, erase}
use lo_lprox_chat.Text.{codes}
use lo_lprox_chat.Address.Chars.{Chars, is_empty}

pub record IceServer : Type 0 where
  pub urls : Chars
  pub username : Option Chars
  pub credential : Option Chars

-- A number in decimal digits, as many as fuel allows; ten and more do for times in seconds.
unfoldable pub decimal_on : ℕ → ℕ → Chars
decimal_on zero n = []
decimal_on (suc fuel) n =
    let high = decimal_on fuel (n / 10) in
    if ltb n 10 then (0x30 + n) ∷ [] else high ++ (0x30 + n % 10) ∷ []

abbrev pub plain_server : Chars → IceServer
plain_server urls = record { urls = urls; username = none; credential = none }

-- `generateTurnCredentials`, at the time `now` in milliseconds.
unfoldable pub generate_turn_credentials :
    (Chars → Chars → Chars) → Chars → Chars → ℕ → List IceServer
unfolding decimal_on
generate_turn_credentials sign turn_server turn_secret now =
    if is_empty turn_server || is_empty turn_secret
    then []
    else let username = decimal_on 20 (now / 1000 + 24 * 3600) ++ codes ":proxchat" in
      let credential = sign turn_secret username in
      plain_server (codes "stun:stun.l.google.com:19302")
      ∷ plain_server (codes "stun:" ++ turn_server ++ codes ":3478")
      ∷ (record {
        urls = codes "turn:" ++ turn_server ++ codes ":3478";
        username = some username;
        credential = some credential;
      })
      ∷ (record {
        urls = codes "turns:" ++ turn_server ++ codes ":5349";
        username = some username;
        credential = some credential;
      })
      ∷ []

-- `TURN_REQUEST_TTL_SEC` in milliseconds, `CACHE_REFRESH_LEAD_MS` and `CACHE_STALE_GRACE_MS`.
abbrev pub turn_request_ttl_ms : ℕ
turn_request_ttl_ms = 24 * 3600 * 1000

abbrev pub cache_refresh_lead_ms : ℕ
cache_refresh_lead_ms = 5 * 60 * 1000

abbrev pub cache_stale_grace_ms : ℕ
cache_stale_grace_ms = 60 * 60 * 1000

-- What a request to the provider comes to: a list of servers, or a failure, be it of the network, a
-- status or a body without the list.
pub data Fetched (A : Type 0) : Type 0 where
  got : List A → Fetched A
  failed : Fetched A

pub record Cached (A : Type 0) : Type 0 where
  pub ice_servers : List A
  pub expires_at_ms : ℕ

-- A request is answered at once, or waits for the provider with what was cached when it came.
pub data Begun (A : Type 0) : Type 0 where
  answered : List A → Begun A
  waits : Option (Cached A) → Begun A

module _ {A : Type 0} where
  unfoldable pub begin_cached : ℕ → Option (Cached A) → Begun A
  begin_cached now none = waits none
  begin_cached now (some c) =
      if ltb (now + cache_refresh_lead_ms) c.expires_at_ms
      then answered c.ice_servers
      else waits (some c)

  -- `generateCloudflareIceServers` up to its request.
  unfoldable pub begin_request : Chars → Chars → ℕ → Option (Cached A) → Begun A
  unfolding begin_cached
  begin_request key_id api_token now cache =
      if is_empty key_id || is_empty api_token then answered [] else begin_cached now cache

  abbrev pub serve_stale : ℕ → Option (Cached A) → List A
  serve_stale now none = []
  serve_stale now (some c) =
      if ltb now (c.expires_at_ms + cache_stale_grace_ms) then c.ice_servers else []

  -- The rest: the cache after it, and the answer. `current` is the cache as others have left it.
  unfoldable pub finish_request :
      ℕ → Fetched A → Option (Cached A) → Option (Cached A) → Option (Cached A) × List A
  finish_request now (got servers) seen current =
      (some (record { ice_servers = servers; expires_at_ms = now + turn_request_ttl_ms }), servers)
  finish_request now failed seen current = (current, serve_stale now seen)
