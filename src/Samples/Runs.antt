-- ===== src/Samples/Runs.antt =====
-- Runs of the server, where a player connects and joins, and of the credentials.
use lo_lprox_chat.Common.{◌≡◌, refl, List, [], ◌∷◌, ℕ}
use lo_lprox_chat.Common.Dict.{lookup, insert}
use lo_lprox_chat.Messages.{object}
use lo_lprox_chat.Server.{Server, new_server, connected, received, step}
use lo_lprox_chat.Server.Reachable.{IsSound, Reachable, start, next, Reachable-IsSound}
use lo_lprox_chat.Text.{codes}
use lo_lprox_chat.Turn.{got, begin_request, begin_cached, finish_request}
use lo_lprox_chat.Turn.Age.{Event, asks, hears, serve, run, no_service, IsCurrent, serve-IsCurrent}
use lo_lprox_chat.Samples.Sessions.{all_open, joining}

abbrev one_connected : Server
one_connected = (step all_open new_server (connected 1 "10.0.0.1")).0

abbrev one_joined : Server
one_joined = (step all_open one_connected (received 1 1000 (object (joining "ann#eu")))).0

one_joined-Reachable : Reachable one_joined
unfolding lookup
one_joined-Reachable =
    next all_open one_connected (received 1 1000 (object (joining "ann#eu")))
      (next all_open new_server (connected 1 "10.0.0.1") start refl) tt

Reachable-IsSound_example : IsSound one_joined
Reachable-IsSound_example = Reachable-IsSound one_joined one_joined-Reachable

abbrev turn_servers : List ℕ
turn_servers = 7 ∷ 8 ∷ []

-- The provider answers the first request; the second is served from the cache.
abbrev turn_events : List (Event ℕ)
turn_events = asks 1 (codes "key") (codes "token") 1000 ∷ hears 1 1200 (got turn_servers) ∷ []

served_from_cache :
    (serve (run no_service turn_events) (asks 2 (codes "key") (codes "token") 5000)).1
    ≡ turn_servers
unfolding serve run begin_request begin_cached finish_request lookup insert
served_from_cache = refl

serve-IsCurrent_example :
    let out = serve (run no_service turn_events) (asks 2 (codes "key") (codes "token") 5000) in
    IsCurrent out.0.grants 5000 out.1
serve-IsCurrent_example = serve-IsCurrent turn_events (asks 2 (codes "key") (codes "token") 5000)
