-- ===== src/Samples/Talk.antt =====
-- Runs of the client: those who speak, and the ICE servers.
use lo_lprox_chat.Common.{
  ℕ, suc, ◌-◌, ◌+◌, ◌≤◌, ◌<◌, ◌++◌, arith, ◌≡◌, ◌↔◌, refl, String, string_eq, true, some, List, [],
  ◌∷◌, In,
}
use lo_lprox_chat.Common.Dict.{Dict, lookup}
use lo_lprox_chat.Speakers.{speaking_hold_ms}
use lo_lprox_chat.Speakers.History.{Sample, listed, AllHear, is_loud_in, listed_iff}
use lo_lprox_chat.Ice.{
  get_ice_servers, get_ice_servers_from, ask_server, on_answer, fetch_ice_servers, at_once,
}
use lo_lprox_chat.Ice.Fresh.{IceEvent, asks, answers, start, run, next, run-serves}

abbrev voices : Dict String ℕ
voices = ("self", 30) ∷ ("Ann#eu", 5) ∷ []

abbrev audible : String → ℕ
audible key = 20

abbrev loud_sample : Sample
loud_sample = record { levels = voices; threshold = audible; now = 1000 }

abbrev quiet_sample : Sample
quiet_sample = record { levels = ("self", 5) ∷ []; threshold = audible; now = 1250 }

listed_iff_example : In "self" (listed quiet_sample (loud_sample ∷ [])) ↔ (
    (since : List Sample) × (loud : Sample) × (before : List Sample) × (quiet_sample ∷ loud_sample
        ∷ []
      ≡ since ++ (loud ∷ before))
    × AllHear "self" since
    × (is_loud_in "self" loud ≡ true)
    × (1250 - loud.now ≤ speaking_hold_ms))
unfolding lookup
listed_iff_example =
    listed_iff quiet_sample (loud_sample ∷ []) "self"
      ((refl, tt), omega arith, ((refl, (refl, tt)), tt, tt))

abbrev ice_events : List IceEvent
ice_events = asks 1 1000 ∷ asks 2 1100 ∷ answers 1200 (some (7 ∷ [])) ∷ []

is_served : (get_ice_servers (run start ice_events).ice 3 2000).1 ≡ at_once (7 ∷ [])
unfolding run next get_ice_servers get_ice_servers_from ask_server on_answer fetch_ice_servers
is_served = refl

run-serves_example :
    ((granted : ℕ) × In (granted, 7 ∷ []) (run start ice_events).grants × (2000 < granted + 60000))
    × ((run start ice_events).started ≤ suc (run start ice_events).ended)
run-serves_example = run-serves ice_events 3 2000 (7 ∷ []) is_served
