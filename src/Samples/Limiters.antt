-- ===== src/Samples/Limiters.antt =====
-- Runs of the limiters, the heartbeat and the validation.
use lo_lprox_chat.Common.{
  ℕ, ◌+◌, ◌*◌, ◌-◌, ◌≤◌, String, ◌≡◌, ◌≢◌, refl, true, false, not, none, List, [], ◌∷◌, arith, ◌↔◌,
  nat_eq, string_eq, ◌==◌, if_holds,
}
use lo_lprox_chat.Common.Dict.{Dict, lookup}
use lo_lprox_chat.Json.{str}
use lo_lprox_chat.Validate.{validate_join, valid}
use lo_lprox_chat.Validate.Laws.{IsRoomId, IsPlayerName, validate_join_iff}
use lo_lprox_chat.Limits.Bucket.{Bucket, ws_messages, turn_creds, one_token, visit, prune_idle}
use lo_lprox_chat.Limits.Bucket.Rate.{IsWithin, Request, granted, granted-le}
use lo_lprox_chat.Limits.Bucket.Prune.{visit-prune_idle}
use lo_lprox_chat.Limits.Rejections.{
  RejectReason, Counters, xff_invalid, ws_per_ip, total, reason_eq,
}
use lo_lprox_chat.Heartbeat.{Alive, sweep}
use lo_lprox_chat.Heartbeat.Liveness.{contains, shows_life, happen, silent_reaped}

abbrev burst : List Request
burst = record { key = "self"; now = 50 } ∷ record { key = "self"; now = 60 } ∷ []

granted-le_example :
    granted ws_messages "self" [] burst * one_token ≤ 200 * one_token + (60 - 50) * 100
unfolding lookup
granted-le_example = granted-le ws_messages "self" 50 60 [] burst (λ key. tt) (omega arith)

abbrev two_buckets : Dict String Bucket
two_buckets =
    ("10.0.0.1", record { tokens = 500; last_refill_ms = 0 })
    ∷ ("10.0.0.2", record { tokens = 60000; last_refill_ms = 600000 })
    ∷ []

two_buckets-AreWithin : (key : String) → IsWithin turn_creds (lookup key two_buckets)
unfolding lookup
two_buckets-AreWithin key =
    if_holds (IsWithin turn_creds) ("10.0.0.1" == key) _ _ (λ e. omega arith)
      (λ e. if_holds (IsWithin turn_creds) ("10.0.0.2" == key) _ _ (λ e. omega arith) (λ e. tt))

visit-prune_idle_example :
    visit turn_creds 700000 (lookup "10.0.0.1" (prune_idle 600000 660000 two_buckets).0)
    ≡ visit turn_creds 700000 (lookup "10.0.0.1" two_buckets)
unfolding lookup
visit-prune_idle_example =
    visit-prune_idle turn_creds 600000 660000 700000 two_buckets "10.0.0.1" (omega arith)
      (omega arith) (refl, (refl, tt)) two_buckets-AreWithin

abbrev some_counts : Counters
some_counts = record {
  totals = (xff_invalid, 3) ∷ (ws_per_ip, 1) ∷ [];
  reported = (xff_invalid, 2) ∷ [];
}

some_counts-le : (r : RejectReason) → total some_counts.reported r ≤ total some_counts.totals r
unfolding lookup
some_counts-le xff_invalid = omega arith
some_counts-le ws_per_ip = omega arith
some_counts-le _ = omega arith

abbrev two_sockets : Alive
two_sockets = (1, true) ∷ (2, false) ∷ []

two_apart : ◌≢◌ {A = ℕ} 2 1
two_apart = omega arith

silent_reaped_example :
    let first = sweep two_sockets (1 ∷ 2 ∷ []) in
    let second = sweep (happen first.alive (shows_life 2 ∷ [])) (1 ∷ []) in
    (contains 1 second.terminated ≡ not (contains 1 first.terminated))
    × (lookup 1 second.alive ≡ none)
unfolding lookup
silent_reaped_example =
    silent_reaped two_sockets (shows_life 2 ∷ []) (1 ∷ 2 ∷ []) (1 ∷ []) 1
      ((two_apart, tt), (tt, tt)) (tt, tt) refl refl (omega arith, tt) (λ e. cc)

validate_join_iff_example : (validate_join (str "k3x9") (str "ann#eu") ≡ valid "k3x9" "ann#eu") ↔ (
    (str "k3x9" ≡ str "k3x9")
    × (str "ann#eu" ≡ str "ann#eu")
    × IsRoomId "k3x9"
    × IsPlayerName "ann#eu")
validate_join_iff_example = validate_join_iff (str "k3x9") (str "ann#eu") "k3x9" "ann#eu"
