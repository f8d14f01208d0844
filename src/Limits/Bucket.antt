-- ===== src/Limits/Bucket.antt =====
-- `TokenBucket` and `LIMITS` of server/src/rate-limit.ts. Tokens are counted in thousandths: with
-- times in whole milliseconds and whole rates, `elapsedSec * refillPerSec` is a whole number of
-- them. Rounding of JavaScript numbers is not modelled.
pub mod Rate
pub mod Prune
use lo_lprox_chat.Common.{
  ℕ, suc, ◌+◌, ◌-◌, ◌*◌, String, Bool, true, false, Option, none, some, List, [], ◌∷◌, min, ltb,
  leb, if◌then◌else◌, Eq, Eq,
}
use lo_lprox_chat.Common.Dict.{Dict, lookup, insert}

pub record Config : Type 0 where
  pub capacity : ℕ
  pub refill_per_sec : ℕ

pub record Bucket : Type 0 where
  pub tokens : ℕ
  pub last_refill_ms : ℕ

abbrev pub one_token : ℕ
one_token = 1000

abbrev pub full : Config → ℕ
full cfg = cfg.capacity * one_token

abbrev pub turn_creds : Config
turn_creds = record { capacity = 60; refill_per_sec = 1 }

abbrev pub compute_volumes_per_player : Config
compute_volumes_per_player = record { capacity = 180; refill_per_sec = 90 }

abbrev pub compute_volumes_per_ip : Config
compute_volumes_per_ip = record { capacity = 800; refill_per_sec = 400 }

abbrev pub ws_messages : Config
ws_messages = record { capacity = 200; refill_per_sec = 100 }

-- The bucket of a key, made full on its first visit.
unfoldable pub bucket_of : Config → ℕ → Option Bucket → Bucket
bucket_of cfg now none = record { tokens = full cfg; last_refill_ms = now }
bucket_of cfg now (some b) = b

unfoldable pub refill : Config → ℕ → Bucket → Bucket
refill cfg now b =
    if ltb b.last_refill_ms now
    then record {
      tokens = min (full cfg) (b.tokens + (now - b.last_refill_ms) * cfg.refill_per_sec);
      last_refill_ms = now;
    }
    else b

unfoldable pub take_token : Bucket → Bucket × Bool
take_token b =
    if leb one_token b.tokens
    then (record b { tokens = b.tokens - one_token }, true)
    else (b, false)

-- One visit to the bucket of a key.
unfoldable pub visit : Config → ℕ → Option Bucket → Bucket × Bool
unfolding bucket_of refill take_token
visit cfg now b = take_token (refill cfg now (bucket_of cfg now b))

unfoldable pub try_consume :
    {K : Type 0} ⦃e : Eq K⦄ → Config → Dict K Bucket → K → ℕ → Dict K Bucket × Bool
unfolding visit
try_consume cfg buckets key now =
    let out = visit cfg now (lookup key buckets) in (insert key out.0 buckets, out.1)

unfoldable pub is_idle : ℕ → ℕ → Bucket → Bool
is_idle idle_ms now b = ltb (b.last_refill_ms + idle_ms) now

-- The buckets that stay, and how many were dropped.
unfoldable pub prune_idle : ℕ → ℕ → Dict String Bucket → Dict String Bucket × ℕ
unfolding is_idle
prune_idle idle_ms now [] = ([], 0)
prune_idle idle_ms now ((k, b) ∷ m) =
    let rest = prune_idle idle_ms now m in
    if is_idle idle_ms now b then (rest.0, suc rest.1) else ((k, b) ∷ rest.0, rest.1)
