-- ===== src/Limits/Bucket/Prune.antt =====
-- Dropping idle buckets (`pruneIdle` of server/src/rate-limit.ts) changes no later decision.
use lo_lprox_chat.Common.{
  ℕ, ◌+◌, ◌-◌, ◌*◌, ◌≤◌, String, ◌≡◌, refl, ap, sym, ◌∙◌, true, Option, none, some, [], ◌∷◌, arith,
  if◌then◌else◌, string_eq, Bool-cases, inl, inr,
}
use text.Mathlib.TextEquality.{eq_iff}
use lo_lprox_chat.Common.Dict.{Dict, lookup, size, HasKeysApart}
use lo_lprox_chat.Limits.Bucket.{
  Config, Bucket, full, bucket_of, refill, visit, take_token, is_idle, prune_idle,
}
use lo_lprox_chat.Limits.Bucket.Rate.{AreWithin, IsWithin}

abbrev kept : ℕ → ℕ → Option Bucket → Option Bucket
kept idle_ms now none = none
kept idle_ms now (some b) = if is_idle idle_ms now b then none else some b

-- A key's bucket is dropped exactly if it is idle.
pub lookup-prune_idle :
    (idle_ms now : ℕ) (m : Dict String Bucket) (key : String)
    → HasKeysApart m
    → lookup key (prune_idle idle_ms now m).0 ≡ kept idle_ms now (lookup key m)
unfolding lookup prune_idle
lookup-prune_idle idle_ms now [] key h = refl
lookup-prune_idle idle_ms now ((k, b) ∷ m) key h =
    ground (arith, h, eq_iff k key, lookup-prune_idle idle_ms now m key h.1)

pub size-prune_idle :
    (idle_ms now : ℕ) (m : Dict String Bucket)
    → size (prune_idle idle_ms now m).0 + (prune_idle idle_ms now m).1 ≡ size m
unfolding size prune_idle
size-prune_idle idle_ms now [] = omega arith
size-prune_idle idle_ms now ((k, b) ∷ m) = ground (arith, size-prune_idle idle_ms now m)

mul_mono : (a b r : ℕ) → a ≤ b → a * r ≤ b * r
mul_mono a b r h = grind arith

refilled :
    (cfg : Config) (idle_ms now later : ℕ) (b : Bucket)
    → full cfg ≤ idle_ms * cfg.refill_per_sec
    → is_idle idle_ms now b ≡ true
    → now ≤ later
    → b.tokens ≤ full cfg
    → refill cfg later b ≡ refill cfg later (bucket_of cfg later none)
unfolding refill bucket_of is_idle
refilled cfg idle_ms now later b h idle k w =
    ground (arith, mul_mono idle_ms (later - b.last_refill_ms) cfg.refill_per_sec)

visit-kept :
    (cfg : Config) (idle_ms now later : ℕ) (o : Option Bucket)
    → full cfg ≤ idle_ms * cfg.refill_per_sec
    → now ≤ later
    → IsWithin cfg o
    → visit cfg later (kept idle_ms now o) ≡ visit cfg later o
unfolding visit
visit-kept cfg idle_ms now later none h k w = refl
visit-kept cfg idle_ms now later (some b) h k w = elim (Bool-cases (is_idle idle_ms now b)) [
  | inl idle ↦ rw idle (ap take_token (sym (refilled cfg idle_ms now later b h idle k w)))
  | inr busy ↦ rw busy
]

-- If the idle time refills a bucket whole, then a visit after the pruning decides as it would have
-- decided without it, and leaves the same bucket.
pub visit-prune_idle :
    (cfg : Config) (idle_ms now later : ℕ) (m : Dict String Bucket) (key : String)
    → full cfg ≤ idle_ms * cfg.refill_per_sec
    → now ≤ later
    → HasKeysApart m
    → AreWithin cfg m
    → visit cfg later (lookup key (prune_idle idle_ms now m).0) ≡ visit cfg later (lookup key m)
unfolding visit
visit-prune_idle cfg idle_ms now later m key h k apart w =
    ap (visit cfg later) (lookup-prune_idle idle_ms now m key apart)
    ∙ visit-kept cfg idle_ms now later (lookup key m) h k (w key)
