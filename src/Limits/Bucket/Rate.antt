-- ===== src/Limits/Bucket/Rate.antt =====
-- How many requests a token bucket of server/src/rate-limit.ts grants.
use lo_lprox_chat.Common.{
  ℕ, ◌+◌, ◌-◌, ◌*◌, ◌≤◌, ◌<◌, String, ◌≡◌, refl, ap, Bool, true, false, Option, none, some, List,
  [], ◌∷◌, arith, if◌then◌else◌, ◌==◌, string_eq, max, min, sym, ◌∙◌, Bool-cases, inl, inr,
}
use text.Mathlib.TextEquality.{eq_iff}
use lo_lprox_chat.Common.Dict.{Dict, lookup, lookup-insert}
use lo_lprox_chat.Limits.Bucket.{
  Config, Bucket, full, one_token, bucket_of, refill, take_token, visit, try_consume,
}

-- A bucket never holds more than its capacity.
abbrev pub IsWithin : Config → Option Bucket → Type 0
IsWithin cfg none = Unit {0}
IsWithin cfg (some b) = b.tokens ≤ full cfg

-- A grant costs a token; what a visit adds is paid by the time since the last refill.
abbrev pub spent : Bool → ℕ
spent true = one_token
spent false = 0

pub refill-IsWithin :
    (cfg : Config) (now : ℕ) (b : Bucket)
    → b.tokens ≤ full cfg
    → (refill cfg now b).tokens ≤ full cfg
unfolding refill
refill-IsWithin cfg now b h = ground arith

elapsed_mul : (a d r : ℕ) → (a + d) * r ≡ a * r + d * r
elapsed_mul a d r = omega arith

refill_gain : (last now r : ℕ) → last < now → (now - last) * r + last * r ≡ now * r
refill_gain last now r h =
    let d = now - last in
    let e : now ≡ last + d = omega arith in
    omega (arith, elapsed_mul last d r, ap (λ (t : ℕ). t * r) e)

refill_paid :
    (cfg : Config) (now : ℕ) (b : Bucket)
    → ((refill cfg now b).tokens + b.last_refill_ms * cfg.refill_per_sec
        ≤ b.tokens + (refill cfg now b).last_refill_ms * cfg.refill_per_sec)
      × (b.last_refill_ms ≤ (refill cfg now b).last_refill_ms)
      × ((refill cfg now b).last_refill_ms ≤ max b.last_refill_ms now)
unfolding refill
refill_paid cfg now b = ground (arith, refill_gain b.last_refill_ms now cfg.refill_per_sec)

take_token_paid :
    (b : Bucket)
    → ((take_token b).0.tokens + spent (take_token b).1 ≡ b.tokens)
      × ((take_token b).0.last_refill_ms ≡ b.last_refill_ms)
unfolding take_token
take_token_paid b = ground arith

-- What a key may still be granted, in thousandths of a request, by visits from `start` to `stop`.
abbrev potential : Config → ℕ → ℕ → Option Bucket → ℕ
potential cfg start stop none = full cfg + (stop - start) * cfg.refill_per_sec
potential cfg start stop (some b) =
    min (full cfg + (stop - start) * cfg.refill_per_sec)
      (b.tokens + (stop - b.last_refill_ms) * cfg.refill_per_sec)

later_le : (a b stop r : ℕ) → a ≤ b → (stop - b) * r ≤ (stop - a) * r
later_le a b stop r h = grind arith

refill_split :
    (last now stop r : ℕ)
    → last ≤ now
    → now ≤ stop
    → (now - last) * r + (stop - now) * r ≡ (stop - last) * r
refill_split last now stop r h k =
    let e : stop - last ≡ (now - last) + (stop - now) = omega arith in
    sym (ap (λ (t : ℕ). t * r) e ∙ elapsed_mul (now - last) (stop - now) r)

refill-potential :
    (cfg : Config) (start stop now : ℕ) (b : Bucket)
    → start ≤ now
    → now ≤ stop
    → b.tokens ≤ full cfg
    → (refill cfg now b).tokens + (stop - (refill cfg now b).last_refill_ms) * cfg.refill_per_sec
      ≤ potential cfg start stop (some b)
unfolding refill
refill-potential cfg start stop now b h k w = ground (
  arith,
  refill_split b.last_refill_ms now stop cfg.refill_per_sec,
  later_le start now stop cfg.refill_per_sec h,
  later_le start b.last_refill_ms stop cfg.refill_per_sec,
)

bucket_of-potential :
    (cfg : Config) (start stop now : ℕ) (o : Option Bucket)
    → start ≤ now
    → now ≤ stop
    → potential cfg start stop (some (bucket_of cfg now o)) ≤ potential cfg start stop o
unfolding bucket_of
bucket_of-potential cfg start stop now none h k =
    omega (arith, later_le start now stop cfg.refill_per_sec h)
bucket_of-potential cfg start stop now (some b) h k = omega arith

bucket_of-IsWithin :
    (cfg : Config) (now : ℕ) (o : Option Bucket)
    → IsWithin cfg o
    → (bucket_of cfg now o).tokens ≤ full cfg
unfolding bucket_of
bucket_of-IsWithin cfg now none w = omega arith
bucket_of-IsWithin cfg now (some b) w = w

pub visit-IsWithin :
    (cfg : Config) (now : ℕ) (o : Option Bucket)
    → IsWithin cfg o
    → IsWithin cfg (some (visit cfg now o).0)
unfolding visit
visit-IsWithin cfg now o w = omega (
  arith,
  (take_token_paid (refill cfg now (bucket_of cfg now o))).0,
  refill-IsWithin cfg now (bucket_of cfg now o) (bucket_of-IsWithin cfg now o w),
)

visit-potential :
    (cfg : Config) (start stop now : ℕ) (o : Option Bucket)
    → start ≤ now
    → now ≤ stop
    → IsWithin cfg o
    → spent (visit cfg now o).1 + potential cfg start stop (some (visit cfg now o).0)
      ≤ potential cfg start stop o
unfolding visit
visit-potential cfg start stop now o h k w =
    let b = bucket_of cfg now o in
    let paid = take_token_paid (refill cfg now b) in
    omega (
      arith,
      paid.0,
      ap (λ (t : ℕ). (stop - t) * cfg.refill_per_sec) paid.1,
      refill-potential cfg start stop now b h k (bucket_of-IsWithin cfg now o w),
      bucket_of-potential cfg start stop now o h k,
    )

pub record Request : Type 0 where
  pub key : String
  pub now : ℕ

abbrev granted_one : Bool → ℕ
granted_one true = 1
granted_one false = 0

-- The requests of `key` that are granted in a sequence of requests with any keys.
abbrev pub granted : Config → String → Dict String Bucket → List Request → ℕ
granted cfg key buckets [] = 0
granted cfg key buckets (r ∷ rs) =
    let out = try_consume cfg buckets r.key r.now in
    (if r.key == key then granted_one out.1 else 0) + granted cfg key out.0 rs

abbrev pub AreBetween : ℕ → ℕ → List Request → Type 0
AreBetween start stop [] = Unit
AreBetween start stop (r ∷ rs) = (start ≤ r.now) × (r.now ≤ stop) × AreBetween start stop rs

abbrev pub AreWithin : Config → Dict String Bucket → Type 0
AreWithin cfg buckets = (key : String) → IsWithin cfg (lookup key buckets)

-- Every visit keeps each bucket within its capacity.
pub try_consume-AreWithin :
    (cfg : Config) (buckets : Dict String Bucket) (key : String) (now : ℕ)
    → AreWithin cfg buckets
    → AreWithin cfg (try_consume cfg buckets key now).0
unfolding try_consume
try_consume-AreWithin cfg buckets key now w other = elim (Bool-cases (key == other)) [
  | inl e ↦
      rw (lookup-insert key other (visit cfg now (lookup key buckets)).0 buckets, e)
        (visit-IsWithin cfg now (lookup key buckets) (w key))
  | inr e ↦ rw (lookup-insert key other (visit cfg now (lookup key buckets)).0 buckets, e) (w other)
]

spent_granted : (b : Bool) → spent b ≡ granted_one b * one_token
spent_granted true = refl
spent_granted false = refl

step-potential :
    (cfg : Config) (key : String) (start stop : ℕ) (buckets : Dict String Bucket) (r : Request)
    → start ≤ r.now
    → r.now ≤ stop
    → AreWithin cfg buckets
    → (if r.key == key then granted_one (try_consume cfg buckets r.key r.now).1 else 0) * one_token
        + potential cfg start stop (lookup key (try_consume cfg buckets r.key r.now).0)
      ≤ potential cfg start stop (lookup key buckets)
unfolding try_consume
step-potential cfg key start stop buckets r h k w = elim (Bool-cases (r.key == key)) [
  | inl e ↦
      let same = ap (λ k. lookup k buckets) ((eq_iff r.key key).0 e) in
      rw (lookup-insert r.key key (visit cfg r.now (lookup r.key buckets)).0 buckets, e, ← same)
        (omega (
          arith,
          spent_granted (visit cfg r.now (lookup r.key buckets)).1,
          visit-potential cfg start stop r.now (lookup r.key buckets) h k (w r.key),
        ))
  | inr e ↦
      rw (lookup-insert r.key key (visit cfg r.now (lookup r.key buckets)).0 buckets, e)
        (omega arith)
]

granted-potential :
    (cfg : Config) (key : String) (start stop : ℕ) (buckets : Dict String Bucket)
    (rs : List Request)
    → AreWithin cfg buckets
    → AreBetween start stop rs
    → granted cfg key buckets rs * one_token ≤ potential cfg start stop (lookup key buckets)
granted-potential cfg key start stop buckets [] w b = omega arith
granted-potential cfg key start stop buckets (r ∷ rs) w b =
    let out = try_consume cfg buckets r.key r.now in
    omega (
      arith,
      step-potential cfg key start stop buckets r b.0 b.1 w,
      granted-potential cfg key start stop out.0 rs
          (try_consume-AreWithin cfg buckets r.key r.now w) b.2,
    )

potential-le :
    (cfg : Config) (start stop : ℕ) (o : Option Bucket)
    → potential cfg start stop o ≤ cfg.capacity * one_token + (stop - start) * cfg.refill_per_sec
potential-le cfg start stop none = omega arith
potential-le cfg start stop (some b) = omega arith

-- Whatever came before and whatever other keys do, the requests of one key that are granted
-- between two times are at most the capacity and the refill of that time.
pub granted-le :
    (cfg : Config) (key : String) (start stop : ℕ) (buckets : Dict String Bucket)
    (rs : List Request)
    → AreWithin cfg buckets
    → AreBetween start stop rs
    → granted cfg key buckets rs * one_token
      ≤ cfg.capacity * one_token + (stop - start) * cfg.refill_per_sec
granted-le cfg key start stop buckets rs w b = omega (
  arith,
  granted-potential cfg key start stop buckets rs w b,
  potential-le cfg start stop (lookup key buckets),
)
