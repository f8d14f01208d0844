-- ===== src/Limits/Concurrency.antt =====
-- `ConcurrencyLimiter` of server/src/rate-limit.ts: the open connections of each address.
use lo_lprox_chat.Common.{
  ℕ, ◌+◌, ◌-◌, ◌≤◌, ◌<◌, String, ◌≡◌, ◌⊎◌, Bool, true, false, Option, none, some, leb,
  if◌then◌else◌, ◌==◌, string_eq, arith,
}
use lo_lprox_chat.Common.Dict.{Dict, lookup, insert, erase, lookup-insert, lookup-erase}

-- `LIMITS.WS_PER_IP`.
abbrev pub ws_per_ip : ℕ
ws_per_ip = 20

abbrev pub or_zero : Option ℕ → ℕ
or_zero none = 0
or_zero (some n) = n

unfoldable pub count : Dict String ℕ → String → ℕ
count counts key = or_zero (lookup key counts)

unfoldable pub acquire : ℕ → Dict String ℕ → String → Dict String ℕ × Bool
unfolding count
acquire limit counts key =
    let cur = count counts key in
    if leb limit cur then (counts, false) else (insert key (cur + 1) counts, true)

unfoldable pub release : Dict String ℕ → String → Dict String ℕ
unfolding count
release counts key =
    let cur = count counts key in
    if leb cur 1 then erase key counts else insert key (cur - 1) counts

-- An acquisition is granted exactly below the limit, and then counts one more for its own key and
-- nothing for any other; a refused one changes no count.
pub acquire_lem :
    (limit : ℕ) (counts : Dict String ℕ) (key other : String)
    → (((acquire limit counts key).1 ≡ true)
        × (count counts key < limit)
        × (count (acquire limit counts key).0 other
            ≡ (if key == other then count counts key + 1 else count counts other)))
      ⊎ (((acquire limit counts key).1 ≡ false)
          × (limit ≤ count counts key)
          × ((acquire limit counts key).0 ≡ counts))
unfolding acquire
acquire_lem limit counts key other =
    ground (arith, lookup-insert key other (or_zero (lookup key counts) + 1) counts)

-- A release counts one less for its own key, and nothing for any other.
pub release_lem :
    (counts : Dict String ℕ) (key other : String)
    → count (release counts key) other
      ≡ (if key == other then count counts key - 1 else count counts other)
unfolding release
release_lem counts key other = ground (
  arith,
  lookup-insert key other (or_zero (lookup key counts) - 1) counts,
  lookup-erase key other counts,
)
