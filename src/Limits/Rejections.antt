-- ===== src/Limits/Rejections.antt =====
-- `RejectReason` and `RejectionCounters` of server/src/rate-limit.ts.
use lo_lprox_chat.Common.{
  ℕ, ◌+◌, ◌-◌, max, ◌≤◌, ◌≡◌, refl, ◌↔◌, Bool, true, false, [], ◌∷◌, arith, ltb, if◌then◌else◌, Eq,
  ◌==◌,
}
use lo_lprox_chat.Common.Dict.{
  Dict, lookup, insert, lookup-insert, HasKeysApart, insert-HasKeysApart,
}
use lo_lprox_chat.Limits.Concurrency.{or_zero}

pub data RejectReason : Type 0 where
  turn_creds_ip compute_volumes_ip compute_volumes_player : RejectReason
  body_too_large ws_per_ip ws_messages xff_invalid : RejectReason

abbrev pub reason_beq : RejectReason → RejectReason → Bool
reason_beq turn_creds_ip turn_creds_ip = true
reason_beq compute_volumes_ip compute_volumes_ip = true
reason_beq compute_volumes_player compute_volumes_player = true
reason_beq body_too_large body_too_large = true
reason_beq ws_per_ip ws_per_ip = true
reason_beq ws_messages ws_messages = true
reason_beq xff_invalid xff_invalid = true
reason_beq _ _ = false

pub reason_beq_iff : (a b : RejectReason) → (reason_beq a b ≡ true) ↔ (a ≡ b)
reason_beq_iff turn_creds_ip turn_creds_ip = ground arith
reason_beq_iff _ _ = ground arith

instance abbrev pub reason_eq : Eq RejectReason
reason_eq = record { same = reason_beq; same_iff = reason_beq_iff }

pub record Counters : Type 0 where
  pub totals : Dict RejectReason ℕ
  pub reported : Dict RejectReason ℕ

abbrev pub total : Dict RejectReason ℕ → RejectReason → ℕ
total m r = or_zero (lookup r m)

unfoldable pub bump : Counters → RejectReason → Counters
bump c r = record c { totals = insert r (total c.totals r + 1) c.totals }

-- The loop of `drainDeltas`: what it has reported so far, and the deltas.
unfoldable pub drain :
    Dict RejectReason ℕ → Dict RejectReason ℕ → Dict RejectReason ℕ × Dict RejectReason ℕ
drain [] reported = (reported, [])
drain ((r, n) ∷ m) reported =
    let delta = n - total reported r in
    let rest = drain m (if ltb 0 delta then insert r n reported else reported) in
    (rest.0, if ltb 0 delta then (r, delta) ∷ rest.1 else rest.1)

unfoldable pub drain_deltas : Counters → Counters × Dict RejectReason ℕ
unfolding drain
drain_deltas c = let out = drain c.totals c.reported in (record c { reported = out.0 }, out.1)

abbrev pub IsWellFormed : Counters → Type 0
IsWellFormed c =
    HasKeysApart c.totals × ((r : RejectReason) → total c.reported r ≤ total c.totals r)

drain-reported :
    (m reported : Dict RejectReason ℕ) (r : RejectReason)
    → HasKeysApart m
    → total (drain m reported).0 r ≡ max (total m r) (total reported r)
unfolding drain lookup
drain-reported [] reported r h = omega arith
drain-reported ((k, n) ∷ m) reported r h = ground (
  arith,
  reason_beq_iff k r,
  lookup-insert k r n reported,
  h.0,
  drain-reported m (if ltb 0 (n - total reported k) then insert k n reported else reported) r h.1,
)

drain-deltas :
    (m reported : Dict RejectReason ℕ) (r : RejectReason)
    → HasKeysApart m
    → total (drain m reported).1 r ≡ total m r - total reported r
unfolding drain lookup
drain-deltas [] reported r h = omega arith
drain-deltas ((k, n) ∷ m) reported r h = ground (
  arith,
  reason_beq_iff k r,
  lookup-insert k r n reported,
  h.0,
  drain-deltas m (if ltb 0 (n - total reported k) then insert k n reported else reported) r h.1,
)

-- A bump counts one more for its reason, keeps the others, and keeps the counters well formed.
pub bump_lem :
    (c : Counters) (reason r : RejectReason)
    → IsWellFormed c
    → (total (bump c reason).totals r
        ≡ (if reason == r then total c.totals r + 1 else total c.totals r))
      × IsWellFormed (bump c reason)
unfolding bump
bump_lem c reason r w =
    let n = total c.totals reason + 1 in
    (
      ground (arith, reason_beq_iff reason r, lookup-insert reason r n c.totals),
      (
        insert-HasKeysApart reason n c.totals w.0,
        λ q. ground (arith, reason_beq_iff reason q, lookup-insert reason q n c.totals, w.1 q),
      ),
    )

-- The deltas are what was counted since they were last drained, for every reason; nothing is
-- reported twice and nothing is lost, and the counters stay well formed.
pub drain_deltas_lem :
    (c : Counters) (r : RejectReason)
    → IsWellFormed c
    → (total (drain_deltas c).1 r + total c.reported r ≡ total c.totals r)
      × (total (drain_deltas c).0.reported r ≡ total c.totals r)
      × ((drain_deltas c).0.totals ≡ c.totals)
      × IsWellFormed (drain_deltas c).0
unfolding drain_deltas
drain_deltas_lem c r w = (
  omega (arith, drain-deltas c.totals c.reported r w.0, w.1 r),
  omega (arith, drain-reported c.totals c.reported r w.0, w.1 r),
  refl,
  (w.0, λ q. omega (arith, drain-reported c.totals c.reported q w.0, w.1 q)),
)
