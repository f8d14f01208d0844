-- ===== src/Peer/Settles.antt =====
-- src/services/peer-connection.ts: the volume that is played arrives at its target.
use lo_lprox_chat.Common.{
  ℕ, zero, suc, ◌-◌, ◌≤◌, ◌≡◌, ◌⊎◌, Bool, Option, none, some, List, [], ◌∷◌, nat_eq,
}
use lo_lprox_chat.Common.Int.{pos, distance_ℤ}
use lo_lprox_chat.Peer.Smooth.{full_volume}
use lo_lprox_chat.Peer.Smooth.Steps.{IsBrisk, nine_tenths}
use lo_lprox_chat.Peer.{Peer, step_volume}
use lo_lprox_chat.Peer.Quiet.{gain_of}

-- What a gain leaves as it is.
abbrev IsSameGlide : Peer → Peer → Type 0
IsSameGlide p q =
    (q.smoothed ≡ p.smoothed) × (q.target ≡ p.target) × (q.last_set_ms ≡ p.last_set_ms)

-- What is left of the full range after some ticks.
abbrev pub left_after : ℕ → ℕ
left_after zero = full_volume
left_after (suc n) = nine_tenths (left_after n)

-- What a tick leaves is at least 0.005.
abbrev IsWorthIt : ℕ → ℕ → Type 0
IsWorthIt zero d = Unit
IsWorthIt (suc n) d = 5000 ≤ d

-- After `n` ticks: there, or with no more left than that.
abbrev IsNear : ℕ → ℕ → ℕ → Type 0
IsNear n v target =
    (v ≡ target)
    ⊎ (IsWorthIt n (distance_ℤ (pos v) (pos target))
        × (distance_ℤ (pos v) (pos target) ≤ left_after n))

-- Who is heard, and how loud: by the element, or with app audio by the tap, if there is one.
abbrev pub IsHeardAt : ℕ → Option ℕ → Option ℕ → ℕ → Type 0
IsHeardAt volume none tap element = (element ≡ volume) × (gain_of tap ≡ 0)
IsHeardAt volume (some out) none element = element ≡ 0
IsHeardAt volume (some out) (some gain) element = (gain ≡ volume) × (element ≡ 0)

module _ (approach : (falling : Bool) → (elapsed_ms : ℕ) → ℕ) (brisk : IsBrisk approach) where
  -- The ticks come 40 ms after another at least.
  abbrev pub IsSpaced : ℕ → List ℕ → Type 0
  IsSpaced last [] = Unit
  IsSpaced last (now ∷ ticks) = (40 ≤ now - last) × IsSpaced now ticks

  -- A volume on its way: `n` ticks done.
  record IsOnItsWay (n : ℕ) (p : Peer) : Type 0 where
    volume : ℕ
    smoothed : p.smoothed ≡ some volume
    near : IsNear n volume p.target
    whole : p.target ≤ full_volume

  unfoldable pub ticked : Peer → List ℕ → Peer
  ticked p [] = p
  ticked p (now ∷ ticks) = ticked (step_volume approach p now) ticks
