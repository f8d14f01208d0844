-- ===== src/Peer/Smooth/Steps.antt =====
-- src/services/peer-connection.ts: how far a step of the volume goes.
use lo_lprox_chat.Common.{
  ℕ, ◌+◌, ◌-◌, ◌*◌, ◌/◌, ◌≤◌, ◌≡◌, refl, sym, ap, ◌∙◌, min, Bool, true, false, some, ltb, leb,
  leb→le, Bool-cases, inl, inr, arith,
}
use native.Mathlib.Nat.{mul-le-mul_left}
use lo_lprox_chat.Common.Int.{ℤ, pos, distance_ℤ}
use lo_lprox_chat.Peer.Smooth.{full_volume, clamp, alpha_cap, blend, next_smoothed_volume}

-- A rise by `d` goes up by its share of `d`.
blend_rise :
    (prev d alpha : ℕ)
    → alpha ≤ full_volume
    → blend prev (prev + d) alpha ≡ prev + d * alpha / full_volume
unfolding blend
blend_rise prev d alpha h = rising prev d alpha (full_volume - alpha) (omega (arith, h))
  where
    rising :
        (prev d alpha rest : ℕ)
        → alpha + rest ≡ 1000000
        → (prev * rest + (prev + d) * alpha) / 1000000 ≡ prev + d * alpha / 1000000
    rising prev d alpha rest e =
        let all : prev * (alpha + rest) ≡ prev * 1000000 = rw e refl in omega (arith, all)

-- A fall by `d` keeps the rest of `d`.
blend_fall :
    (target d alpha : ℕ)
    → alpha ≤ full_volume
    → blend (target + d) target alpha ≡ target + d * (full_volume - alpha) / full_volume
unfolding blend
blend_fall target d alpha h = falling target d alpha (full_volume - alpha) (omega (arith, h))
  where
    falling :
        (target d alpha rest : ℕ)
        → alpha + rest ≡ 1000000
        → ((target + d) * rest + target * alpha) / 1000000 ≡ target + d * rest / 1000000
    falling target d alpha rest e =
        let all : target * (alpha + rest) ≡ target * 1000000 = rw e refl in omega (arith, all)

share-le : (d a b : ℕ) → a ≤ b → d * a / 1000000 ≤ d * b / 1000000
share-le d a b h = let most = mul-le-mul_left d h in omega (arith, most)

blend-up :
    (prev target alpha cap : ℕ)
    → prev ≤ target
    → alpha ≤ cap
    → cap ≤ full_volume
    → (blend prev target alpha ≡ prev + (target - prev) * alpha / full_volume)
      × (prev ≤ blend prev target alpha)
      × (blend prev target alpha ≤ prev + (target - prev) * cap / full_volume)
blend-up prev target alpha cap h small whole =
    let e : prev + (target - prev) ≡ target = omega arith in
    let up : blend prev target alpha ≡ prev + (target - prev) * alpha / full_volume =
      ap (λ t. blend prev t alpha) (sym e) ∙ blend_rise prev (target - prev) alpha (omega arith) in
    (up, omega (arith, up), omega (arith, up, share-le (target - prev) alpha cap small))

blend-down :
    (prev target alpha cap : ℕ)
    → target ≤ prev
    → alpha ≤ cap
    → cap ≤ full_volume
    → (blend prev target alpha ≡ target + (prev - target) * (full_volume - alpha) / full_volume)
      × (target + (prev - target) * (full_volume - cap) / full_volume ≤ blend prev target alpha)
      × (blend prev target alpha ≤ prev)
blend-down prev target alpha cap h small whole =
    let e : target + (prev - target) ≡ prev = omega arith in
    let down : blend prev target alpha
        ≡ target + (prev - target) * (full_volume - alpha) / full_volume =
      ap (λ p. blend p target alpha) (sym e)
      ∙ blend_fall target (prev - target) alpha (omega arith) in
    (
      down,
      omega (
        arith,
        down,
        share-le (prev - target) (full_volume - cap) (full_volume - alpha) (omega arith),
      ),
      omega (arith, down, share-le (prev - target) (full_volume - alpha) 1000000 (omega arith)),
    )

alpha_cap-le : (falling : Bool) (a : ℕ) → min (alpha_cap falling) a ≤ 600000
alpha_cap-le true a = omega arith
alpha_cap-le false a = omega arith

-- One step goes towards the target and never past it: up by at most 30% of the way, so that nobody
-- bursts in, and down by at most 60% of it, so that nothing clicks.
pub next_smoothed_volume_lem :
    (approach : Bool → ℕ → ℕ) (prev : ℕ) (target : ℤ) (now last : ℕ)
    → let next = next_smoothed_volume approach (some prev) target now last in
      (prev ≤ clamp target
        → (prev ≤ next) × (next ≤ prev + (clamp target - prev) * 300000 / full_volume))
      × (clamp target ≤ prev
          → (clamp target + (prev - clamp target) * 400000 / full_volume ≤ next) × (next ≤ prev))
unfolding next_smoothed_volume
next_smoothed_volume_lem approach prev target now last =
    let falling = ltb (clamp target) prev in
    let alpha = min (alpha_cap falling) (approach falling (now - last)) in
    (
      λ h.
          let rising : falling ≡ false = ground arith in
          let up =
            blend-up prev (clamp target) alpha 300000 h (rw rising (omega arith)) (omega arith) in
          (up.1, up.2),
      λ h.
          let down =
            blend-down prev (clamp target) alpha 600000 h
              (alpha_cap-le falling (approach falling (now - last))) (omega arith) in
          (down.1, down.2),
    )

-- A tick 40 ms after the last one goes a tenth of the way at least, where e^(-40 / 300) is below 0.9.
abbrev pub IsBrisk : (Bool → ℕ → ℕ) → Type 0
IsBrisk approach = (falling : Bool) (elapsed : ℕ) → 40 ≤ elapsed → 100000 ≤ approach falling elapsed

-- Nine tenths of a distance.
abbrev pub nine_tenths : ℕ → ℕ
nine_tenths d = d - d / 10

brisk_alpha : (falling : Bool) (a : ℕ) → 100000 ≤ a → 100000 ≤ min (alpha_cap falling) a
brisk_alpha true a h = omega (arith, h)
brisk_alpha false a h = omega (arith, h)

blend-nearer :
    (prev target alpha : ℕ)
    → 100000 ≤ alpha
    → alpha ≤ 600000
    → distance_ℤ (pos (blend prev target alpha)) (pos target)
      ≤ nine_tenths (distance_ℤ (pos prev) (pos target))
unfolding distance_ℤ
blend-nearer prev target alpha quick small = elim (Bool-cases (leb prev target)) [
  | inl e ↦
      let up = blend-up prev target alpha 600000 (leb→le prev target e) small (omega arith) in
      let tenth = share-le (target - prev) 100000 alpha quick in
      let most = share-le (target - prev) alpha 1000000 (omega arith) in
      ground (arith, up.0, tenth, most)
  | inr e ↦
      let over : target ≤ prev = ground arith in
      let down = blend-down prev target alpha 600000 over small (omega arith) in
      let tenth = share-le (prev - target) (full_volume - alpha) 900000 (omega arith) in
      ground (arith, down.0, tenth)
]

ap-le :
    {t u : ℕ} (e : t ≡ u) (prev alpha : ℕ)
    → distance_ℤ (pos (blend prev u alpha)) (pos u) ≤ nine_tenths (distance_ℤ (pos prev) (pos u))
    → distance_ℤ (pos (blend prev t alpha)) (pos u) ≤ nine_tenths (distance_ℤ (pos prev) (pos u))
ap-le e prev alpha h = rw e h

pub next_smoothed_volume-nearer :
    (approach : Bool → ℕ → ℕ) (prev target now last : ℕ)
    → IsBrisk approach
    → target ≤ full_volume
    → 40 ≤ now - last
    → distance_ℤ
        (pos (next_smoothed_volume approach (some prev) (pos target) now last))
        (pos target)
      ≤ nine_tenths (distance_ℤ (pos prev) (pos target))
unfolding next_smoothed_volume
next_smoothed_volume-nearer approach prev target now last brisk whole late =
    let falling = ltb (min full_volume target) prev in
    let alpha = min (alpha_cap falling) (approach falling (now - last)) in
    let small : alpha ≤ 600000 = alpha_cap-le falling (approach falling (now - last)) in
    let e : min full_volume target ≡ target = omega arith in
    let quick : 100000 ≤ alpha = brisk_alpha falling _ (brisk falling (now - last) late) in
    ap-le e prev alpha (blend-nearer prev target alpha quick small)
