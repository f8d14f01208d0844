-- ===== src/Tracker/Dwell/Past.antt =====
-- src/services/tracking-helpers.ts: camera dwell through all that happens to it.
use lo_lprox_chat.Common.{
  All-map, ℕ, zero, suc, ◌≤◌, ◌<◌, inl, inr, Option, none, some, List, [], ◌∷◌, arith, All,
  Bool-cases,
}
use lo_lprox_chat.Tracker.{Point}
use lo_lprox_chat.Tracker.Nearest.{Found}
use lo_lprox_chat.Tracker.Dwell.{
  ViewportBox, DwellSample, DwellTrack, update, reject, reject_at, set_rejected, reset, in_view_of,
  readable_of, seen_of, reading_of, readings,
}
use lo_lprox_chat.Tracker.Dwell.Window.{IsSound, IsInWindow, update-IsInWindow}

-- What happens to camera dwell, with the time of each frame.
pub data CameraEvent : Type 0 where
  frame : ℕ → ℕ → ℕ → Option ViewportBox → List Point → CameraEvent
  rejection : Point → ℕ → ℕ → CameraEvent
  restart : CameraEvent

unfoldable pub tracks_after : List CameraEvent → List DwellTrack
unfolding update reject
tracks_after [] = []
tracks_after (frame icon now dt box icons ∷ past) = update icon now dt box (tracks_after past) icons
tracks_after (rejection at radius_sq until_ms ∷ past) =
    reject at radius_sq until_ms (tracks_after past)
tracks_after (restart ∷ past) = reset (tracks_after past)

-- The time of the latest frame.
unfoldable pub latest : List CameraEvent → ℕ
latest [] = 0
latest (frame icon now dt box icons ∷ past) = now
latest (rejection at radius_sq until_ms ∷ past) = latest past
latest (restart ∷ past) = latest past

-- Each frame is later than the one before.
unfoldable pub IsRising : List CameraEvent → Type 0
unfolding latest
IsRising [] = Unit
IsRising (frame icon now dt box icons ∷ past) = (latest past < now) × IsRising past
IsRising (rejection at radius_sq until_ms ∷ past) = IsRising past
IsRising (restart ∷ past) = IsRising past

set_rejected-IsInWindow :
    (now until_ms i : ℕ) (tracks : List DwellTrack)
    → All (IsInWindow now) tracks
    → All (IsInWindow now) (set_rejected until_ms i tracks)
unfolding set_rejected
set_rejected-IsInWindow now until_ms i [] h = tt
set_rejected-IsInWindow now until_ms zero (t ∷ tracks) h = (
  record {
    ascending = h.0.ascending;
    known = h.0.known;
    recent = h.0.recent;
    sound = h.0.sound;
    seen = h.0.seen;
  },
  h.1,
)
set_rejected-IsInWindow now until_ms (suc i) (t ∷ tracks) h =
    (h.0, set_rejected-IsInWindow now until_ms i tracks h.1)

reject_at-IsInWindow :
    (now until_ms : ℕ) (found : Option Found) (tracks : List DwellTrack)
    → All (IsInWindow now) tracks
    → All (IsInWindow now) (reject_at until_ms found tracks)
unfolding set_rejected
reject_at-IsInWindow now until_ms none tracks h = h
reject_at-IsInWindow now until_ms (some f) tracks h =
    set_rejected-IsInWindow now until_ms f.place tracks h

-- However frames, rejections and restarts follow each other, every track holds at most one sample of a
-- frame, in order, all of the last half minute; and its icon was seen in the last five seconds.
pub tracks_after-IsInWindow :
    (past : List CameraEvent) → IsRising past → All (IsInWindow (latest past)) (tracks_after past)
unfolding tracks_after latest IsRising reject
tracks_after-IsInWindow [] rising = tt
tracks_after-IsInWindow (frame icon now dt box icons ∷ past) rising =
    update-IsInWindow icon (latest past) now dt box (tracks_after past) icons rising.0
      (tracks_after-IsInWindow past rising.1)
tracks_after-IsInWindow (rejection at radius_sq until_ms ∷ past) rising =
    reject_at-IsInWindow (latest past) until_ms _ (tracks_after past)
      (tracks_after-IsInWindow past rising)
tracks_after-IsInWindow (restart ∷ past) rising = tt

sums-ordered :
    (samples : List DwellSample)
    → All IsSound samples
    → (in_view_of samples ≤ readable_of samples) × (readable_of samples ≤ seen_of samples)
unfolding in_view_of readable_of seen_of
sums-ordered [] h = (omega arith, omega arith)
sums-ordered (s ∷ samples) h =
    let (views, reads) = sums-ordered samples h.1 in
    let sound = h.0 in
    elim (Bool-cases s.in_view) [
      | inl e ↦ let r = sound e in rw (e, r) (omega (arith, views), omega (arith, reads))
      | inr e ↦ elim (Bool-cases s.readable) [
        | inl r ↦ rw (e, r) (omega (arith, views), omega (arith, reads))
        | inr r ↦ rw (e, r) (omega (arith, views), omega (arith, reads))
      ]
    ]

-- So a share is at most one, and what was readable was seen.
pub readings-ordered :
    (now : ℕ) (past : List CameraEvent)
    → IsRising past
    → All
        (λ r. (r.in_view_ms ≤ r.readable_ms) × (r.readable_ms ≤ r.seen_ms))
        (readings now (tracks_after past))
unfolding reading_of
readings-ordered now past rising =
    All-map (IsInWindow (latest past)) _ (reading_of now) (tracks_after past)
      (λ t k. sums-ordered t.samples k.sound) (tracks_after-IsInWindow past rising)
