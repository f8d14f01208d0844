-- ===== src/Peer/InStep.antt =====
-- src/services/peer-connection.ts: what is played follows the smoothed volume.
use mathlib.Core.Path.{subst}
use lo_lprox_chat.Common.{
  ℕ, ◌+◌, ◌≤◌, ◌≡◌, refl, sym, ap, ◌∙◌, Bool, true, false, not, ◌⊎◌, inl, inr, Option, none, some,
  List, [], ◌∷◌, arith, if◌then◌else◌, min, ◌==◌, nat_eq, if_holds, ◌||◌, ltb, leb, Bool-cases,
  Option-cases,
}
use lo_lprox_chat.Common.Int.{ℤ, pos, negsuc, distance_ℤ}
use lo_lprox_chat.Peer.Smooth.{clamp, full_volume, next_smoothed_volume}
use lo_lprox_chat.Peer.Smooth.Steps.{next_smoothed_volume_lem}
use lo_lprox_chat.Peer.{
  Peer, new_peer, is_some, level, unless_muted, set_gain, apply_gain, attach_app_tap,
  set_app_output, on_track, ensure_playing, apply_unless_muted, set_volume, settle, glide,
  step_from, step_volume, mute, unmute, max_ice_restarts, ConnectionState, on_connection_state,
  close, retried_lately, same_output,
}
use lo_lprox_chat.Peer.Quiet.{
  PeerEvent, routes, gets_track, mutes, unmutes, closes, hears, ticks, changes, on_event, after,
}

abbrev pub IsWhole : Option ℕ → Type 0
IsWhole none = Unit
IsWhole (some v) = v ≤ full_volume

-- The tap, if there is app audio and a tap, or else the element has the smoothed volume.
abbrev pub IsPlaying : Option ℕ → Option ℕ → Option ℕ → ℕ → Type 0
IsPlaying none out tap volume = Unit
IsPlaying (some v) none tap volume = volume ≡ v
IsPlaying (some v) (some out) none volume = Unit
IsPlaying (some v) (some out) (some gain) volume = gain ≡ v

-- What holds of a peer besides.
abbrev pub IsSteady : Peer → Type 0
IsSteady p =
    (p.target ≤ full_volume)
    × IsWhole p.smoothed
    × (p.element_muted ≡ (p.muted || is_some p.app_out))

abbrev pub IsInStep : Peer → Type 0
IsInStep p =
    IsSteady p × (p.muted ≡ false → IsPlaying p.smoothed p.app_out p.app_tap p.element_volume)

new_peer-IsInStep : IsInStep new_peer
new_peer-IsInStep = ((omega arith, tt, refl), λ e. tt)

no_volume-IsPlaying : (o out tap : Option ℕ) (volume : ℕ) → o ≡ none → IsPlaying o out tap volume
no_volume-IsPlaying none out tap volume e = tt
no_volume-IsPlaying (some v) out tap volume e = absurd (ground (arith, e))

set_gain-IsPlaying :
    (m : Bool) (o out tap : Option ℕ) (volume v : ℕ)
    → m ≡ false
    → o ≡ some v
    → is_some out ≡ true
    → IsPlaying o out (set_gain tap (unless_muted m v)) volume
set_gain-IsPlaying m none out tap volume v free e there = tt
set_gain-IsPlaying m (some w) none tap volume v free e there = absurd (ground (arith, there))
set_gain-IsPlaying m (some w) (some out) none volume v free e there = tt
set_gain-IsPlaying true (some w) (some out) (some g) volume v free e there =
    absurd (ground (arith, free))
set_gain-IsPlaying false (some w) (some out) (some g) volume v free e there = ground (arith, e)

element-IsPlaying :
    (o out tap : Option ℕ) (v : ℕ) → o ≡ some v → is_some out ≡ false → IsPlaying o out tap v
element-IsPlaying none out tap v e there = tt
element-IsPlaying (some w) none tap v e there = ground (arith, e)
element-IsPlaying (some w) (some out) tap v e there = absurd (ground (arith, there))

apply_gain-IsInStep :
    (p : Peer) (v : ℕ)
    → IsSteady p
    → (p.smoothed ≡ none) ⊎ ((p.smoothed ≡ some v) × (v ≤ full_volume))
    → IsInStep (apply_gain p v)
unfolding apply_gain
apply_gain-IsInStep p v h (inl e) =
    if_holds IsInStep (is_some p.app_out)
      (record p { app_tap = set_gain p.app_tap (unless_muted p.muted (min full_volume v)) })
      (record p { element_volume = min full_volume v })
      (λ there. (h, λ free. no_volume-IsPlaying p.smoothed p.app_out _ p.element_volume e))
      (λ there.
        (h, λ free. no_volume-IsPlaying p.smoothed p.app_out p.app_tap (min full_volume v) e))
apply_gain-IsInStep p v h (inr (e, low)) =
    let whole : min full_volume v ≡ v = omega (arith, low) in
    let same : p.smoothed ≡ some (min full_volume v) = e ∙ ap some (sym whole) in
    if_holds IsInStep (is_some p.app_out)
      (record p { app_tap = set_gain p.app_tap (unless_muted p.muted (min full_volume v)) })
      (record p { element_volume = min full_volume v })
      (λ there. (
        h,
        λ free.
            set_gain-IsPlaying p.muted p.smoothed p.app_out p.app_tap p.element_volume
              (min full_volume v) free same there,
      ))
      (λ there. (
        h,
        λ free. element-IsPlaying p.smoothed p.app_out p.app_tap (min full_volume v) same there,
      ))

level_is : (o : Option ℕ) (target v : ℕ) → o ≡ some v → elim o [ none ↦ target | some w ↦ w ] ≡ v
level_is none target v e = absurd (ground (arith, e))
level_is (some w) target v e = ground (arith, e)

at_level :
    (p : Peer)
    → IsSteady p
    → (p.smoothed ≡ none) ⊎ ((p.smoothed ≡ some (level p)) × (level p ≤ full_volume))
at_level p h = elim (Option-cases p.smoothed) [
  | inl e ↦ inl e
  | inr (v, e) ↦
      let same : level p ≡ v = level_is p.smoothed p.target v e in
      let low : v ≤ full_volume = subst IsWhole e h.1 in inr (e ∙ ap some (sym same), rw same low)
]

new_tap-IsPlaying :
    (m : Bool) (o out tap : Option ℕ) (volume v : ℕ)
    → m ≡ false
    → (o ≡ none) ⊎ ((o ≡ some v) × (v ≤ full_volume))
    → is_some out ≡ true
    → IsPlaying o out (some (unless_muted m v)) volume
new_tap-IsPlaying m none out tap volume v free h there = tt
new_tap-IsPlaying m (some w) none tap volume v free h there = absurd (ground (arith, there))
new_tap-IsPlaying true (some w) (some out) tap volume v free h there = absurd (ground (arith, free))
new_tap-IsPlaying false (some w) (some out) tap volume v free (inl e) there =
    absurd (ground (arith, e))
new_tap-IsPlaying false (some w) (some out) tap volume v free (inr (e, low)) there =
    ground (arith, e)

attach_app_tap-IsSteady : (p : Peer) → IsSteady p → IsSteady (attach_app_tap p)
unfolding attach_app_tap
attach_app_tap-IsSteady p h =
    if_holds IsSteady (not (is_some p.app_out) || is_some p.app_tap || not p.has_tracks) p
      (record p { app_tap = some (unless_muted p.muted (level p)) }) (λ e. h) (λ e. h)

attach_app_tap-IsInStep : (p : Peer) → IsInStep p → IsInStep (attach_app_tap p)
unfolding attach_app_tap
attach_app_tap-IsInStep p h =
    if_holds IsInStep (not (is_some p.app_out) || is_some p.app_tap || not p.has_tracks) p
      (record p { app_tap = some (unless_muted p.muted (level p)) }) (λ e. h)
      (λ e. (
        h.0,
        λ free.
            new_tap-IsPlaying p.muted p.smoothed p.app_out p.app_tap p.element_volume (level p) free
              (at_level p h.0) (ground (arith, e)),
      ))

apply_unless_muted-IsInStep :
    (p : Peer) (v : ℕ)
    → IsSteady p
    → p.smoothed ≡ some v
    → v ≤ full_volume
    → IsInStep (apply_unless_muted p v)
unfolding apply_unless_muted
apply_unless_muted-IsInStep p v h e low =
    if_holds IsInStep (not p.muted) (apply_gain p v) p
      (λ free. apply_gain-IsInStep p v h (inr (e, low)))
      (λ off. (h, λ free. absurd (ground (arith, off, free))))

routed_element :
    (m : Bool) (out : Option ℕ) → (if is_some out then true else m) ≡ (m || is_some out)
routed_element m out = ground arith

set_app_output-IsInStep : (p : Peer) (out : Option ℕ) → IsInStep p → IsInStep (set_app_output p out)
unfolding set_app_output
set_app_output-IsInStep p out h =
    let q : Peer = record p {
      app_tap = none;
      app_out = out;
      element_muted = if is_some out then true else p.muted;
    } in
    let steady = attach_app_tap-IsSteady q (h.0.0, h.0.1, routed_element p.muted out) in
    if_holds IsInStep (same_output out p.app_out) p
      (apply_gain (attach_app_tap q) (level (attach_app_tap q))) (λ e. h)
      (λ e.
        apply_gain-IsInStep (attach_app_tap q) (level (attach_app_tap q)) steady
          (at_level (attach_app_tap q) steady))

clamp-le : (volume : ℤ) → clamp volume ≤ full_volume
clamp-le (pos v) = omega arith
clamp-le (negsuc v) = omega arith

set_volume-IsInStep :
    (p : Peer) (volume : ℤ) (now : ℕ) → IsInStep p → IsInStep (set_volume p volume now)
unfolding set_volume
set_volume-IsInStep p volume now h =
    let q : Peer = record p { target = clamp volume } in
    let r : Peer = record q { smoothed = some (clamp volume); last_set_ms = now } in
    if_holds IsInStep (is_some p.smoothed) q (apply_unless_muted r (clamp volume))
      (λ e. ((clamp-le volume, h.0.1, h.0.2), h.1))
      (λ e.
        apply_unless_muted-IsInStep r (clamp volume) ((clamp-le volume, clamp-le volume, h.0.2))
          refl (clamp-le volume))

ensure_playing-IsInStep : (p : Peer) (now : ℕ) → IsInStep p → IsInStep (ensure_playing p now).0
unfolding ensure_playing
ensure_playing-IsInStep p now h =
    if_holds (λ (r : Peer × Bool). IsInStep r.0) (p.muted || p.target == 0 || not p.element_paused)
      (p, false) _ (λ e. h)
      (λ e.
        if_holds (λ (r : Peer × Bool). IsInStep r.0) (not p.has_tracks) (p, false) _ (λ e. h)
          (λ e.
            if_holds (λ (r : Peer × Bool). IsInStep r.0) (retried_lately p.last_play_retry now)
              (p, false) (record p { last_play_retry = some now }, true) (λ e. h) (λ e. h)))

ensure_playing-smoothed : (p : Peer) (now : ℕ) → (ensure_playing p now).0.smoothed ≡ p.smoothed
unfolding ensure_playing
ensure_playing-smoothed p now = ground arith

unmute-IsInStep : (p : Peer) → IsInStep p → IsInStep (unmute p)
unfolding unmute
unmute-IsInStep p h =
    let q : Peer = record p { muted = false; element_muted = is_some p.app_out } in
    let steady : IsSteady q = (h.0.0, h.0.1, refl) in
    apply_gain-IsInStep q (level q) steady (at_level q steady)

no_tap-IsPlaying :
    (o out tap : Option ℕ) (volume : ℕ) → IsPlaying o out tap volume → IsPlaying o out none volume
no_tap-IsPlaying none out tap volume h = tt
no_tap-IsPlaying (some v) none tap volume h = h
no_tap-IsPlaying (some v) (some out) tap volume h = tt

on_connection_state-IsInStep :
    (p : Peer) (state : ConnectionState) → IsInStep p → IsInStep (on_connection_state p state).0
unfolding on_connection_state
on_connection_state-IsInStep p ConnectionState.connected h = h
on_connection_state-IsInStep p ConnectionState.failed h =
    if_holds (λ (r : Peer × Bool). IsInStep r.0) (ltb p.ice_restarts max_ice_restarts)
      (record p { ice_restarts = p.ice_restarts + 1 }, true) (p, false) (λ e. h) (λ e. h)
on_connection_state-IsInStep p ConnectionState.between h = h

module _ (approach : (falling : Bool) → (elapsed_ms : ℕ) → ℕ) where
  next-le :
      (v target now last : ℕ)
      → v ≤ full_volume
      → target ≤ full_volume
      → settle (next_smoothed_volume approach (some v) (pos target) now last) target ≤ full_volume
  unfolding settle
  next-le v target now last low whole =
      let w = next_smoothed_volume approach (some v) (pos target) now last in
      let (up, down) = next_smoothed_volume_lem approach v (pos target) now last in
      let bound : w ≤ full_volume = elim (Bool-cases (leb v (clamp (pos target)))) [
        | inl e ↦ let k = (up (ground (arith, e))).1 in omega (arith, k)
        | inr e ↦ let k = (down (ground (arith, e))).1 in omega (arith, k, low)
      ] in
      if_holds (λ u. u ≤ full_volume) (ltb (distance_ℤ (pos w) (pos target)) 5000) target w
        (λ e. whole) (λ e. bound)

  glide-IsInStep :
      (p : Peer) (v now : ℕ) → p.smoothed ≡ some v → IsInStep p → IsInStep (glide approach p v now)
  unfolding glide
  glide-IsInStep p v now e h =
      let w =
        settle (next_smoothed_volume approach (some v) (pos p.target) now p.last_set_ms) p.target in
      let low : w ≤ full_volume =
        next-le v p.target now p.last_set_ms (subst IsWhole e h.0.1) h.0.0 in
      let r : Peer = record p { smoothed = some w; last_set_ms = now } in
      if_holds IsInStep (v == p.target) (record p { last_set_ms = now }) (apply_unless_muted r w)
        (λ _. h) (λ _. apply_unless_muted-IsInStep r w ((h.0.0, low, h.0.2)) refl low)

  step_from-IsInStep :
      (p : Peer) (o : Option ℕ) (now : ℕ)
      → p.smoothed ≡ o
      → IsInStep p
      → IsInStep (step_from approach p o now)
  unfolding step_from
  step_from-IsInStep p none now e h = h
  step_from-IsInStep p (some v) now e h =
      glide-IsInStep (ensure_playing p now).0 v now (ensure_playing-smoothed p now ∙ e)
        (ensure_playing-IsInStep p now h)

  pub step_volume-IsInStep :
      (p : Peer) (now : ℕ) → IsInStep p → IsInStep (step_volume approach p now)
  unfolding step_volume
  step_volume-IsInStep p now h = step_from-IsInStep p p.smoothed now refl h

  on_event-IsInStep : (p : Peer) (e : PeerEvent) → IsInStep p → IsInStep (on_event approach p e)
  unfolding on_event on_track mute close
  on_event-IsInStep p (routes out) h = set_app_output-IsInStep p out h
  on_event-IsInStep p gets_track h = attach_app_tap-IsInStep (record p { has_tracks = true }) h
  on_event-IsInStep p mutes h = ((h.0.0, h.0.1, refl), λ e. absurd (ground (arith, e)))
  on_event-IsInStep p unmutes h = unmute-IsInStep p h
  on_event-IsInStep p closes h =
      (h.0, λ e. no_tap-IsPlaying p.smoothed p.app_out p.app_tap p.element_volume (h.1 e))
  on_event-IsInStep p (hears volume now) h = set_volume-IsInStep p volume now h
  on_event-IsInStep p (ticks now) h = step_volume-IsInStep p now h
  on_event-IsInStep p (changes state) h = on_connection_state-IsInStep p state h

  after-IsInStep_from :
      (p : Peer) (events : List PeerEvent) → IsInStep p → IsInStep (after approach p events)
  unfolding after
  after-IsInStep_from p [] h = h
  after-IsInStep_from p (e ∷ events) h =
      after-IsInStep_from (on_event approach p e) events (on_event-IsInStep p e h)

  -- After whatever has happened to a peer.
  pub after-IsInStep : (events : List PeerEvent) → IsInStep (after approach new_peer events)
  after-IsInStep events = after-IsInStep_from new_peer events new_peer-IsInStep
