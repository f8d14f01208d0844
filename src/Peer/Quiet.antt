-- ===== src/Peer/Quiet.antt =====
-- src/services/peer-connection.ts: who is muted is not heard, and nobody is heard twice.
use lo_lprox_chat.Common.{
  ℕ, ◌+◌, ◌≡◌, refl, Bool, true, false, not, ◌⊎◌, inl, inr, Option, none, some, List, [], ◌∷◌,
  arith, if◌then◌else◌, min, ◌==◌, nat_eq, if_holds, ◌||◌, ltb,
}
use lo_lprox_chat.Common.Int.{ℤ}
use lo_lprox_chat.Peer.Smooth.{clamp, full_volume}
use lo_lprox_chat.Peer.{
  Peer, new_peer, is_some, level, unless_muted, set_gain, apply_gain, attach_app_tap,
  set_app_output, on_track, ensure_playing, apply_unless_muted, set_volume, glide, step_from,
  step_volume, mute, unmute, max_ice_restarts, ConnectionState, on_connection_state, close,
  retried_lately, same_output,
}

pub data PeerEvent : Type 0 where
  routes : Option ℕ → PeerEvent
  gets_track mutes unmutes closes : PeerEvent
  hears : ℤ → (now : ℕ) → PeerEvent
  ticks : (now : ℕ) → PeerEvent
  changes : ConnectionState → PeerEvent

abbrev pub IsSilent : Option ℕ → Type 0
IsSilent none = Unit
IsSilent (some gain) = gain ≡ 0

-- A muted voice has a muted element and a silent tap; with app audio the element is muted; and only
-- with app audio there is a tap.
abbrev pub IsRoutedAs : Bool → Bool → Option ℕ → Option ℕ → Type 0
IsRoutedAs muted element_muted app_out app_tap =
    (muted ≡ true → (element_muted ≡ true) × IsSilent app_tap)
    × (is_some app_out ≡ true → element_muted ≡ true)
    × (is_some app_tap ≡ true → is_some app_out ≡ true)

abbrev pub IsRouted : Peer → Type 0
IsRouted p = IsRoutedAs p.muted p.element_muted p.app_out p.app_tap

pub new_peer-IsRouted : IsRouted new_peer
new_peer-IsRouted = (λ e. ground arith, λ e. ground arith, λ e. ground arith)

-- What the element and the tap play.
abbrev pub element_level : Peer → ℕ
element_level p = if p.element_muted then 0 else p.element_volume

abbrev pub gain_of : Option ℕ → ℕ
gain_of none = 0
gain_of (some gain) = gain

abbrev pub tap_level : Peer → ℕ
tap_level p = gain_of p.app_tap

levels :
    (m e : Bool) (o t : Option ℕ) (v : ℕ)
    → IsRoutedAs m e o t
    → ((m ≡ false) ⊎ (((if e then 0 else v) ≡ 0) × (gain_of t ≡ 0)))
      × (((if e then 0 else v) ≡ 0) ⊎ (gain_of t ≡ 0))
levels false e o none v h = (inl refl, inr refl)
levels true e o none v h = (inr (rw (h.0 refl).0 (refl, refl)), inr refl)
levels false e o (some g) v h = (inl refl, inl (rw (h.1 (h.2 refl)) refl))
levels true e o (some g) v h =
    (inr (rw (h.0 refl).0 (refl, (h.0 refl).1)), inl (rw (h.1 (h.2 refl)) refl))

set_gain-IsRoutedAs :
    (m e : Bool) (o t : Option ℕ) (v : ℕ)
    → IsRoutedAs m e o t
    → IsRoutedAs m e o (set_gain t (unless_muted m v))
set_gain-IsRoutedAs m e o none v h = h
set_gain-IsRoutedAs true e o (some g) v h = (λ q. ((h.0 q).0, refl), h.1, h.2)
set_gain-IsRoutedAs false e o (some g) v h = (λ q. ground arith, h.1, h.2)

new_tap-IsRoutedAs :
    (m e : Bool) (o t : Option ℕ) (v : ℕ)
    → is_some o ≡ true
    → IsRoutedAs m e o t
    → IsRoutedAs m e o (some (unless_muted m v))
new_tap-IsRoutedAs true e o t v there h = (λ q. (h.1 there, refl), h.1, λ q. there)
new_tap-IsRoutedAs false e o t v there h = (λ q. ground arith, h.1, λ q. there)

apply_gain-IsRouted : (p : Peer) (v : ℕ) → IsRouted p → IsRouted (apply_gain p v)
unfolding apply_gain
apply_gain-IsRouted p v h =
    if_holds IsRouted (is_some p.app_out)
      (record p { app_tap = set_gain p.app_tap (unless_muted p.muted (min full_volume v)) })
      (record p { element_volume = min full_volume v })
      (λ e. set_gain-IsRoutedAs p.muted p.element_muted p.app_out p.app_tap (min full_volume v) h)
      (λ e. h)

attach_app_tap-IsRouted : (p : Peer) → IsRouted p → IsRouted (attach_app_tap p)
unfolding attach_app_tap
attach_app_tap-IsRouted p h =
    if_holds IsRouted (not (is_some p.app_out) || is_some p.app_tap || not p.has_tracks) p
      (record p { app_tap = some (unless_muted p.muted (level p)) }) (λ e. h)
      (λ e.
        new_tap-IsRoutedAs p.muted p.element_muted p.app_out p.app_tap (level p) (ground arith) h)

apply_unless_muted-IsRouted : (p : Peer) (v : ℕ) → IsRouted p → IsRouted (apply_unless_muted p v)
unfolding apply_unless_muted
apply_unless_muted-IsRouted p v h =
    if_holds IsRouted (not p.muted) (apply_gain p v) p (λ e. apply_gain-IsRouted p v h) (λ e. h)

fresh_route : (m : Bool) (o : Option ℕ) → IsRoutedAs m (if is_some o then true else m) o none
fresh_route m none = (λ e. (e, tt), λ e. ground arith, λ e. e)
fresh_route m (some a) = (λ e. (refl, tt), λ e. refl, λ e. ground arith)

set_app_output-IsRouted : (p : Peer) (out : Option ℕ) → IsRouted p → IsRouted (set_app_output p out)
unfolding set_app_output
set_app_output-IsRouted p out h =
    let q : Peer = record p {
      app_tap = none;
      app_out = out;
      element_muted = if is_some out then true else p.muted;
    } in
    if_holds IsRouted (same_output out p.app_out) p
      (apply_gain (attach_app_tap q) (level (attach_app_tap q))) (λ e. h)
      (λ e.
        apply_gain-IsRouted (attach_app_tap q) (level (attach_app_tap q))
          (attach_app_tap-IsRouted q (fresh_route p.muted out)))

set_volume-IsRouted :
    (p : Peer) (volume : ℤ) (now : ℕ) → IsRouted p → IsRouted (set_volume p volume now)
unfolding set_volume
set_volume-IsRouted p volume now h =
    let q : Peer = record p { target = clamp volume } in
    let r : Peer = record q { smoothed = some (clamp volume); last_set_ms = now } in
    if_holds IsRouted (is_some p.smoothed) q (apply_unless_muted r (clamp volume)) (λ e. h)
      (λ e. apply_unless_muted-IsRouted r (clamp volume) h)

ensure_playing-IsRouted : (p : Peer) (now : ℕ) → IsRouted p → IsRouted (ensure_playing p now).0
unfolding ensure_playing
ensure_playing-IsRouted p now h =
    if_holds (λ (r : Peer × Bool). IsRouted r.0) (p.muted || p.target == 0 || not p.element_paused)
      (p, false) _ (λ e. h)
      (λ e.
        if_holds (λ (r : Peer × Bool). IsRouted r.0) (not p.has_tracks) (p, false) _ (λ e. h)
          (λ e.
            if_holds (λ (r : Peer × Bool). IsRouted r.0) (retried_lately p.last_play_retry now)
              (p, false) (record p { last_play_retry = some now }, true) (λ e. h) (λ e. h)))

mute-IsRoutedAs :
    (o t : Option ℕ) → (is_some t ≡ true → is_some o ≡ true) → IsRoutedAs true true o (set_gain t 0)
mute-IsRoutedAs o none h = (λ e. (refl, tt), λ e. refl, h)
mute-IsRoutedAs o (some g) h = (λ e. (refl, refl), λ e. refl, h)

unmute-IsRouted : (p : Peer) → IsRouted p → IsRouted (unmute p)
unfolding unmute
unmute-IsRouted p h =
    let q : Peer = record p { muted = false; element_muted = is_some p.app_out } in
    apply_gain-IsRouted q (level q) (λ e. ground arith, λ e. e, h.2)

on_connection_state-IsRouted :
    (p : Peer) (state : ConnectionState) → IsRouted p → IsRouted (on_connection_state p state).0
unfolding on_connection_state
on_connection_state-IsRouted p ConnectionState.connected h = h
on_connection_state-IsRouted p ConnectionState.failed h =
    if_holds (λ (r : Peer × Bool). IsRouted r.0) (ltb p.ice_restarts max_ice_restarts)
      (record p { ice_restarts = p.ice_restarts + 1 }, true) (p, false) (λ e. h) (λ e. h)
on_connection_state-IsRouted p ConnectionState.between h = h

module _ (approach : (falling : Bool) → (elapsed_ms : ℕ) → ℕ) where
  glide-IsRouted : (p : Peer) (v now : ℕ) → IsRouted p → IsRouted (glide approach p v now)
  unfolding glide
  glide-IsRouted p v now h =
      if_holds IsRouted (v == p.target) (record p { last_set_ms = now }) _ (λ e. h)
        (λ e. apply_unless_muted-IsRouted _ _ h)

  step_from-IsRouted :
      (p : Peer) (o : Option ℕ) (now : ℕ) → IsRouted p → IsRouted (step_from approach p o now)
  unfolding step_from
  step_from-IsRouted p none now h = h
  step_from-IsRouted p (some v) now h =
      glide-IsRouted (ensure_playing p now).0 v now (ensure_playing-IsRouted p now h)

  pub step_volume-IsRouted :
      (p : Peer) (now : ℕ) → IsRouted p → IsRouted (step_volume approach p now)
  unfolding step_volume
  step_volume-IsRouted p now h = step_from-IsRouted p p.smoothed now h

  unfoldable pub on_event : Peer → PeerEvent → Peer
  on_event p (routes out) = set_app_output p out
  on_event p gets_track = on_track p
  on_event p mutes = mute p
  on_event p unmutes = unmute p
  on_event p closes = close p
  on_event p (hears volume now) = set_volume p volume now
  on_event p (ticks now) = step_volume approach p now
  on_event p (changes state) = (on_connection_state p state).0

  on_event-IsRouted : (p : Peer) (e : PeerEvent) → IsRouted p → IsRouted (on_event p e)
  unfolding on_event on_track mute close
  on_event-IsRouted p (routes out) h = set_app_output-IsRouted p out h
  on_event-IsRouted p gets_track h = attach_app_tap-IsRouted (record p { has_tracks = true }) h
  on_event-IsRouted p mutes h = mute-IsRoutedAs p.app_out p.app_tap h.2
  on_event-IsRouted p unmutes h = unmute-IsRouted p h
  on_event-IsRouted p closes h = (λ e. ((h.0 e).0, tt), h.1, λ e. ground arith)
  on_event-IsRouted p (hears volume now) h = set_volume-IsRouted p volume now h
  on_event-IsRouted p (ticks now) h = step_volume-IsRouted p now h
  on_event-IsRouted p (changes state) h = on_connection_state-IsRouted p state h

  unfoldable pub after : Peer → List PeerEvent → Peer
  unfolding on_event
  after p [] = p
  after p (e ∷ events) = after (on_event p e) events

  pub after-IsRouted : (p : Peer) (events : List PeerEvent) → IsRouted p → IsRouted (after p events)
  unfolding after
  after-IsRouted p [] h = h
  after-IsRouted p (e ∷ events) h = after-IsRouted (on_event p e) events (on_event-IsRouted p e h)

  -- After whatever has happened to a peer: while it is muted, neither the element nor the tap plays
  -- its voice; and at no time do both play it.
  pub after-quiet :
      (events : List PeerEvent)
      → let p = after new_peer events in
        ((p.muted ≡ false) ⊎ ((element_level p ≡ 0) × (tap_level p ≡ 0)))
        × ((element_level p ≡ 0) ⊎ (tap_level p ≡ 0))
  after-quiet events =
      let p : Peer = after new_peer events in
      let h : IsRouted p = after-IsRouted new_peer events new_peer-IsRouted in
      levels p.muted p.element_muted p.app_out p.app_tap p.element_volume h
