-- ===== src/Peer.antt =====
-- src/services/peer-connection.ts: how loud a peer is played. Volumes are in millionths of the full
-- volume, times in milliseconds.
pub mod Smooth
pub mod Quiet
pub mod InStep
pub mod Candidates
pub mod Settles
use lo_lprox_chat.Common.{
  ℕ, zero, suc, ◌+◌, ◌-◌, ◌*◌, ◌/◌, min, Bool, true, false, not, ◌&&◌, ◌||◌, Option, none, some,
  ltb, ◌==◌, nat_eq, if◌then◌else◌,
}
use lo_lprox_chat.Common.Int.{ℤ, pos, negsuc, distance_ℤ}
use lo_lprox_chat.Peer.Smooth.{full_volume, clamp, next_smoothed_volume}

-- The fields that playing uses. `app_out` is the output that voices go to in place of the browser,
-- by a number, and `app_tap` the gain of the tap on it; `has_tracks` is whether the remote stream has
-- audio. The element's own `volume`, `muted` and `paused` are the fields that start with `element`.
pub record Peer : Type 0 where
  pub target : ℕ
  pub muted : Bool
  pub smoothed : Option ℕ
  pub last_set_ms : ℕ
  pub app_out : Option ℕ
  pub app_tap : Option ℕ
  pub has_tracks : Bool
  pub last_play_retry : Option ℕ
  pub element_volume : ℕ
  pub element_muted : Bool
  pub element_paused : Bool
  pub ice_restarts : ℕ

abbrev pub new_peer : Peer
new_peer = record {
  target = 0;
  muted = false;
  smoothed = none;
  last_set_ms = 0;
  app_out = none;
  app_tap = none;
  has_tracks = false;
  last_play_retry = none;
  element_volume = 0;
  element_muted = false;
  element_paused = true;
  ice_restarts = 0;
}

abbrev pub is_some {ℓ} : {A : Type ℓ} → Option A → Bool
is_some none = false
is_some (some _) = true

-- `smoothedVolume ?? targetVolume`.
abbrev pub level : Peer → ℕ
level p = elim p.smoothed [ none ↦ p.target | some v ↦ v ]

-- `this.muted ? 0 : v`.
abbrev pub unless_muted : Bool → ℕ → ℕ
unless_muted muted v = if muted then 0 else v

-- `appTap?.setGain(v)`.
abbrev pub set_gain : Option ℕ → ℕ → Option ℕ
set_gain none v = none
set_gain (some _) v = some v

unfoldable pub apply_gain : Peer → ℕ → Peer
apply_gain p value =
    let v = min full_volume value in
    if is_some p.app_out
    then record p { app_tap = set_gain p.app_tap (unless_muted p.muted v) }
    else record p { element_volume = v }

unfoldable pub attach_app_tap : Peer → Peer
attach_app_tap p =
    if not (is_some p.app_out) || is_some p.app_tap || not p.has_tracks
    then p
    else record p { app_tap = some (unless_muted p.muted (level p)) }

abbrev pub same_output : Option ℕ → Option ℕ → Bool
same_output none none = true
same_output (some a) (some b) = a == b
same_output _ _ = false

unfoldable pub set_app_output : Peer → Option ℕ → Peer
unfolding apply_gain attach_app_tap
set_app_output p out =
    if same_output out p.app_out
    then p
    else let q = attach_app_tap (record p {
      app_tap = none;
      app_out = out;
      element_muted = if is_some out then true else p.muted;
    }) in
      apply_gain q (level q)

-- `ontrack`.
unfoldable pub on_track : Peer → Peer
unfolding attach_app_tap
on_track p = attach_app_tap (record p { has_tracks = true })

-- `PLAY_RETRY_MS`.
abbrev pub play_retry_ms : ℕ
play_retry_ms = 2000

abbrev pub retried_lately : Option ℕ → ℕ → Bool
retried_lately none now = false
retried_lately (some last) now = ltb (now - last) play_retry_ms

-- With whether the element is asked to play.
unfoldable pub ensure_playing : Peer → ℕ → Peer × Bool
ensure_playing p now =
    if p.muted || p.target == 0 || not p.element_paused
    then (p, false)
    else if not p.has_tracks
    then (p, false)
    else if retried_lately p.last_play_retry now
    then (p, false)
    else (record p { last_play_retry = some now }, true)

-- `if (!this.muted) this.applyGain(v)`.
unfoldable pub apply_unless_muted : Peer → ℕ → Peer
unfolding apply_gain
apply_unless_muted p v = if not p.muted then apply_gain p v else p

unfoldable pub set_volume : Peer → ℤ → ℕ → Peer
unfolding apply_unless_muted
set_volume p volume now =
    let q = record p { target = clamp volume } in
    if is_some p.smoothed
    then q
    else apply_unless_muted (record q { smoothed = some (clamp volume); last_set_ms = now })
        (clamp volume)

-- Near enough to the target (0.005) is there.
unfoldable pub settle : ℕ → ℕ → ℕ
settle v target = if ltb (distance_ℤ (pos v) (pos target)) 5000 then target else v

-- `approach` is 1 - e^(-t / tau) for the elapsed time, by the direction.
module _ (approach : (falling : Bool) → (elapsed_ms : ℕ) → ℕ) where
  unfoldable pub glide : Peer → ℕ → ℕ → Peer
  unfolding settle apply_unless_muted
  glide p v now =
      if v == p.target
      then record p { last_set_ms = now }
      else let w =
          settle (next_smoothed_volume approach (some v) (pos p.target) now p.last_set_ms)
            p.target in
        apply_unless_muted (record p { smoothed = some w; last_set_ms = now }) w

  unfoldable pub step_from : Peer → Option ℕ → ℕ → Peer
  unfolding glide ensure_playing
  step_from p none now = p
  step_from p (some v) now = glide (ensure_playing p now).0 v now

  -- One tick.
  unfoldable pub step_volume : Peer → ℕ → Peer
  unfolding step_from
  step_volume p now = step_from p p.smoothed now

unfoldable pub mute : Peer → Peer
mute p = record p { muted = true; element_muted = true; app_tap = set_gain p.app_tap 0 }

unfoldable pub unmute : Peer → Peer
unfolding apply_gain
unmute p =
    let q = record p { muted = false; element_muted = is_some p.app_out } in apply_gain q (level q)

-- `pc.connectionState`.
pub data ConnectionState : Type 0 where
  connected failed between : ConnectionState

-- `MAX_ICE_RESTARTS`.
abbrev pub max_ice_restarts : ℕ
max_ice_restarts = 2

-- `onconnectionstatechange`, with whether a restart is asked for.
unfoldable pub on_connection_state : Peer → ConnectionState → Peer × Bool
on_connection_state p connected = (record p { ice_restarts = 0 }, false)
on_connection_state p failed =
    if ltb p.ice_restarts max_ice_restarts
    then (record p { ice_restarts = p.ice_restarts + 1 }, true)
    else (p, false)
on_connection_state p between = (p, false)

-- `close`. The tracks are stopped, but stay in the stream.
unfoldable pub close : Peer → Peer
close p = record p { app_tap = none; element_paused = true }
