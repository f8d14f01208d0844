-- ===== src/Handler/Isolation.antt =====
-- Who is sent what (server/src/ws-handler.ts): a frame reaches its sender and members of its
-- sender's rooms, under its sender's own name.
use lo_lprox_chat.Common.{
  ℕ, String, ◌≡◌, ◌≢◌, refl, Bool, true, false, not, Option, none, some, arith, ◌==◌, nat_eq,
  nat_beq_iff, string_eq, if_holds, Bool-cases, inl, inr, List, map, filter, All, In, In-filter,
}
use lo_lprox_chat.Common.Dict.{lookup}
use lo_lprox_chat.Json.{Json, str, is_true}
use lo_lprox_chat.Client.{Client, Point}
use lo_lprox_chat.Messages.{
  ClientMessage, Effect, sends, closes, terminates_after, peer_joined, peer_left, signal, position,
  room_state, error, reset, ErrorText,
}
use lo_lprox_chat.Rooms.{
  Rooms, members, get_client_info, get_others_in_room, find_in_room, too_soon, sender_reset_allowed,
  try_stamp_room_reset, stamp_sender_reset,
}
use lo_lprox_chat.Rooms.Entries.{find-In}
use lo_lprox_chat.Handshake.{Outcome, send_error, evict, takeover_close_code}
use lo_lprox_chat.Handshake.Sending.{send-All, broadcast-All}
use lo_lprox_chat.Client.{read_point}
use lo_lprox_chat.Json.{is_falsy}
use lo_lprox_chat.Handler.{
  opted_in, find_target, signal_to, signal_effects, position_effects, shared_reset_as, relay_reset,
  reset_all_as, store_coords, coords_as, shared_reset_room_ms, shared_reset_sender_ms,
}

-- `w` is the socket of a member of `room`.
abbrev pub IsIn : Rooms → String → ℕ → Type 0
IsIn s room w = (c : Client) × In c (map s.heap (members s room)) × (c.ws ≡ w)

-- In the rooms `s` the socket `ws` is in a room under the name `name`, and `w` is another socket
-- of that room.
abbrev pub IsPeer : Rooms → ℕ → String → ℕ → Type 0
IsPeer s ws name w =
    (me : Client) × (get_client_info s ws ≡ some me)
    × (me.name ≡ name)
    × IsIn s me.room_id w
    × (w ≢ ws)

-- Both have opted in to shared RESET.
abbrev pub HaveOptedIn : Rooms → ℕ → ℕ → Type 0
HaveOptedIn s ws w =
    (me : Client) × (peer : Client) × (get_client_info s ws ≡ some me)
    × (opted_in me ≡ true)
    × In peer (get_others_in_room s ws)
    × (peer.ws ≡ w)
    × (opted_in peer ≡ true)

-- What the frame of the socket `ws` may lead to, from the rooms `s` to the rooms `t`.
abbrev pub IsAllowed : Rooms → Rooms → ℕ → Effect → Type 0
IsAllowed s t ws (sends w (error text)) = w ≡ ws
IsAllowed s t ws (sends w (room_state peers)) = w ≡ ws
IsAllowed s t ws (sends w (peer_joined name)) = IsPeer t ws name w
IsAllowed s t ws (sends w (peer_left name)) =
    (me : Client) × (get_client_info s ws ≡ some me) × (me.name ≡ name) × IsIn s me.room_id w
IsAllowed s t ws (sends w (signal from payload)) =
    (me : Client) × (get_client_info s ws ≡ some me) × (me.name ≡ from) × IsIn s me.room_id w
IsAllowed s t ws (sends w (position from blob)) = IsPeer s ws from w
IsAllowed s t ws (sends w (reset from)) = IsPeer s ws from w × HaveOptedIn s ws w
IsAllowed s t ws (closes w code) = (w ≢ ws) × (code ≡ takeover_close_code)
IsAllowed s t ws (terminates_after w delay) = w ≢ ws

-- The others in a room are members of it with other sockets.
pub get_others-In :
    (s : Rooms) (ws : ℕ) (me c : Client)
    → get_client_info s ws ≡ some me
    → In c (get_others_in_room s ws)
    → IsIn s me.room_id c.ws × (c.ws ≢ ws)
unfolding get_others_in_room
get_others-In s ws me c e m =
    let m' : In c (filter (λ d. not (d.ws == ws)) (map s.heap (members s me.room_id))) =
      rw (e, get_others_in_room) at m in
    let (here, apart) =
      In-filter (λ d. not (d.ws == ws)) (map s.heap (members s me.room_id)) c m' in
    ((c, here, refl), λ q. ground (arith, nat_beq_iff c.ws ws))

pub error-IsAllowed :
    (is_open : ℕ → Bool) (s t : Rooms) (ws : ℕ) (text : ErrorText)
    → All (IsAllowed s t ws) (send_error is_open ws text)
unfolding send_error
error-IsAllowed is_open s t ws text =
    send-All is_open (IsAllowed s t ws) ws (error text) (λ _. refl)

-- A stamp of a reset changes no membership.
pub stamped_others :
    (s : Rooms) (ws : ℕ) (room name r : String) (now cooldown_ms : ℕ)
    → get_others_in_room
        (stamp_sender_reset (try_stamp_room_reset s room now cooldown_ms).0 r name now)
        ws
      ≡ get_others_in_room s ws
unfolding stamp_sender_reset try_stamp_room_reset get_others_in_room get_client_info
stamped_others s ws room name r now cooldown_ms =
    elim (Bool-cases (too_soon now cooldown_ms (lookup room s.room_reset_ms))) [
      | inl e ↦ rw (e, try_stamp_room_reset)
      | inr e ↦ rw (e, try_stamp_room_reset)
    ]

find_target-In :
    (s : Rooms) (room : String) (to : Json) (c : Client)
    → find_target s room to ≡ some c
    → IsIn s room c.ws
unfolding find_target find_in_room
find_target-In s room (str name) c e =
    (c, find-In (λ d. d.name == name) (map s.heap (members s room)) c e, refl)
find_target-In s room _ c e = absurd (ground arith)

module _ (is_open : ℕ → Bool) (s : Rooms) (ws : ℕ) where
  abbrev Allowed : Rooms → List Effect → Type 0
  Allowed t = All (IsAllowed s t ws)

  pub evict-Allowed : (t : Rooms) (o : Option Client) → Allowed t (evict is_open ws o)
  unfolding evict
  evict-Allowed t none = tt
  evict-Allowed t (some c) = elim (Bool-cases (c.ws == ws)) [
    | inl e ↦ rw e tt
    | inr e ↦
        let n : c.ws ≢ ws = λ q. ground (arith, nat_beq_iff c.ws ws) in rw e ((n, refl), (n, tt))
  ]

  others-allowed :
      (me c : Client)
      → get_client_info s ws ≡ some me
      → In c (get_others_in_room s ws)
      → IsPeer s ws me.name c.ws
  others-allowed me c e m = let (here, n) = get_others-In s ws me c e m in (me, e, refl, here, n)

  pub position-Allowed :
      (m : ClientMessage) (o : Option Client)
      → get_client_info s ws ≡ o
      → Allowed s (position_effects is_open s ws m o)
  unfolding position_effects
  position-Allowed m none e = error-IsAllowed is_open s s ws _
  position-Allowed m (some me) e =
      broadcast-All is_open (IsAllowed s s ws) (position me.name m.blob) (get_others_in_room s ws)
        λ c k _. others-allowed me c e k

  signal_to-Allowed :
      (me : Client) (m : ClientMessage) (o : Option Client)
      → get_client_info s ws ≡ some me
      → find_target s me.room_id m.to ≡ o
      → Allowed s (signal_to is_open ws me.name m o)
  unfolding signal_to
  signal_to-Allowed me m none e f = error-IsAllowed is_open s s ws _
  signal_to-Allowed me m (some target) e f = elim (Bool-cases (is_open target.ws)) [
    | inl q ↦ rw q ((me, e, refl, find_target-In s me.room_id m.to target f), tt)
    | inr q ↦ rw q (error-IsAllowed is_open s s ws _)
  ]

  pub signal-Allowed :
      (m : ClientMessage) (o : Option Client)
      → get_client_info s ws ≡ o
      → Allowed s (signal_effects is_open s ws m o)
  unfolding signal_effects
  signal-Allowed m none e = error-IsAllowed is_open s s ws _
  signal-Allowed m (some me) e =
      if_holds (Allowed s) (is_falsy m.to) _ _ (λ _. error-IsAllowed is_open s s ws _)
        λ _. signal_to-Allowed me m (find_target s me.room_id m.to) e refl

  relay-Allowed :
      (t u : Rooms) (now : ℕ) (me : Client) (stamped : Bool)
      → get_client_info s ws ≡ some me
      → opted_in me ≡ true
      → get_others_in_room (stamp_sender_reset t me.room_id me.name now) ws
        ≡ get_others_in_room s ws
      → Allowed u (relay_reset is_open ws now me (t, stamped)).1
  unfolding relay_reset
  relay-Allowed t u now me false e on same = tt
  relay-Allowed t u now me true e on same =
      broadcast-All is_open (IsAllowed s u ws) (reset me.name)
        (filter opted_in (get_others_in_room (stamp_sender_reset t me.room_id me.name now) ws))
        λ c k _.
          let (here, yes_c) = In-filter opted_in _ c k in
          let here' = rw same at here in
          (others-allowed me c e here', (me, c, e, on, here', refl, yes_c))

  pub reset_all-Allowed :
      (u : Rooms) (now : ℕ) (o : Option Client)
      → get_client_info s ws ≡ o
      → Allowed u (reset_all_as is_open s ws now o).1
  unfolding reset_all_as
  reset_all-Allowed u now none e = error-IsAllowed is_open s u ws _
  reset_all-Allowed u now (some me) e = elim (Bool-cases (opted_in me)) [
    | inl on ↦ rw on (
        if_holds (λ (o : Outcome). Allowed u o.1)
          (not (sender_reset_allowed s me.room_id me.name now shared_reset_sender_ms)) _ _ (λ _. tt)
          λ _.
            relay-Allowed (try_stamp_room_reset s me.room_id now shared_reset_room_ms).0 u now me
              (try_stamp_room_reset s me.room_id now shared_reset_room_ms).1 e on
              (stamped_others s ws me.room_id me.name me.room_id now shared_reset_room_ms))
    | inr off ↦ rw off tt
  ]

  store_coords-Allowed :
      (u : Rooms) (now : ℕ) (m : ClientMessage) (p : Option Point)
      → Allowed u (store_coords is_open s ws now m p).1
  unfolding store_coords
  store_coords-Allowed u now m none = error-IsAllowed is_open s u ws _
  store_coords-Allowed u now m (some p) =
      if_holds (λ (o : Outcome). Allowed u o.1) (is_true m.stale) _ _ (λ _. tt) (λ _. tt)

  pub coords-Allowed :
      (u : Rooms) (now : ℕ) (m : ClientMessage) (o : Option Client)
      → Allowed u (coords_as is_open s ws now m o).1
  unfolding coords_as
  coords-Allowed u now m none = error-IsAllowed is_open s u ws _
  coords-Allowed u now m (some me) = store_coords-Allowed u now m (read_point m.x m.y)

  pub shared_reset-Allowed :
      (u : Rooms) (m : ClientMessage) (o : Option Client)
      → Allowed u (shared_reset_as is_open s ws m o).1
  unfolding shared_reset_as
  shared_reset-Allowed u m none = error-IsAllowed is_open s u ws _
  shared_reset-Allowed u m (some me) = tt
