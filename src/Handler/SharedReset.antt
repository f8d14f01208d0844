-- ===== src/Handler/SharedReset.antt =====
-- The shared RESET of server/src/ws-handler.ts: when it is relayed, and how often.
use lo_lprox_chat.Common.{
  ℕ, ◌+◌, ◌<◌, String, ◌≡◌, refl, ap, ◌∙◌, Bool, true, false, not, ◌&&◌, Option, some, arith,
  nat_eq, string_eq, lt→ltb, Bool-cases, inl, inr, ◌⊎◌, List, [], filter,
}
use lo_lprox_chat.Common.Dict.{lookup, insert, lookup-insert_self}
use lo_lprox_chat.Client.{Client}
use lo_lprox_chat.Messages.{Effect, reset}
use lo_lprox_chat.Rooms.{
  Rooms, get_client_info, get_others_in_room, bind, or_nil, too_soon, try_stamp_room_reset,
  sender_reset_allowed, stamp_sender_reset,
}
use lo_lprox_chat.Handshake.{broadcast}
use lo_lprox_chat.Handler.{
  opted_in, relay_reset, reset_all_as, handle_reset_all, shared_reset_room_ms,
  shared_reset_sender_ms,
}
use lo_lprox_chat.Handler.Isolation.{stamped_others}

-- When a shared RESET of a name was last relayed in a room.
abbrev pub sender_last : Rooms → String → String → Option ℕ
sender_last s room name = bind (lookup room s.sender_reset_ms) (lookup name)

abbrev pub room_free : Rooms → String → ℕ → Bool
room_free s room now = not (too_soon now shared_reset_room_ms (lookup room s.room_reset_ms))

-- The three conditions on which a shared RESET is relayed.
abbrev pub may_reset : Rooms → Client → ℕ → Bool
may_reset s me now =
    opted_in me
    && sender_reset_allowed s me.room_id me.name now shared_reset_sender_ms
    && room_free s me.room_id now

stamped_last :
    (s : Rooms) (room name : String) (now : ℕ)
    → (sender_last (stamp_sender_reset s room name now) room name ≡ some now)
      × ((stamp_sender_reset s room name now).room_reset_ms ≡ s.room_reset_ms)
unfolding stamp_sender_reset
stamped_last s room name now = (
  rw
      (lookup-insert_self room (insert name now (or_nil (lookup room s.sender_reset_ms)))
        s.sender_reset_ms)
      (lookup-insert_self name now (or_nil (lookup room s.sender_reset_ms))),
  refl,
)

stamped_room :
    (s : Rooms) (room : String) (now : ℕ)
    → room_free s room now ≡ true
    → let t = try_stamp_room_reset s room now shared_reset_room_ms in
      (t.1 ≡ true) × (lookup room t.0.room_reset_ms ≡ some now)
unfolding try_stamp_room_reset
stamped_room s room now e =
    let free : too_soon now shared_reset_room_ms (lookup room s.room_reset_ms) ≡ false =
      ground arith in
    rw (free, try_stamp_room_reset) (refl, lookup-insert_self room now s.room_reset_ms)

relay_stamped :
    (is_open : ℕ → Bool) (ws now : ℕ) (me : Client) (t : Rooms × Bool)
    → t.1 ≡ true
    → let u = stamp_sender_reset t.0 me.room_id me.name now in
      relay_reset is_open ws now me t
      ≡ (u, broadcast is_open (reset me.name) (filter opted_in (get_others_in_room u ws)))
unfolding relay_reset
relay_stamped is_open ws now me (t, true) e = refl
relay_stamped is_open ws now me (t, false) e = absurd (ground arith)

module _ (is_open : ℕ → Bool) (s : Rooms) (ws now : ℕ) (me : Client)
    (here : get_client_info s ws ≡ some me) where
  abbrev out : Rooms × List Effect
  out = handle_reset_all is_open s ws now

  refused : may_reset s me now ≡ false → out ≡ (s, [])
  unfolding handle_reset_all reset_all_as relay_reset try_stamp_room_reset
  refused e = rw (here, reset_all_as) (ground arith)

  relayed :
      may_reset s me now ≡ true
      → (out.1 ≡ broadcast is_open (reset me.name) (filter opted_in (get_others_in_room s ws)))
        × (lookup me.room_id out.0.room_reset_ms ≡ some now)
        × (sender_last out.0 me.room_id me.name ≡ some now)
  unfolding handle_reset_all reset_all_as
  relayed e =
      let on : opted_in me ≡ true = ground arith in
      let allowed : sender_reset_allowed s me.room_id me.name now shared_reset_sender_ms ≡ true =
        ground arith in
      let t = try_stamp_room_reset s me.room_id now shared_reset_room_ms in
      let stamped : (t.1 ≡ true) × (lookup me.room_id t.0.room_reset_ms ≡ some now) =
        stamped_room s me.room_id now (ground arith) in
      let u = stamp_sender_reset t.0 me.room_id me.name now in
      rw (here, reset_all_as, on, allowed, relay_stamped is_open ws now me t stamped.0)
        (
          ap (λ cs. broadcast is_open (reset me.name) (filter opted_in cs))
              (stamped_others s ws me.room_id me.name me.room_id now shared_reset_room_ms),
          ap (lookup me.room_id) (stamped_last t.0 me.room_id me.name now).1 ∙ stamped.1,
          (stamped_last t.0 me.room_id me.name now).0,
        )

  -- A shared RESET of a socket in a room is relayed on three conditions: its client has opted in,
  -- had none relayed in this room for 30 s, and the room had none for 15 s. It then goes, under the
  -- sender's name, to the others of the room who have opted in, and both times are noted. Otherwise
  -- nothing is sent and nothing changes.
  pub handle_reset_all_lem :
      ((may_reset s me now ≡ true)
        × (out.1 ≡ broadcast is_open (reset me.name) (filter opted_in (get_others_in_room s ws)))
        × (lookup me.room_id out.0.room_reset_ms ≡ some now)
        × (sender_last out.0 me.room_id me.name ≡ some now))
      ⊎ ((may_reset s me now ≡ false) × (out ≡ (s, [])))
  handle_reset_all_lem = elim (Bool-cases (may_reset s me now)) [
    | inl e ↦ let (sent, room_now, sender_now) = relayed e in inl (e, sent, room_now, sender_now)
    | inr e ↦ inr (e, refused e)
  ]

too_soon_early :
    (later cooldown_ms now : ℕ) (o : Option ℕ)
    → o ≡ some now
    → later < now + cooldown_ms
    → too_soon later cooldown_ms o ≡ true
unfolding too_soon
too_soon_early later cooldown_ms now o e h = rw (e, too_soon) (lt→ltb later (now + cooldown_ms) h)

-- After a relay at `now` no client of the room has one relayed for 15 s, and the same name none for
-- 30 s, in any later state that still has the room's and the name's times.
pub handle_reset_all_cooldown :
    (is_open : ℕ → Bool) (s t : Rooms) (ws later_ws now later : ℕ) (me you : Client)
    → get_client_info s ws ≡ some me
    → may_reset s me now ≡ true
    → get_client_info t later_ws ≡ some you
    → you.room_id ≡ me.room_id
    → let u = (handle_reset_all is_open s ws now).0 in
      lookup me.room_id t.room_reset_ms ≡ lookup me.room_id u.room_reset_ms
      → sender_last t me.room_id me.name ≡ sender_last u me.room_id me.name
      → (later < now + 15000) ⊎ ((you.name ≡ me.name) × (later < now + 30000))
      → handle_reset_all is_open t later_ws later ≡ (t, [])
unfolding sender_reset_allowed
handle_reset_all_cooldown is_open s t ws later_ws now later me you here may there same rooms senders
      early =
    let (_, room_now, sender_now) = relayed is_open s ws now me here may in
    refused is_open t later_ws later you there (elim early [
      | inl soon ↦ ground (
        arith,
        too_soon_early later shared_reset_room_ms now (lookup you.room_id t.room_reset_ms)
            (rw same (rooms ∙ room_now)) soon,
      )
      | inr (same_name, soon) ↦ ground (
        arith,
        too_soon_early later shared_reset_sender_ms now (sender_last t you.room_id you.name)
            (rw (same, same_name) (senders ∙ sender_now)) soon,
      )
    ])
