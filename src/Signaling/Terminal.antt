-- ===== src/Signaling/Terminal.antt =====
-- src/services/signaling.ts: a connection that has ended stays ended.
use lo_lprox_chat.Common.{
  ℕ, String, ◌≡◌, refl, Bool, true, Option, none, some, List, [], ◌∷◌, All, All-append, arith, ◌==◌,
  nat_eq, string_eq, if_holds,
}
use lo_lprox_chat.Common.Dict.{lookup}
use lo_lprox_chat.Json.{Json}
use lo_lprox_chat.Signaling.{
  Signaling, new_signaling, Act, opens, sends, waits, Session, open_socket, open_socket_in,
  open_for, join_room, on_open, on_open_of, on_message, read, announce, announce_all, on_close,
  schedule, on_timer, on_timer_of, leave_room, read_by, move, takeover_code, close_old, is_current,
}
use lo_lprox_chat.Signaling.Wire.{Incoming, Outgoing}
use lo_lprox_chat.Signaling.Sending.{
  Event, joins, opened, got, closed, timed_out, leaves, asks_reset, broadcasts, reports,
  shares_reset, tells_reset, signals_to, step, run, write, broadcast_position, send_coords,
  set_shared_reset, request_reset_all, send_signal, set_on_remote_reset,
}

-- No socket is made and no timer set.
abbrev pub IsQuiet : Act → Type 0
IsQuiet (opens w) = ⊥
IsQuiet (waits delay) = ⊥
IsQuiet _ = Unit

abbrev pub IsNoJoin : (ℕ → Bool) × Event → Type 0
IsNoJoin (is_open, joins room name team announces) = ⊥
IsNoJoin (is_open, _) = Unit

-- Whoever has ended on purpose has no timer.
abbrev pub IsTimedRightly : Signaling → Type 0
IsTimedRightly s = s.intentionally_closed ≡ true → s.timer ≡ none

-- Ended on purpose, and no timer.
abbrev pub HasEnded : Signaling → Type 0
HasEnded s = (s.intentionally_closed ≡ true) × (s.timer ≡ none)

-- Out of every room, with no socket.
abbrev pub HasLeft : Signaling → Type 0
HasLeft s = (s.ws ≡ none) × (s.timer ≡ none)

write-IsQuiet :
    (is_open : ℕ → Bool) (ws : Option ℕ) (m : Outgoing) → All IsQuiet (write is_open ws m)
unfolding write
write-IsQuiet is_open none m = tt
write-IsQuiet is_open (some w) m =
    if_holds (All IsQuiet) (is_open w) (sends w m ∷ []) [] (λ _. (tt, tt)) (λ _. tt)

announce-IsQuiet : (c : Session) (local name : String) → All IsQuiet (announce c local name)
unfolding announce
announce-IsQuiet c local name = ground arith

announce_all-IsQuiet :
    (c : Session) (local : String) (peers : List String) → All IsQuiet (announce_all c local peers)
unfolding announce_all
announce_all-IsQuiet c local [] = tt
announce_all-IsQuiet c local (name ∷ peers) =
    All-append IsQuiet (announce c local name) (announce_all c local peers)
      (announce-IsQuiet c local name) (announce_all-IsQuiet c local peers)

close_old-IsQuiet : (ws : Option ℕ) → All IsQuiet (close_old ws)
close_old-IsQuiet none = tt
close_old-IsQuiet (some w) = (tt, tt)

on_open_of-keeps :
    (s : Signaling) (w : ℕ) (c : Option Session)
    → HasEnded s
    → HasEnded (on_open_of s w c).0 × All IsQuiet (on_open_of s w c).1
unfolding on_open_of
on_open_of-keeps s w none h = (h, tt)
on_open_of-keeps s w (some c) h = ground arith

on_close-keeps :
    (s : Signaling) (w code : ℕ)
    → HasEnded s
    → HasEnded (on_close s w code).0 × All IsQuiet (on_close s w code).1
unfolding on_close
on_close-keeps s w code h = ground arith

move-IsQuiet : (o : Option Json) → All IsQuiet (move o)
move-IsQuiet none = tt
move-IsQuiet (some b) = (tt, tt)

module _ (fields : ℕ → Json × Json) (parse : Json → Option Json) where
  read-IsQuiet :
      (s : Signaling) (c : Session) (m : Incoming) → All IsQuiet (read fields parse s c m)
  unfolding read
  read-IsQuiet s c Incoming.unreadable = tt
  read-IsQuiet s c Incoming.unknown = tt
  read-IsQuiet s c (Incoming.peers_in_room peers) = announce_all-IsQuiet c s.local_name peers
  read-IsQuiet s c (Incoming.someone_joined name) = announce-IsQuiet c s.local_name name
  read-IsQuiet s c (Incoming.someone_left name) = (tt, tt)
  read-IsQuiet s c (Incoming.signalled from payload) = (tt, tt)
  read-IsQuiet s c (Incoming.positioned from blob) =
      if_holds (All IsQuiet) (from == s.local_name) [] (move (parse blob)) (λ _. tt)
        (λ _. move-IsQuiet (parse blob))
  read-IsQuiet s c (Incoming.reset_by from) = ground arith
  read-IsQuiet s c Incoming.server_error = tt

  read_by-IsQuiet :
      (s : Signaling) (m : Incoming) (c : Option Session) → All IsQuiet (read_by fields parse s m c)
  read_by-IsQuiet s m none = tt
  read_by-IsQuiet s m (some c) = read-IsQuiet s c m

  on_message-keeps :
      (s : Signaling) (w : ℕ) (m : Incoming)
      → HasEnded s
      → HasEnded (on_message fields parse s w m).0 × All IsQuiet (on_message fields parse s w m).1
  unfolding on_message
  on_message-keeps s w m h = (
    h,
    if_holds (All IsQuiet) (is_current s w) (read_by fields parse s m (lookup w s.sockets)) []
        (λ _. read_by-IsQuiet s m (lookup w s.sockets)) (λ _. tt),
  )

  -- Nothing but a call of `joinRoom` ends the end.
  step-keeps :
      (is_open : ℕ → Bool) (s : Signaling) (e : Event)
      → IsNoJoin (is_open, e)
      → HasEnded s
      → HasEnded (step fields parse is_open s e).0 × All IsQuiet (step fields parse is_open s e).1
  unfolding step on_open on_timer leave_room request_reset_all broadcast_position send_coords
      set_shared_reset set_on_remote_reset send_signal
  step-keeps is_open s (joins room name team announces) no_join h = absurd no_join
  step-keeps is_open s (opened w) no_join h = on_open_of-keeps s w (lookup w s.sockets) h
  step-keeps is_open s (got w m) no_join h = on_message-keeps s w m h
  step-keeps is_open s (closed w code) no_join h = on_close-keeps s w code h
  step-keeps is_open s timed_out no_join h = rw (h.1, on_timer_of) (h, tt)
  step-keeps is_open s leaves no_join h = ((refl, refl), close_old-IsQuiet s.ws)
  step-keeps is_open s asks_reset no_join h =
      ground (arith, write-IsQuiet is_open s.ws Outgoing.reset_all)
  step-keeps is_open s (broadcasts blob) no_join h =
      (h, write-IsQuiet is_open s.ws (Outgoing.position_blob blob))
  step-keeps is_open s (reports x y stale camera ago visible) no_join h =
      (h, write-IsQuiet is_open s.ws _)
  step-keeps is_open s (shares_reset on) no_join h =
      ground (arith, write-IsQuiet is_open s.ws (Outgoing.shared_reset on))
  step-keeps is_open s (tells_reset there) no_join h = (h, tt)
  step-keeps is_open s (signals_to to i) no_join h =
      (h, write-IsQuiet is_open s.ws (Outgoing.signal_to to i))

  run-IsQuiet :
      (s : Signaling) (events : List ((ℕ → Bool) × Event))
      → All IsNoJoin events
      → HasEnded s
      → All IsQuiet (run fields parse s events).1
  unfolding run
  run-IsQuiet s [] no_joins h = tt
  run-IsQuiet s ((is_open, e) ∷ events) no_joins h =
      let one = step-keeps is_open s e no_joins.0 h in
      All-append IsQuiet (step fields parse is_open s e).1
        (run fields parse (step fields parse is_open s e).0 events).1 one.1
        (run-IsQuiet (step fields parse is_open s e).0 events no_joins.1 one.0)

open_for_lem :
    (s : Signaling) (room : Option String) (handlers : Option Bool)
    → ((open_socket_in s room handlers).0.intentionally_closed ≡ s.intentionally_closed)
      × ((open_socket_in s room handlers).0.timer ≡ s.timer)
unfolding open_socket_in open_for
open_for_lem s (some room) (some announces) = ground arith
open_for_lem s (some room) none = (refl, refl)
open_for_lem s none handlers = (refl, refl)

on_open_of-timed :
    (s : Signaling) (w : ℕ) (c : Option Session)
    → IsTimedRightly s
    → IsTimedRightly (on_open_of s w c).0
unfolding on_open_of
on_open_of-timed s w none h = h
on_open_of-timed s w (some c) h = ground arith

on_close-timed :
    (s : Signaling) (w code : ℕ) → IsTimedRightly s → IsTimedRightly (on_close s w code).0
unfolding on_close
on_close-timed s w code h = ground (arith, schedule)

on_timer_of-timed :
    (s : Signaling) (o : Option ℕ) → IsTimedRightly s → IsTimedRightly (on_timer_of s o).0
unfolding on_timer_of open_socket
on_timer_of-timed s none h = h
on_timer_of-timed s (some delay) h =
    λ e. (open_for_lem (record s { timer = none }) s.room s.handlers).1

on_open_of-left :
    (s : Signaling) (w : ℕ) (c : Option Session)
    → HasLeft s
    → HasLeft (on_open_of s w c).0 × ((on_open_of s w c).1 ≡ [])
unfolding on_open_of
on_open_of-left s w none h = (h, refl)
on_open_of-left s w (some c) h = ground arith

module _ (fields : ℕ → Json × Json) (parse : Json → Option Json) where
  step-timed :
      (is_open : ℕ → Bool) (s : Signaling) (e : Event)
      → IsTimedRightly s
      → IsTimedRightly (step fields parse is_open s e).0
  unfolding step join_room open_socket on_open on_message on_timer leave_room request_reset_all
      broadcast_position send_coords set_shared_reset set_on_remote_reset send_signal
  step-timed is_open s (joins room name team announces) h = ground (arith, open_for)
  step-timed is_open s (opened w) h = on_open_of-timed s w (lookup w s.sockets) h
  step-timed is_open s (got w m) h = h
  step-timed is_open s (closed w code) h = on_close-timed s w code h
  step-timed is_open s timed_out h = on_timer_of-timed s s.timer h
  step-timed is_open s leaves h = λ e. refl
  step-timed is_open s asks_reset h = ground arith
  step-timed is_open s (broadcasts blob) h = h
  step-timed is_open s (reports x y stale camera ago visible) h = h
  step-timed is_open s (shares_reset on) h = ground arith
  step-timed is_open s (tells_reset there) h = h
  step-timed is_open s (signals_to to i) h = h

  run-timed :
      (s : Signaling) (events : List ((ℕ → Bool) × Event))
      → IsTimedRightly s
      → IsTimedRightly (run fields parse s events).0
  unfolding run
  run-timed s [] h = h
  run-timed s ((is_open, e) ∷ events) h =
      run-timed (step fields parse is_open s e).0 events (step-timed is_open s e h)

  -- Who has left does nothing, whatever comes.
  step-left :
      (is_open : ℕ → Bool) (s : Signaling) (e : Event)
      → IsNoJoin (is_open, e)
      → HasLeft s
      → HasLeft (step fields parse is_open s e).0 × ((step fields parse is_open s e).1 ≡ [])
  unfolding step on_open on_message on_close on_timer leave_room request_reset_all
      broadcast_position send_coords set_shared_reset set_on_remote_reset send_signal
  step-left is_open s (joins room name team announces) no_join h = absurd no_join
  step-left is_open s (opened w) no_join h = on_open_of-left s w (lookup w s.sockets) h
  step-left is_open s (got w m) no_join h = (h, rw h.0 refl)
  step-left is_open s (closed w code) no_join h = ground arith
  step-left is_open s timed_out no_join h = rw (h.1, on_timer_of) (h, refl)
  step-left is_open s leaves no_join h = ((refl, refl), rw h.0 refl)
  step-left is_open s asks_reset no_join h = ground (arith, write)
  step-left is_open s (broadcasts blob) no_join h = (h, rw (h.0, write) refl)
  step-left is_open s (reports x y stale camera ago visible) no_join h = (h, rw (h.0, write) refl)
  step-left is_open s (shares_reset on) no_join h = ground (arith, write)
  step-left is_open s (tells_reset there) no_join h = (h, refl)
  step-left is_open s (signals_to to i) no_join h = (h, rw (h.0, write) refl)

  run-left :
      (s : Signaling) (events : List ((ℕ → Bool) × Event))
      → All IsNoJoin events
      → HasLeft s
      → (run fields parse s events).1 ≡ []
  unfolding run
  run-left s [] no_joins h = refl
  run-left s ((is_open, e) ∷ events) no_joins h =
      let one = step-left is_open s e no_joins.0 h in
      rw (one.1, run-left (step fields parse is_open s e).0 events no_joins.1 one.0) refl

  on_close-ends :
      (s : Signaling) (w : ℕ)
      → s.ws ≡ some w
      → IsTimedRightly s
      → HasEnded (on_close s w takeover_code).0
  unfolding on_close
  on_close-ends s w here h = ground arith

  -- However a client got to have a socket: once it leaves it does nothing at all, and once that socket
  -- is closed with the code of a takeover it makes no socket and sets no timer, until it is told to
  -- join a room again.
  pub run-ended :
      (before after : List ((ℕ → Bool) × Event)) (w : ℕ)
      → (run fields parse new_signaling before).0.ws ≡ some w
      → All IsNoJoin after
      → let s = (run fields parse new_signaling before).0 in
        ((run fields parse (leave_room s).0 after).1 ≡ [])
        × All IsQuiet (run fields parse (on_close s w takeover_code).0 after).1
  unfolding leave_room
  run-ended before after w here no_joins =
      let s : Signaling = (run fields parse new_signaling before).0 in
      (
        run-left (leave_room s).0 after no_joins (refl, refl),
        run-IsQuiet fields parse (on_close s w takeover_code).0 after no_joins
            (on_close-ends s w here (run-timed new_signaling before (λ e. refl))),
      )
