-- ===== src/Server/Reachable.antt =====
-- Every state that the server of server/src/index.ts gets into.
use lo_lprox_chat.Common.{
  ℕ, ◌+◌, ◌≤◌, ◌<◌, String, ◌≡◌, ◌≢◌, refl, sym, ◌∙◌, Bool, Option, none, some, List, [], arith,
  ◌==◌, nat_eq, string_eq, nat_beq_iff, if◌then◌else◌, if_holds, Bool-cases, inl, inr,
}
use text.Mathlib.TextEquality.{eq_iff}
use lo_lprox_chat.Common.Dict.{
  Dict, lookup, insert, lookup-insert, lookup-erase, HasKeysApart, insert-HasKeysApart,
  erase-HasKeysApart,
}
use lo_lprox_chat.Rooms.Invariant.{Inv, no_rooms-Inv}
use lo_lprox_chat.Limits.Bucket.{try_consume, ws_messages}
use lo_lprox_chat.Limits.Concurrency.{count, acquire, ws_per_ip, acquire_lem, release_lem}
use lo_lprox_chat.Messages.{Frame, Effect}
use lo_lprox_chat.Heartbeat.{mark_alive, track, sweep}
use lo_lprox_chat.Limits.Rejections.{Counters, bump, ws_per_ip as ws_per_ip_reason}
use lo_lprox_chat.Rooms.Leave.{leave-Inv}
use lo_lprox_chat.Handshake.{on_close}
use lo_lprox_chat.Handler.Preserved.{handle_frame-Inv}
use lo_lprox_chat.Handler.Registered.{handle_frame-RegistersOnly, leave-clients}
use lo_lprox_chat.Server.{
  Server, new_server, Connection, Event, connected, received, ponged, closed, swept, step, step_as,
  on_message, on_connection, on_closed, pass_message, refuse_message, socket_of, connection_of,
}
use lo_lprox_chat.Server.Connections.{tally, tally-insert_new, tally-insert_old, tally-erase}

-- The rooms are well formed, every address has as many slots taken as sockets that listen, at most
-- 20, and every socket that is in a room listens.
pub record IsSound (s : Server) : Type 0 where
  pub rooms_hold : Inv s.rooms
  pub apart : HasKeysApart s.listening
  pub counted : (ip : String) → count s.connections ip ≡ tally ip s.listening
  pub capped : (ip : String) → tally ip s.listening ≤ 20
  pub listens : (ws : ℕ) → lookup ws s.rooms.clients ≢ none → lookup ws s.listening ≢ none

-- A connection is a socket that was never seen before, or at least does not listen.
abbrev pub IsNew : Server → Event → Type 0
IsNew s (connected ws ip) = lookup ws s.listening ≡ none
IsNew s (received ws now frame) = Unit
IsNew s (ponged ws) = Unit
IsNew s (closed ws) = Unit
IsNew s (swept sockets) = Unit

new_server-IsSound : IsSound new_server
unfolding tally count lookup
new_server-IsSound = record {
  rooms_hold = no_rooms-Inv;
  apart = tt;
  counted = λ ip. refl;
  capped = λ ip. omega arith;
  listens = λ ws h e. h refl;
}

pass_message-IsSound :
    (is_open : ℕ → Bool) (s : Server) (ws now : ℕ) (frame : Frame)
    → lookup ws s.listening ≢ none
    → IsSound s
    → IsSound (pass_message is_open s ws now frame).0
unfolding pass_message
pass_message-IsSound is_open s ws now frame here v = record {
  rooms_hold = handle_frame-Inv is_open s.rooms ws now frame v.rooms_hold;
  apart = v.apart;
  counted = v.counted;
  capped = v.capped;
  listens = λ w h. elim (Bool-cases (w == ws)) [
    | inl e ↦ rw ((nat_beq_iff w ws).0 e) here
    | inr e ↦ v.listens w (
        handle_frame-RegistersOnly is_open ws s.rooms now frame w
          (λ q. ground (arith, e, (nat_beq_iff w ws).1 q)) h)
  ];
}

refuse_message-IsSound :
    (is_open : ℕ → Bool) (s : Server) (ws : ℕ) → IsSound s → IsSound (refuse_message is_open s ws).0
unfolding refuse_message
refuse_message-IsSound is_open s ws v = record {
  rooms_hold = v.rooms_hold;
  apart = v.apart;
  counted = v.counted;
  capped = v.capped;
  listens = v.listens;
}

-- A socket that listens goes on listening with the same address.
relimited-IsSound :
    (s : Server) (ws : ℕ) (c d : Connection) (alive : Dict ℕ Bool)
    → lookup ws s.listening ≡ some c
    → d.ip ≡ c.ip
    → IsSound s
    → IsSound (record s { alive = alive; listening = insert ws d s.listening })
relimited-IsSound s ws c d alive e same v =
    let kept : (ip : String) → tally ip (insert ws d s.listening) ≡ tally ip s.listening =
      λ ip. tally-insert_old ip ws d c s.listening e same in
    record {
      rooms_hold = v.rooms_hold;
      apart = insert-HasKeysApart ws d s.listening v.apart;
      counted = λ ip. v.counted ip ∙ sym (kept ip);
      capped = λ ip. rw (kept ip) (v.capped ip);
      listens = λ w h q. v.listens w h (ground (arith, lookup-insert ws w d s.listening, q));
    }

on_message-IsSound :
    (is_open : ℕ → Bool) (s : Server) (ws now : ℕ) (frame : Frame) (c : Connection)
    → lookup ws s.listening ≡ some c
    → IsSound s
    → IsSound (on_message is_open s ws now frame c).0
unfolding on_message
on_message-IsSound is_open s ws now frame c e v =
    let taken = try_consume ws_messages c.limiter "self" now in
    let d = record c { limiter = taken.0 } in
    let t = record s { alive = mark_alive s.alive ws; listening = insert ws d s.listening } in
    let sound = relimited-IsSound s ws c d (mark_alive s.alive ws) e refl v in
    if_holds (λ (out : Server × List Effect). IsSound out.0) taken.1
      (pass_message is_open t ws now frame) (refuse_message is_open t ws)
      (λ _.
        pass_message-IsSound is_open t ws now frame
          (λ q. ground (arith, lookup-insert ws ws d s.listening, nat_beq_iff ws ws, q)) sound)
      (λ _. refuse_message-IsSound is_open t ws sound)

accepted-IsSound :
    (s : Server) (ws : ℕ) (ip : String) (connections : Dict String ℕ) (alive : Dict ℕ Bool)
    → lookup ws s.listening ≡ none
    → count s.connections ip < 20
    → ((other : String)
        → count connections other
          ≡ (if ip == other then count s.connections ip + 1 else count s.connections other))
    → IsSound s
    → IsSound (record s {
      connections = connections;
      alive = alive;
      listening = insert ws (record { ip = ip; limiter = [] }) s.listening;
    })
accepted-IsSound s ws ip connections alive fresh free more v =
    let c : Connection = record { ip = ip; limiter = [] } in
    record {
      rooms_hold = v.rooms_hold;
      apart = insert-HasKeysApart ws c s.listening v.apart;
      counted = λ other. ground (
        arith,
        more other,
        tally-insert_new other ws c s.listening fresh,
        v.counted other,
        eq_iff ip other,
      );
      capped = λ other. ground (
        arith,
        free,
        tally-insert_new other ws c s.listening fresh,
        v.counted other,
        v.capped other,
        eq_iff ip other,
      );
      listens = λ w h q. v.listens w h (ground (arith, lookup-insert ws w c s.listening, q));
    }

refused-IsSound : (s : Server) (c : Counters) → IsSound s → IsSound (record s { counters = c })
refused-IsSound s c v = record {
  rooms_hold = v.rooms_hold;
  apart = v.apart;
  counted = v.counted;
  capped = v.capped;
  listens = v.listens;
}

on_connection-IsSound :
    (s : Server) (ws : ℕ) (ip : String)
    → lookup ws s.listening ≡ none
    → IsSound s
    → IsSound (on_connection s ws ip).0
unfolding on_connection
on_connection-IsSound s ws ip fresh v = elim (acquire_lem ws_per_ip s.connections ip ip) [
  | inl (granted, free, _) ↦
      let more : (other : String)
          → count (acquire ws_per_ip s.connections ip).0 other
            ≡ (if ip == other then count s.connections ip + 1 else count s.connections other) =
        λ other. ground (arith, granted, acquire_lem ws_per_ip s.connections ip other) in
      rw granted (
        accepted-IsSound s ws ip (acquire ws_per_ip s.connections ip).0 (track s.alive ws) fresh
          free more v)
  | inr (refused, _, _) ↦ rw refused (refused-IsSound s (bump s.counters ws_per_ip_reason) v)
]

on_closed-IsSound :
    (is_open : ℕ → Bool) (s : Server) (ws : ℕ) (c : Connection)
    → lookup ws s.listening ≡ some c
    → IsSound s
    → IsSound (on_closed is_open s ws c).0
unfolding on_closed on_close
on_closed-IsSound is_open s ws c e v = record {
  rooms_hold = leave-Inv s.rooms ws v.rooms_hold;
  apart = erase-HasKeysApart ws s.listening v.apart;
  counted = λ ip. ground (
    arith,
    release_lem s.connections c.ip ip,
    tally-erase ip ws c s.listening v.apart e,
    v.counted ip,
    eq_iff c.ip ip,
  );
  capped = λ ip. omega (arith, tally-erase ip ws c s.listening v.apart e, v.capped ip);
  listens = λ w h q.
      v.listens w (λ n. h (ground (arith, leave-clients s.rooms ws w, n)))
        (ground (
          arith,
          lookup-erase ws w s.listening,
          leave-clients s.rooms ws w,
          nat_beq_iff ws w,
          h,
          q,
        ));
}

swept-IsSound :
    (s : Server) (alive : Dict ℕ Bool) → IsSound s → IsSound (record s { alive = alive })
swept-IsSound s alive v = record {
  rooms_hold = v.rooms_hold;
  apart = v.apart;
  counted = v.counted;
  capped = v.capped;
  listens = v.listens;
}

step_as-IsSound :
    (is_open : ℕ → Bool) (s : Server) (e : Event) (o : Option Connection)
    → connection_of s (socket_of e) ≡ o
    → IsNew s e
    → IsSound s
    → IsSound (step_as is_open s e o).0
unfolding step_as
step_as-IsSound is_open s (connected ws ip) o q n v = on_connection-IsSound s ws ip n v
step_as-IsSound is_open s (received ws now frame) none q n v = v
step_as-IsSound is_open s (received ws now frame) (some c) q n v =
    on_message-IsSound is_open s ws now frame c q v
step_as-IsSound is_open s (ponged ws) none q n v = v
step_as-IsSound is_open s (ponged ws) (some c) q n v = swept-IsSound s (mark_alive s.alive ws) v
step_as-IsSound is_open s (closed ws) none q n v = v
step_as-IsSound is_open s (closed ws) (some c) q n v = on_closed-IsSound is_open s ws c q v
step_as-IsSound is_open s (swept sockets) o q n v = swept-IsSound s (sweep s.alive sockets).alive v

-- The states of a run, whichever sockets are open at each step.
pub data Reachable : Server → Type 0 where
  start : Reachable new_server
  next :
      (is_open : ℕ → Bool)
      → (s : Server) → (e : Event) → Reachable s
      → IsNew s e
      → Reachable (step is_open s e).0

-- In every state that the server gets into, the rooms are well formed, each address has as many
-- slots taken as sockets that listen, 20 at most, and whoever is in a room listens.
pub Reachable-IsSound : (s : Server) → Reachable s → IsSound s
unfolding step
Reachable-IsSound _ start = new_server-IsSound
Reachable-IsSound _ (next is_open s e r n) =
    step_as-IsSound is_open s e (connection_of s (socket_of e)) refl n (Reachable-IsSound s r)
