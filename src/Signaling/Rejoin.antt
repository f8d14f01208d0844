-- ===== src/Signaling/Rejoin.antt =====
-- src/services/signaling.ts: how a lost connection comes back.
use lo_lprox_chat.Common.{
  ℕ, zero, suc, ◌+◌, ◌-◌, ◌*◌, ◌^◌, ◌≤◌, min, String, ◌≡◌, refl, ap, ◌∙◌, Bool, false, none, some,
  [], ◌∷◌, ◌++◌, arith, ◌==◌, nat_eq, string_eq,
}
use lo_lprox_chat.Common.Dict.{lookup-insert_self}
use lo_lprox_chat.Signaling.{
  Signaling, Session, opens, sends, waits, open_socket, open_socket_in, open_for, on_close,
  schedule, backoff_ms, on_timer, on_timer_of, on_open, on_open_of, close_old, takeover_code,
}
use lo_lprox_chat.Signaling.Wire.{Outgoing}

pow-pos : (n : ℕ) → 1 ≤ 2 ^ n
pow-pos zero = omega arith
pow-pos (suc n) = omega (arith, pow-pos n)

-- The first wait is half a second, each next one twice as long up to 30 s.
pub backoff_ms_lem :
    (n : ℕ)
    → (backoff_ms 1 ≡ 500)
      × (backoff_ms (n + 2) ≡ min 30000 (2 * backoff_ms (n + 1)))
      × (500 ≤ backoff_ms n)
      × (backoff_ms n ≤ 30000)
unfolding backoff_ms
backoff_ms_lem n = (
  refl,
  let e : n + 2 - 1 ≡ suc (n + 1 - 1) = omega arith in rw e (omega arith),
  omega (arith, pow-pos (n - 1)),
  omega arith,
)

on_close-schedule :
    (s : Signaling) (w code : ℕ)
    → s.ws ≡ some w
    → s.intentionally_closed ≡ false
    → (code == takeover_code) ≡ false
    → on_close s w code ≡ schedule s
unfolding on_close
on_close-schedule s w code here open_still other = ground arith

on_timer-open :
    (s : Signaling) (delay : ℕ) (room : String) (announces : Bool)
    → s.timer ≡ some delay
    → s.room ≡ some room
    → (room == "") ≡ false
    → s.handlers ≡ some announces
    → on_timer s ≡ open_for (record s { timer = none }) room announces
unfolding on_timer on_timer_of open_socket open_socket_in
on_timer-open s delay room announces waiting in_room non_empty there =
    let t : Signaling = record s { timer = none } in
    ap (on_timer_of s) waiting
    ∙ ap (λ o. open_socket_in t o s.handlers) in_room
    ∙ ap (λ o. open_socket_in t (some room) o) there
    ∙ ground arith

on_open-joins :
    (s : Signaling) (room : String) (announces : Bool)
    → on_open (open_for s room announces).0 s.made ≡ (
      record (open_for s room announces).0 { attempt = 0 },
      sends s.made (Outgoing.join_as room s.local_name s.team s.shared_reset) ∷ [],
    )
unfolding on_open open_for on_open_of
on_open-joins s room announces =
    let t = (open_for s room announces).0 in
    let c : Session = record {
      room = room;
      name = s.local_name;
      team = s.team;
      announces = announces;
    } in
    ap (on_open_of t s.made) (lookup-insert_self s.made c s.sockets) ∙ ground arith

pub on_close-rejoins :
    (s : Signaling) (w code : ℕ) (room : String) (announces : Bool)
    → s.ws ≡ some w
    → s.intentionally_closed ≡ false
    → (code == takeover_code) ≡ false
    → s.room ≡ some room
    → (room == "") ≡ false
    → s.handlers ≡ some announces
    → let lost = on_close s w code in
      let back = on_timer lost.0 in
      let ready = on_open back.0 s.made in
      (lost.1 ≡ waits (backoff_ms (s.attempt + 1)) ∷ [])
      × (back.1 ≡ close_old s.ws ++ (opens s.made ∷ []))
      × (ready.1 ≡ sends s.made (Outgoing.join_as room s.local_name s.team s.shared_reset) ∷ [])
      × (ready.0.attempt ≡ 0)
unfolding schedule open_for
on_close-rejoins s w code room announces here open_still other in_room non_empty there =
    let lost = on_close-schedule s w code here open_still other in
    let back =
      on_timer-open (schedule s).0 (backoff_ms (s.attempt + 1)) room announces refl in_room
        non_empty there in
    let ready =
      ap (λ t. on_open t.0 s.made) back
      ∙ on_open-joins (record s { attempt = s.attempt + 1; timer = none }) room announces in
    rw lost (refl, ap (λ t. t.1) back, ap (λ t. t.1) ready, ap (λ t. t.0.attempt) ready)
