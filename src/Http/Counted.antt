-- ===== src/Http/Counted.antt =====
-- What the routes of server/src/index.ts count.
use lo_lprox_chat.Common.{
  ℕ, ◌+◌, ◌≡◌, ◌∙◌, refl, ap, Bool, true, false, not, ◌&&◌, ◌||◌, [], arith, ◌==◌, string_eq,
  Bool-cases, inl, inr,
}
use lo_lprox_chat.Common.Dict.{lookup-insert}
use lo_lprox_chat.Json.{Json, str}
use lo_lprox_chat.Rooms.{Rooms, get_room_clients}
use lo_lprox_chat.Limits.Bucket.{
  try_consume, turn_creds, compute_volumes_per_player, compute_volumes_per_ip,
}
use lo_lprox_chat.Limits.Rejections.{
  Counters, RejectReason, bump, total, reason_beq, reason_beq_iff, reason_eq, xff_invalid,
  compute_volumes_ip, compute_volumes_player, body_too_large, turn_creds_ip,
}
use lo_lprox_chat.Address.Chars.{Chars, chars_eq}
use lo_lprox_chat.Address.Origin.{ProxyTrust, client_ip, player_key}
use lo_lprox_chat.Volumes.Request.{VolumeRequest, VolumeResponse, peer_volumes, throws}
use lo_lprox_chat.Volumes.Tiered.{compute_tiered_volumes}
use lo_lprox_chat.Server.Connections.{one}
use lo_lprox_chat.Http.{
  bump_for, Web, HttpRequest, Body, bad_json, not_object, fields, Answer, turn_granted, bad_request,
  collect, name_of, answered, volumes_for, answer_body, note_forward, answer_player, answer_parsed,
  answer_collected, compute_volumes_route, turn_credentials_route, handle_request,
}
use lo_lprox_chat.Http.Bodies.{body_text, collect_whole}
use lo_lprox_chat.Http.Due.{
  due_of, is_429, is_413, is_json, wants_volumes, wants_turn, due_split, one_due, none_due,
  is_over_ip, is_over_turn, is_large, is_over_player, is_refused_player,
}

abbrev pub counts : Web → RejectReason → ℕ
counts web r = total web.counters.totals r

bump-total :
    (c : Counters) (q r : RejectReason)
    → total (bump c q).totals r ≡ total c.totals r + one (reason_beq q r)
unfolding bump
bump-total c q r =
    ground (arith, reason_beq_iff q r, lookup-insert q r (total c.totals q + 1) c.totals)

module _ (r : RejectReason) where
  -- Of `n` counts before, the outcome has one more if this reason is due, and its status says of
  -- which kind the reasons are.
  abbrev IsOutcome : ℕ → Bool → Bool → Bool → Bool → Web × Answer → Type 0
  IsOutcome n ip large player turn out =
      (counts out.0 r ≡ n + one (due_of ip large player turn false r))
      × (is_429 out.1 ≡ (ip || (player || turn)))
      × (is_413 out.1 ≡ large)

  bumped :
      (web : Web) (q : RejectReason) (due : Bool)
      → reason_beq q r ≡ due
      → counts (bump_for web q) r ≡ counts web r + one due
  bumped web q due e = bump-total web.counters q r ∙ ap (λ b. counts web r + one b) e

  abbrev IsAnswer : Answer → Type 0
  IsAnswer a = (is_429 a ≡ false) × (is_413 a ≡ false)

  answered-IsAnswer : (o : VolumeResponse) → IsAnswer (answered o)
  answered-IsAnswer (peer_volumes v) = (refl, refl)
  answered-IsAnswer (throws e) = (refl, refl)

  volumes_for-IsAnswer :
      (rooms : Rooms) (now : ℕ) (request : VolumeRequest) (room : Json)
      → IsAnswer (volumes_for rooms now request room)
  volumes_for-IsAnswer rooms now request (str room) =
      answered-IsAnswer (compute_tiered_volumes request now (get_room_clients rooms))
  volumes_for-IsAnswer rooms now request _ = (refl, refl)

  answer_body-IsAnswer :
      (rooms : Rooms) (now : ℕ) (body : Body) → IsAnswer (answer_body rooms now body)
  answer_body-IsAnswer rooms now bad_json = (refl, refl)
  answer_body-IsAnswer rooms now not_object = (refl, refl)
  answer_body-IsAnswer rooms now (fields request) =
      volumes_for-IsAnswer rooms now request request.room_id

  passed-IsOutcome :
      (web : Web) (a : Answer)
      → IsAnswer a
      → IsOutcome (counts web r) false false false false (web, a)
  passed-IsOutcome web a e = (rw (none_due r) (omega arith), e.0, e.1)

  answer_player-IsOutcome :
      (web : Web) (rooms : Rooms) (ip : Chars) (now : ℕ) (body : Body)
      → IsOutcome
          (counts web r)
          false
          false
          (is_over_player web ip now body)
          false
          (answer_player web rooms ip now body)
  unfolding answer_player
  answer_player-IsOutcome web rooms ip now body =
      let taken =
        try_consume compute_volumes_per_player web.player_buckets (player_key ip (name_of body))
          now in
      let t = record web { player_buckets = taken.0 } in
      elim (Bool-cases taken.1) [
        | inl e ↦
            rw e (
              passed-IsOutcome t (answer_body rooms now body) (answer_body-IsAnswer rooms now body))
        | inr e ↦ rw e (bumped t compute_volumes_player _ (one_due r).2, refl, refl)
      ]

  answer_parsed-IsOutcome :
      (web : Web) (rooms : Rooms) (ip : Chars) (now : ℕ) (body : Body)
      → IsOutcome
          (counts web r)
          false
          false
          (is_json body && is_over_player web ip now body)
          false
          (answer_parsed web rooms ip now body)
  unfolding answer_parsed
  answer_parsed-IsOutcome web rooms ip now bad_json = passed-IsOutcome web bad_request (refl, refl)
  answer_parsed-IsOutcome web rooms ip now not_object =
      answer_player-IsOutcome web rooms ip now not_object
  answer_parsed-IsOutcome web rooms ip now (fields request) =
      answer_player-IsOutcome web rooms ip now (fields request)

  module _ (parse : Chars → Body) (rooms : Rooms) (req : HttpRequest) (ip : Chars) where
    collected-IsOutcome :
        (web : Web)
        → IsOutcome
            (counts web r)
            false
            (is_large req)
            (not (is_large req) && is_refused_player parse req ip web)
            false
            (answer_collected parse web rooms ip req.later (collect [] req.chunks))
    unfolding answer_collected
    collected-IsOutcome web = elim (Bool-cases (is_large req)) [
      | inl e ↦
          rw (collect_whole req.chunks, e) (bumped web body_too_large _ (one_due r).1, refl, refl)
      | inr e ↦
          rw (collect_whole req.chunks, e)
            (answer_parsed-IsOutcome web rooms ip req.later (parse (body_text req.chunks)))
    ]

    volumes_route-IsOutcome :
        (web : Web)
        → IsOutcome
            (counts web r)
            (is_over_ip req ip web)
            (not (is_over_ip req ip web) && is_large req)
            (not (is_over_ip req ip web)
              && (not (is_large req) && is_refused_player parse req ip web))
            false
            (compute_volumes_route parse web rooms req ip)
    unfolding compute_volumes_route
    volumes_route-IsOutcome web =
        let taken = try_consume compute_volumes_per_ip web.ip_buckets ip req.now in
        let t = record web { ip_buckets = taken.0 } in
        elim (Bool-cases taken.1) [
          | inl e ↦ rw e (collected-IsOutcome t)
          | inr e ↦ rw e (bumped t compute_volumes_ip _ (one_due r).0, refl, refl)
        ]

    turn_route-IsOutcome :
        (web : Web)
        → IsOutcome
            (counts web r)
            false
            false
            false
            (is_over_turn req ip web)
            (turn_credentials_route web req ip)
    unfolding turn_credentials_route
    turn_route-IsOutcome web =
        let taken = try_consume turn_creds web.turn_buckets ip req.now in
        let t = record web { turn_buckets = taken.0 } in
        elim (Bool-cases taken.1) [
          | inl e ↦ rw e (passed-IsOutcome t turn_granted (refl, refl))
          | inr e ↦ rw e (bumped t turn_creds_ip _ (one_due r).3, refl, refl)
        ]

  note_forward-counts :
      (web : Web) (complaint : Bool)
      → counts (note_forward web complaint) r
        ≡ counts web r + one (complaint && reason_beq xff_invalid r)
  note_forward-counts web true = bump-total web.counters xff_invalid r
  note_forward-counts web false = omega arith

  -- An outcome after a complaint was noted, if there is one.
  abbrev IsNotedOutcome : ℕ → Bool → Bool → Bool → Bool → Bool → Web × Answer → Type 0
  IsNotedOutcome n ip large player turn complaint out =
      (counts out.0 r ≡ n + one (due_of ip large player turn complaint r))
      × (is_429 out.1 ≡ (ip || (player || turn)))
      × (is_413 out.1 ≡ large)

  noted-IsNotedOutcome :
      (web : Web) (complaint ip large player turn : Bool) (out : Web × Answer)
      → IsOutcome (counts (note_forward web complaint) r) ip large player turn out
      → IsNotedOutcome (counts web r) ip large player turn complaint out
  noted-IsNotedOutcome web complaint ip large player turn out h = (
    omega
        (arith, h.0, note_forward-counts web complaint, due_split ip large player turn complaint r),
    h.1,
    h.2,
  )

  volumes-IsNotedOutcome :
      (parse : Chars → Body) (rooms : Rooms) (req : HttpRequest) (ip : Chars) (web : Web)
      (complaint : Bool)
      → IsNotedOutcome
          (counts web r)
          (is_over_ip req ip web)
          (not (is_over_ip req ip web) && is_large req)
          (not (is_over_ip req ip web)
            && (not (is_large req) && is_refused_player parse req ip web))
          false
          complaint
          (compute_volumes_route parse (note_forward web complaint) rooms req ip)
  volumes-IsNotedOutcome parse rooms req ip web true =
      noted-IsNotedOutcome web true (is_over_ip req ip web)
        (not (is_over_ip req ip web) && is_large req)
        (not (is_over_ip req ip web) && (not (is_large req) && is_refused_player parse req ip web))
        false (compute_volumes_route parse (note_forward web true) rooms req ip)
        (volumes_route-IsOutcome parse rooms req ip (note_forward web true))
  volumes-IsNotedOutcome parse rooms req ip web false =
      noted-IsNotedOutcome web false (is_over_ip req ip web)
        (not (is_over_ip req ip web) && is_large req)
        (not (is_over_ip req ip web) && (not (is_large req) && is_refused_player parse req ip web))
        false (compute_volumes_route parse web rooms req ip)
        (volumes_route-IsOutcome parse rooms req ip web)

  turn-IsNotedOutcome :
      (parse : Chars → Body) (rooms : Rooms) (req : HttpRequest) (ip : Chars) (web : Web)
      (complaint : Bool)
      → IsNotedOutcome
          (counts web r)
          false
          false
          false
          (is_over_turn req ip web)
          complaint
          (turn_credentials_route (note_forward web complaint) req ip)
  turn-IsNotedOutcome parse rooms req ip web true =
      noted-IsNotedOutcome web true false false false (is_over_turn req ip web)
        (turn_credentials_route (note_forward web true) req ip)
        (turn_route-IsOutcome parse rooms req ip (note_forward web true))
  turn-IsNotedOutcome parse rooms req ip web false =
      noted-IsNotedOutcome web false false false false (is_over_turn req ip web)
        (turn_credentials_route web req ip) (turn_route-IsOutcome parse rooms req ip web)

module _ (is_ip : Chars → ℕ) (parse : Chars → Body) (trust : ProxyTrust) where
  -- For which reasons a request is refused or noted: the limiter of its route refuses it; its body is
  -- too large; the body is JSON, and the limiter of players refuses it; or its headers are unusable.
  abbrev pub due : Web → HttpRequest → RejectReason → Bool
  due web req r =
      let ip = (client_ip is_ip req.origin trust).0 in
      let volumes = wants_volumes req in
      let over = is_over_ip req ip web in
      due_of (volumes && over) (volumes && (not over && is_large req))
        (volumes && (not over && (not (is_large req) && is_refused_player parse req ip web)))
        (wants_turn req && is_over_turn req ip web)
        ((volumes || wants_turn req) && (client_ip is_ip req.origin trust).1) r

  -- A request adds one to the counters of exactly the reasons for which it is refused or noted; it is
  -- answered by a 429 exactly if a limiter refuses it, and by a 413 exactly if its body is too large.
  pub handle_request-counts :
      (web : Web) (rooms : Rooms) (req : HttpRequest) (r : RejectReason)
      → let out = handle_request is_ip parse trust web rooms req in
        (counts out.0 r ≡ counts web r + one (due web req r))
        × (is_429 out.1 ≡ (
            due web req compute_volumes_ip
            || (due web req compute_volumes_player || due web req turn_creds_ip)))
        × (is_413 out.1 ≡ due web req body_too_large)
  unfolding handle_request
  handle_request-counts web rooms req r =
      let key = client_ip is_ip req.origin trust in
      let nothing = none_due r in
      elim (Bool-cases (req.method == "OPTIONS")) [
        | inl e ↦ rw (e, nothing) (omega arith, refl, refl)
        | inr e ↦ elim (Bool-cases (req.url == "/health")) [
          | inl h ↦ rw (e, h, nothing) (omega arith, refl, refl)
          | inr h ↦ elim (Bool-cases (req.method == "POST" && req.url == "/compute-volumes")) [
            | inl v ↦ rw (e, h, v) (volumes-IsNotedOutcome r parse rooms req key.0 web key.1)
            | inr v ↦ elim (Bool-cases (req.url == "/turn-credentials")) [
              | inl t ↦ rw (e, h, v, t) (turn-IsNotedOutcome r parse rooms req key.0 web key.1)
              | inr t ↦ rw (e, h, v, t, nothing) (omega arith, refl, refl)
            ]
          ]
        ]
      ]
