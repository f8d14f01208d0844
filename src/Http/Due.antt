-- ===== src/Http/Due.antt =====
-- For which reasons server/src/index.ts refuses a request.
use lo_lprox_chat.Common.{ℕ, ◌+◌, ◌≡◌, ltb, Bool, true, false, not, ◌&&◌, arith, ◌==◌, string_eq}
use lo_lprox_chat.Limits.Bucket.{
  try_consume, turn_creds, compute_volumes_per_player, compute_volumes_per_ip,
}
use lo_lprox_chat.Limits.Rejections.{
  RejectReason, reason_beq, reason_eq, xff_invalid, compute_volumes_ip, compute_volumes_player,
  body_too_large, turn_creds_ip,
}
use lo_lprox_chat.Address.Chars.{Chars, chars_eq}
use lo_lprox_chat.Address.Origin.{player_key}
use lo_lprox_chat.Server.Connections.{one}
use lo_lprox_chat.Http.{
  body_bytes, too_many_requests, too_large, Web, HttpRequest, Body, bad_json, Answer, name_of,
}
use lo_lprox_chat.Http.Bodies.{body_length, body_text}

-- For which reasons a request is refused or noted, from the four refusals and the complaint.
abbrev pub due_of : Bool → Bool → Bool → Bool → Bool → RejectReason → Bool
due_of ip large player turn complaint compute_volumes_ip = ip
due_of ip large player turn complaint body_too_large = large
due_of ip large player turn complaint compute_volumes_player = player
due_of ip large player turn complaint turn_creds_ip = turn
due_of ip large player turn complaint xff_invalid = complaint
due_of ip large player turn complaint _ = false

-- The answers with the status 429, and those with 413.
abbrev pub is_429 : Answer → Bool
is_429 too_many_requests = true
is_429 _ = false

abbrev pub is_413 : Answer → Bool
is_413 too_large = true
is_413 _ = false

abbrev pub is_json : Body → Bool
is_json bad_json = false
is_json _ = true

-- Which requests are for volumes, and which for credentials.
abbrev pub wants_volumes : HttpRequest → Bool
wants_volumes req =
    not (req.method == "OPTIONS")
    && (not (req.url == "/health") && (req.method == "POST" && req.url == "/compute-volumes"))

abbrev pub wants_turn : HttpRequest → Bool
wants_turn req =
    not (req.method == "OPTIONS")
    && (not (req.url == "/health")
        && (not (req.method == "POST" && req.url == "/compute-volumes")
            && req.url == "/turn-credentials"))

pub due_split :
    (ip large player turn complaint : Bool) (r : RejectReason)
    → one (due_of ip large player turn complaint r)
      ≡ one (complaint && reason_beq xff_invalid r) + one (due_of ip large player turn false r)
due_split ip large player turn complaint xff_invalid = ground arith
due_split ip large player turn complaint _ = ground arith

-- Where one reason only is due.
pub one_due :
    (r : RejectReason)
    → (reason_beq compute_volumes_ip r ≡ due_of true false false false false r)
      × (reason_beq body_too_large r ≡ due_of false true false false false r)
      × (reason_beq compute_volumes_player r ≡ due_of false false true false false r)
      × (reason_beq turn_creds_ip r ≡ due_of false false false true false r)
one_due _ = (ground arith, ground arith, ground arith, ground arith)

pub none_due : (r : RejectReason) → due_of false false false false false r ≡ false
none_due _ = ground arith

-- Whether the limiters refuse a request from an address, and whether its body is too large.
abbrev pub is_over_ip : HttpRequest → Chars → Web → Bool
is_over_ip req ip web = not (try_consume compute_volumes_per_ip web.ip_buckets ip req.now).1

abbrev pub is_over_turn : HttpRequest → Chars → Web → Bool
is_over_turn req ip web = not (try_consume turn_creds web.turn_buckets ip req.now).1

abbrev pub is_large : HttpRequest → Bool
is_large req = ltb body_bytes (body_length req.chunks)

abbrev pub is_over_player : Web → Chars → ℕ → Body → Bool
is_over_player web ip now body =
    not
      (try_consume compute_volumes_per_player web.player_buckets (player_key ip (name_of body))
        now).1

abbrev pub is_refused_player : (Chars → Body) → HttpRequest → Chars → Web → Bool
is_refused_player parse req ip web =
    is_json (parse (body_text req.chunks))
    && is_over_player web ip req.later (parse (body_text req.chunks))
