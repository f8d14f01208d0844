-- ===== src/Http.antt =====
-- The HTTP routes of server/src/index.ts. The texts of requests are lists of UTF-16 units; `JSON.parse`
-- of a body is a parameter, which gives the fields that are read. What the oldest clients ask for
-- (`computeVolumes`) is only told apart.
pub mod Bodies
pub mod Counted
pub mod Due
use lo_lprox_chat.Common.{
  ℕ, ◌*◌, String, Bool, true, false, ◌&&◌, Option, none, some, List, [], ◌∷◌, ◌++◌, length, ltb,
  ◌==◌, string_eq, if◌then◌else◌,
}
use lo_lprox_chat.Common.Dict.{Dict}
use lo_lprox_chat.Json.{Json, absent, str}
use lo_lprox_chat.Rooms.{Rooms, room_count, get_room_clients}
use lo_lprox_chat.Limits.Bucket.{
  Bucket, try_consume, turn_creds, compute_volumes_per_player, compute_volumes_per_ip,
}
use lo_lprox_chat.Limits.Rejections.{
  Counters, RejectReason, bump, xff_invalid, compute_volumes_ip, compute_volumes_player,
  body_too_large, turn_creds_ip,
}
use lo_lprox_chat.Address.Chars.{Chars, chars_eq}
use lo_lprox_chat.Address.Origin.{Request, ProxyTrust, client_ip, player_key}
use lo_lprox_chat.Volumes.Request.{VolumeRequest, VolumeResponse, peer_volumes, throws}
use lo_lprox_chat.Volumes.Tiered.{compute_tiered_volumes}

-- `LIMITS.BODY_BYTES`.
abbrev pub body_bytes : ℕ
body_bytes = 256 * 1024

-- The limiters of the routes, and the counters.
pub record Web : Type 0 where
  pub ip_buckets : Dict Chars Bucket
  pub player_buckets : Dict Chars Bucket
  pub turn_buckets : Dict Chars Bucket
  pub counters : Counters

-- `now` is the time of the headers and `later` that of the end of the body.
pub record HttpRequest : Type 0 where
  pub method : String
  pub url : String
  pub origin : Request
  pub chunks : List Chars
  pub now : ℕ
  pub later : ℕ

-- What a body parses to: nothing, a value that is no object, or the fields of one.
pub data Body : Type 0 where
  bad_json not_object : Body
  fields : VolumeRequest → Body

-- By status: 204, 404, 400, 429 and 413, and the answers with a body.
pub data Answer : Type 0 where
  no_content not_found bad_request too_many_requests too_large : Answer
  turn_granted older_volumes : Answer
  health : (rooms : ℕ) → Answer
  volumes : Dict String ℕ → Answer

-- The body so far, unless it got too large at some chunk.
unfoldable pub collect : Chars → List Chars → Option Chars
collect body [] = some body
collect body (chunk ∷ chunks) =
    let rest = collect (body ++ chunk) chunks in
    if ltb body_bytes (length (body ++ chunk)) then none else rest

abbrev pub name_of : Body → Json
name_of (fields request) = request.name
name_of _ = absent

-- What is thrown is answered by a 400.
abbrev pub answered : VolumeResponse → Answer
answered (peer_volumes v) = volumes v
answered (throws e) = bad_request

-- `typeof parsed.roomId === 'string'` chooses the newer path.
abbrev pub volumes_for : Rooms → ℕ → VolumeRequest → Json → Answer
volumes_for rooms now request (str room) =
    answered (compute_tiered_volumes request now (get_room_clients rooms))
volumes_for rooms now request _ = older_volumes

abbrev pub answer_body : Rooms → ℕ → Body → Answer
answer_body rooms now (fields request) = volumes_for rooms now request request.room_id
answer_body rooms now _ = older_volumes

-- `rejections.bump(reason)`.
abbrev pub bump_for : Web → RejectReason → Web
bump_for web reason = record web { counters = bump web.counters reason }

-- Counts a forwarding header that could not be used.
abbrev pub note_forward : Web → Bool → Web
note_forward web complaint = if complaint then bump_for web xff_invalid else web

-- The body has come, and is JSON.
unfoldable pub answer_player : Web → Rooms → Chars → ℕ → Body → Web × Answer
unfolding player_key try_consume compute_tiered_volumes get_room_clients bump
answer_player web rooms ip now body =
    let taken =
      try_consume compute_volumes_per_player web.player_buckets (player_key ip (name_of body))
        now in
    let t = record web { player_buckets = taken.0 } in
    if taken.1
    then (t, answer_body rooms now body)
    else (bump_for t compute_volumes_player, too_many_requests)

unfoldable pub answer_parsed : Web → Rooms → Chars → ℕ → Body → Web × Answer
unfolding answer_player
answer_parsed web rooms ip now bad_json = (web, bad_request)
answer_parsed web rooms ip now body = answer_player web rooms ip now body

unfoldable pub answer_collected :
    (Chars → Body) → Web → Rooms → Chars → ℕ → Option Chars → Web × Answer
unfolding answer_parsed bump
answer_collected parse web rooms ip now none = (bump_for web body_too_large, too_large)
answer_collected parse web rooms ip now (some text) = answer_parsed web rooms ip now (parse text)

unfoldable pub compute_volumes_route :
    (Chars → Body) → Web → Rooms → HttpRequest → Chars → Web × Answer
unfolding answer_collected collect try_consume bump
compute_volumes_route parse web rooms req ip =
    let taken = try_consume compute_volumes_per_ip web.ip_buckets ip req.now in
    let t = record web { ip_buckets = taken.0 } in
    if taken.1
    then answer_collected parse t rooms ip req.later (collect [] req.chunks)
    else (bump_for t compute_volumes_ip, too_many_requests)

unfoldable pub turn_credentials_route : Web → HttpRequest → Chars → Web × Answer
unfolding try_consume bump
turn_credentials_route web req ip =
    let taken = try_consume turn_creds web.turn_buckets ip req.now in
    let t = record web { turn_buckets = taken.0 } in
    if taken.1 then (t, turn_granted) else (bump_for t turn_creds_ip, too_many_requests)

module _ (is_ip : Chars → ℕ) (parse : Chars → Body) (trust : ProxyTrust) where
  unfoldable pub handle_request : Web → Rooms → HttpRequest → Web × Answer
  unfolding client_ip compute_volumes_route turn_credentials_route room_count
  handle_request web rooms req =
      let key = client_ip is_ip req.origin trust in
      let noted = note_forward web key.1 in
      if req.method == "OPTIONS"
      then (web, no_content)
      else if req.url == "/health"
      then (web, health (room_count rooms))
      else if req.method == "POST" && req.url == "/compute-volumes"
      then compute_volumes_route parse noted rooms req key.0
      else if req.url == "/turn-credentials"
      then turn_credentials_route noted req key.0
      else (web, not_found)
