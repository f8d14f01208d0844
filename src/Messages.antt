-- ===== src/Messages.antt =====
-- The messages of server/src/types.ts, and the effects that the handlers of server/src/ws-handler.ts
-- have on sockets.
use lo_lprox_chat.Common.{ℕ, String, List}
use lo_lprox_chat.Json.{Json}
use lo_lprox_chat.Validate.{JoinError}

-- `ClientMessage`, whose fields hold whatever the sender wrote. Coordinates (`x`, `y`, `cx`, `cy`)
-- are in thousandths of a game unit, `seen_ago_ms` is in milliseconds.
pub record ClientMessage : Type 0 where
  pub kind : Json
  pub room : Json
  pub name : Json
  pub to : Json
  pub payload : Json
  pub blob : Json
  pub x : Json
  pub y : Json
  pub stale : Json
  pub seen : Json
  pub seen_ago_ms : Json
  pub cx : Json
  pub cy : Json
  pub team : Json
  pub shared_reset : Json
  pub on : Json

-- A frame as it comes: no JSON, JSON that is no object, or an object.
pub data Frame : Type 0 where
  bad_json not_object : Frame
  object : ClientMessage → Frame

-- The texts of `error` messages.
pub data ErrorText : Type 0 where
  rate_limited invalid_json invalid_message not_in_room signal_needs_to coords_needs_xy : ErrorText
  join_error : JoinError → ErrorText
  peer_not_found peer_not_reachable unknown_type : Json → ErrorText

pub data ServerMessage : Type 0 where
  peer_joined peer_left : String → ServerMessage
  signal : (from : String) → (payload : Json) → ServerMessage
  position : (from : String) → (blob : Json) → ServerMessage
  room_state : List String → ServerMessage
  error : ErrorText → ServerMessage
  reset : (from : String) → ServerMessage

-- What a handler does to the world: it sends to a socket, closes one with a code, or has one torn
-- down after some milliseconds.
pub data Effect : Type 0 where
  sends : ℕ → ServerMessage → Effect
  closes : ℕ → ℕ → Effect
  terminates_after : ℕ → ℕ → Effect
