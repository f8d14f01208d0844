-- ===== src/Client.antt =====
-- The data of server/src/types.ts: `ClientInfo` and the stamped points that it holds.
-- Coordinates are whole numbers of thousandths of a game unit, times whole milliseconds.
use lo_lprox_chat.Common.{ℕ, String, Bool, true, false, Option, none, some}
use lo_lprox_chat.Common.Int.{ℤ}
use lo_lprox_chat.Json.{Json, num}

pub data Team : Type 0 where
  order chaos : Team

abbrev pub same_team : Team → Team → Bool
same_team order order = true
same_team chaos chaos = true
same_team _ _ = false

pub record Point : Type 0 where
  pub x : ℤ
  pub y : ℤ

-- Two finite numbers.
abbrev pub read_point : Json → Json → Option Point
read_point (num x) (num y) = some (record { x = x; y = y })
read_point _ _ = none

pub record Stamped : Type 0 where
  pub point : Point
  pub updated_ms : ℕ

-- A socket is known by a number. An absent optional field is `none`.
pub record Client : Type 0 where
  pub room_id : String
  pub name : String
  pub ws : ℕ
  pub position : Option Stamped
  pub camera : Option Stamped
  pub last_seen : Option Stamped
  pub team : Option Team
  pub shared_reset : Option Bool
