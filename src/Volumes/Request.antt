-- ===== src/Volumes/Request.antt =====
-- The requests and answers of server/src/volumes.ts, and the checks that its functions begin with.
use lo_lprox_chat.Common.{ℕ, String, Option, none, some, ◌==◌, string_eq, if◌then◌else◌}
use lo_lprox_chat.Common.Dict.{Dict}
use lo_lprox_chat.Json.{Json, str}
use lo_lprox_chat.Client.{Point, read_point}

-- `VolumeRequestV2`. `my_x` and `my_y` are the fields of `myPosition`, absent if that is no object.
pub record VolumeRequest : Type 0 where
  pub my_x : Json
  pub my_y : Json
  pub room_id : Json
  pub name : Json
  pub ally_proximity : Json
  pub allies_only : Json

pub data VolumeError : Type 0 where
  invalid_position invalid_room_id invalid_name : VolumeError

-- `peerVolumes`, in parts of `full_volume`, or what is thrown.
pub data VolumeResponse : Type 0 where
  peer_volumes : Dict String ℕ → VolumeResponse
  throws : VolumeError → VolumeResponse

-- A text that is not empty.
abbrev pub read_text : Json → Option String
read_text (str s) = if s == "" then none else some s
read_text _ = none

pub data Checked : Type 0 where
  passed : (at : Point) → (room name : String) → Checked
  failed : VolumeError → Checked

unfoldable pub check_name : Point → String → Option String → Checked
check_name at room none = failed invalid_name
check_name at room (some name) = passed at room name

unfoldable pub check_room : Point → Json → Option String → Checked
unfolding check_name
check_room at name none = failed invalid_room_id
check_room at name (some room) = check_name at room (read_text name)

unfoldable pub check_position : VolumeRequest → Option Point → Checked
unfolding check_room
check_position body none = failed invalid_position
check_position body (some at) = check_room at body.name (read_text body.room_id)

unfoldable pub check_request : VolumeRequest → Checked
unfolding check_position
check_request body = check_position body (read_point body.my_x body.my_y)
