-- ===== src/Validate.antt =====
-- server/src/validate.ts: what a `join` must bring. The two values are any JSON.
pub mod Laws
use lo_lprox_chat.Common.{
  ℕ, ◌≤◌, String, Bool, true, false, not, ◌&&◌, ◌||◌, List, [], ◌∷◌, length, leb, ltb, nat_beq,
  if◌then◌else◌,
}
use lo_lprox_chat.Json.{Json, str}
use lo_lprox_chat.Text.{codes, units, within, every}

abbrev pub max_name_len : ℕ
max_name_len = 64

abbrev pub max_room_id_len : ℕ
max_room_id_len = 64

-- `[A-Za-z0-9._:-]`.
abbrev pub is_room_char : ℕ → Bool
is_room_char c =
    within b'A' b'Z' c
    || within b'a' b'z' c
    || within b'0' b'9' c
    || nat_beq c b'.'
    || nat_beq c b'_'
    || nat_beq c b':'
    || nat_beq c b'-'

-- `ROOM_ID_RE`.
unfoldable pub is_room_id : List ℕ → Bool
unfolding every
is_room_id cs = every is_room_char cs && leb 1 (length cs) && leb (length cs) max_room_id_len

-- `CONTROL_CHARS_RE`, of one character.
abbrev pub is_control : ℕ → Bool
is_control c = leb c 0x1f || within 0x7f 0x9f c

pub data JoinError : Type 0 where
  room_not_string name_not_string bad_room name_empty name_too_long name_control : JoinError

pub data JoinValidation : Type 0 where
  valid : (room name : String) → JoinValidation
  invalid : JoinError → JoinValidation

unfoldable pub validate_texts : String → String → JoinValidation
validate_texts room name =
    if not (is_room_id (codes room))
    then invalid bad_room
    else if nat_beq (units (codes name)) 0
    then invalid name_empty
    else if ltb max_name_len (units (codes name))
    then invalid name_too_long
    else if not (every (λ c. not (is_control c)) (codes name))
    then invalid name_control
    else valid room name

unfoldable pub validate_name : String → Json → JoinValidation
unfolding validate_texts
validate_name room (str name) = validate_texts room name
validate_name room _ = invalid name_not_string

unfoldable pub validate_join : Json → Json → JoinValidation
unfolding validate_name
validate_join (str room) name = validate_name room name
validate_join _ name = invalid room_not_string
