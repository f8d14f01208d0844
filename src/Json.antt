-- ===== src/Json.antt =====
-- The values that `JSON.parse` gives, as the handlers of the server tell them apart.
use lo_lprox_chat.Common.{String, ℕ, Bool, true, false, not, ◌==◌, nat_eq, string_eq}
use lo_lprox_chat.Common.Int.{ℤ, pos, negsuc}

-- `absent` is a missing field (`undefined`). A finite number is a whole number of the unit that its
-- field is measured in, a literal too large for a double is `infinite`, and an object or array is
-- known by a number.
pub data Json : Type 0 where
  absent null infinite : Json
  bool : Bool → Json
  num : ℤ → Json
  str : String → Json
  other : ℕ → Json

abbrev pub is_true : Json → Bool
is_true (bool b) = b
is_true _ = false

-- `!value`.
abbrev pub is_falsy : Json → Bool
is_falsy absent = true
is_falsy null = true
is_falsy infinite = false
is_falsy (bool b) = not b
is_falsy (num (pos n)) = n == 0
is_falsy (num (negsuc n)) = false
is_falsy (str s) = s == ""
is_falsy (other i) = false
