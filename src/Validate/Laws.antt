-- ===== src/Validate/Laws.antt =====
-- What the validation of server/src/validate.ts accepts.
use mathlib.Core.Path.{subst}
use lo_lprox_chat.Common.{
  ℕ, ◌≤◌, ◌<◌, String, ◌≡◌, refl, ap, sym, ◌↔◌, ◌⊎◌, Bool, true, not, List, [], ◌∷◌, length, arith,
  All,
}
use lo_lprox_chat.Json.{Json, str}
use lo_lprox_chat.Text.{codes, units, every}
use lo_lprox_chat.Validate.{
  is_room_char, is_control, is_room_id, valid, validate_texts, validate_name, validate_join,
}

-- A letter, a digit or one of `.`, `_`, `:` and `-`.
abbrev pub IsRoomChar : ℕ → Type 0
IsRoomChar c =
    ((b'A' ≤ c) × (c ≤ b'Z'))
    ⊎ ((b'a' ≤ c) × (c ≤ b'z'))
    ⊎ ((b'0' ≤ c) × (c ≤ b'9'))
    ⊎ (c ≡ b'.')
    ⊎ (c ≡ b'_')
    ⊎ (c ≡ b':')
    ⊎ (c ≡ b'-')

-- Neither a control character of ASCII, nor DEL, nor one from 0x80 to 0x9f.
abbrev pub IsPrintable : ℕ → Type 0
IsPrintable c = (0x1f < c) × ((c < 0x7f) ⊎ (0x9f < c))

pub record IsRoomId (room : String) : Type 0 where
  pub chars : All IsRoomChar (codes room)
  pub nonempty : 1 ≤ length (codes room)
  pub short : length (codes room) ≤ 64

pub record IsPlayerName (name : String) : Type 0 where
  pub nonempty : 1 ≤ units (codes name)
  pub short : units (codes name) ≤ 64
  pub printable : All IsPrintable (codes name)

is_room_char_iff : (c : ℕ) → (is_room_char c ≡ true) ↔ IsRoomChar c
is_room_char_iff c = ground arith

IsPrintable-iff : (c : ℕ) → (not (is_control c) ≡ true) ↔ IsPrintable c
IsPrintable-iff c = ground arith

every_iff :
    (p : ℕ → Bool) (P : ℕ → Type 0) (iff : (c : ℕ) → (p c ≡ true) ↔ P c) (cs : List ℕ)
    → (every p cs ≡ true) ↔ All P cs
unfolding every
every_iff p P iff [] = (λ e. tt, λ h. refl)
every_iff p P iff (c ∷ cs) = ground (arith, iff c, every_iff p P iff cs)

is_room_id_iff : (room : String) → (is_room_id (codes room) ≡ true) ↔ IsRoomId room
unfolding is_room_id
is_room_id_iff room =
    let chars = every_iff is_room_char IsRoomChar is_room_char_iff (codes room) in
    (
      λ e. record { chars = chars.0 (ground arith); nonempty = ground arith; short = ground arith },
      λ h. ground (arith, chars.1 h.chars, h.nonempty, h.short),
    )

validate_texts_iff :
    (room name r n : String)
    → (validate_texts room name ≡ valid r n)
      ↔ ((room ≡ r) × (name ≡ n) × IsRoomId room × IsPlayerName name)
unfolding validate_texts
validate_texts_iff room name r n =
    let names = every_iff (λ c. not (is_control c)) IsPrintable IsPrintable-iff (codes name) in
    (
      λ e. (
        ground arith,
        ground arith,
        (is_room_id_iff room).0 (ground arith),
        record {
          nonempty = ground arith;
          short = ground arith;
          printable = names.0 (ground arith);
        },
      ),
      λ h. ground (
        arith,
        (is_room_id_iff room).1 h.2,
        h.3.nonempty,
        h.3.short,
        names.1 h.3.printable,
        h.0,
        h.1,
      ),
    )

-- A `join` is accepted exactly if both values are texts, the room is 1 to 64 room characters and the
-- name is 1 to 64 units with no control character; and both are then taken as they are.
pub validate_join_iff :
    (room name : Json) (r n : String)
    → (validate_join room name ≡ valid r n)
      ↔ ((room ≡ str r) × (name ≡ str n) × IsRoomId r × IsPlayerName n)
unfolding validate_join validate_name
validate_join_iff (str room) (str name) r n =
    let texts = validate_texts_iff room name r n in
    (
      λ e.
          let h = texts.0 e in
          (ap str h.0, ap str h.1, subst IsRoomId h.0 h.2, subst IsPlayerName h.1 h.3),
      λ h.
          let same_room : room ≡ r = cc h.0 in
          let same_name : name ≡ n = cc h.1 in
          texts.1 (
            same_room,
            same_name,
            subst IsRoomId (sym same_room) h.2,
            subst IsPlayerName (sym same_name) h.3,
          ),
    )
validate_join_iff (str room) _ r n = ground arith
validate_join_iff _ name r n = ground arith
