-- ===== src/Players/MapDetect.antt =====
-- src/core/map-detect.ts: which map a game is on. The texts for the log are left out.
use lo_lprox_chat.Common.{
  ℕ, ◌+◌, ◌-◌, ◌*◌, Bool, true, not, ◌||◌, ◌&&◌, Option, none, some, [], ◌∷◌, ◌==◌, nat_eq,
  if◌then◌else◌,
}
use lo_lprox_chat.Common.Int.{ℤ, pos, negsuc}
use lo_lprox_chat.Text.{codes}
use lo_lprox_chat.Address.Chars.{Chars, trim, is_empty, every_digit, after_prefix}

-- A field of the game's data, as the code tells values apart. `fraction` is a number that is not
-- whole.
pub data Field : Type 0 where
  undefined fraction other : Field
  number : ℤ → Field
  text : Chars → Field

-- `GameDataShape`; what is no object has no fields.
pub record GameData : Type 0 where
  pub game_mode : Field
  pub map_number : Field
  pub map_name : Field

pub data MapType : Type 0 where
  summoners_rift howling_abyss : MapType

pub data MapDetection : Type 0 where
  supported : MapType → MapDetection
  unsupported : MapDetection

-- `parseInt(digits, 10)`.
abbrev pub decimal_from : ℕ → Chars → ℕ
decimal_from n [] = n
decimal_from n (d ∷ ds) = decimal_from (n * 10 + (d - b'0')) ds

-- `/^\d+$/` of a text, with the number.
unfoldable pub read_digits : Chars → Option ℕ
read_digits cs = if not (is_empty cs) && every_digit cs then some (decimal_from 0 cs) else none

unfoldable pub read_map_number : Field → Option ℤ
unfolding read_digits
read_map_number (number n) = some n
read_map_number (text cs) = elim (read_digits (trim cs)) [ none ↦ none | some n ↦ some (pos n) ]
read_map_number _ = none

-- `MAP_IDS`.
unfoldable pub map_of : ℤ → MapDetection
map_of (negsuc n) = unsupported
map_of (pos n) =
    if n == 11
    then supported summoners_rift
    else if n == 12
    then supported howling_abyss
    else unsupported

-- `text.includes(part)`.
unfoldable pub includes_text : Chars → Chars → Bool
includes_text part [] = is_empty part
includes_text part (c ∷ cs) =
    let rest = includes_text part cs in
    elim (after_prefix part (c ∷ cs)) [ none ↦ rest | some _ ↦ true ]

-- `/^Map(\d+)$/`.
unfoldable pub read_map_name : Chars → Option ℕ
unfolding read_digits
read_map_name cs = elim (after_prefix (codes "Map") cs) [
  | none ↦ none
  | some rest ↦ read_digits rest
]

-- `lower` is `toLowerCase`, the tables of Unicode.
module _ (lower : Chars → Chars) where
  -- `fromGameMode`: what names no other map is on Summoner's Rift.
  unfoldable pub from_game_mode : Chars → MapType
  unfolding includes_text
  from_game_mode game_mode =
      let mode = lower game_mode in
      if includes_text (codes "aram") mode || includes_text (codes "howling") mode
      then howling_abyss
      else summoners_rift

  abbrev pub text_or_nil : Field → Chars
  text_or_nil (text cs) = cs
  text_or_nil _ = []

  unfoldable pub fall_back : GameData → MapDetection
  unfolding from_game_mode
  fall_back d = supported (from_game_mode (text_or_nil d.game_mode))

  -- The part of `detectMap` that reads `mapName`.
  unfoldable pub detect_by_name : GameData → Field → MapDetection
  unfolding read_map_name map_of fall_back
  detect_by_name d (text cs) =
      if is_empty (trim cs)
      then fall_back d
      else elim (read_map_name (trim cs)) [ none ↦ fall_back d | some n ↦ map_of (pos n) ]
  detect_by_name d _ = fall_back d

  unfoldable pub detect_map : GameData → MapDetection
  unfolding read_map_number map_of detect_by_name
  detect_map d = elim (read_map_number d.map_number) [
    | none ↦ detect_by_name d d.map_name
    | some n ↦ map_of n
  ]
