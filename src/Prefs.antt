-- ===== src/Prefs.antt =====
-- src/services/audio-prefs.ts and src/services/privacy.ts: the toggles of the panel. The local storage
-- may refuse to be read, and may refuse to be written from some write on.
pub mod Once
use lo_lprox_chat.Common.{
  ℕ, zero, suc, String, Bool, true, false, not, Option, none, some, List, [], ◌∷◌, ◌==◌, string_eq,
  if◌then◌else◌,
}
use lo_lprox_chat.Common.Dict.{Dict, lookup, insert, erase}

-- `localStorage`: whether it can be read, and how many writes it still takes.
pub record Storage : Type 0 where
  pub items : Dict String String
  pub is_readable : Bool
  pub writes_left : ℕ

-- `ALLY_PROXIMITY_KEY` and the other keys.
abbrev pub ally_proximity_key : String
ally_proximity_key = "lolproxchat.allyProximity"

abbrev pub camera_listen_key : String
camera_listen_key = "lolproxchat.cameraListen"

abbrev pub audio_defaults_key : String
audio_defaults_key = "lolproxchat.audioDefaultsApplied"

abbrev pub audio_defaults_version : String
audio_defaults_version = "2"

abbrev pub camera_only_key : String
camera_only_key = "lolproxchat.cameraOnly"

abbrev pub shared_reset_key : String
shared_reset_key = "lolproxchat.sharedReset"

abbrev pub app_audio_key : String
app_audio_key = "lolproxchat.appAudio"

abbrev pub app_audio_device_key : String
app_audio_device_key = "lolproxchat.appAudioDevice"

abbrev pub force_turn_key : String
force_turn_key = "lolproxchat.forceTurnRelay"

-- `getItem`; `none` is an exception.
unfoldable pub get_item : Storage → String → Option (Option String)
get_item s key = if s.is_readable then some (lookup key s.items) else none

-- `getItem(key) !== '0'`.
abbrev pub is_on : Option String → Bool
is_on none = true
is_on (some text) = not (text == "0")

unfoldable pub read_toggle : Storage → String → Option Bool
unfolding get_item
read_toggle s key = if s.is_readable then some (is_on (lookup key s.items)) else none

-- `setItem`, with whether it went well; otherwise it throws.
unfoldable pub set_item : Storage → ℕ → String → String → Storage × Bool
set_item s zero key text = (s, false)
set_item s (suc left) key text =
    (record s { items = insert key text s.items; writes_left = left }, true)

abbrev pub flag : Bool → String
flag on = if on then "1" else "0"

unfoldable pub write_toggle : Storage → String → Bool → Storage × Bool
unfolding set_item
write_toggle s key on = set_item s s.writes_left key (flag on)

-- `getAllyProximity` and `getCameraListen`, which let the exception through.
abbrev pub get_ally_proximity : Storage → Option Bool
get_ally_proximity s = read_toggle s ally_proximity_key

abbrev pub get_camera_listen : Storage → Option Bool
get_camera_listen s = read_toggle s camera_listen_key

-- The other getters: on, where the storage cannot be read.
abbrev pub or_on : Option Bool → Bool
or_on none = true
or_on (some b) = b

abbrev pub get_camera_only : Storage → Bool
get_camera_only s = or_on (read_toggle s camera_only_key)

abbrev pub get_shared_reset : Storage → Bool
get_shared_reset s = or_on (read_toggle s shared_reset_key)

abbrev pub get_app_audio : Storage → Bool
get_app_audio s = or_on (read_toggle s app_audio_key)

abbrev pub get_force_turn_relay : Storage → Bool
get_force_turn_relay s = or_on (read_toggle s force_turn_key)

-- `getItem(key) || null`.
abbrev pub some_text : Option String → Option String
some_text none = none
some_text (some text) = if text == "" then none else some text

unfoldable pub get_app_audio_device : Storage → Option String
get_app_audio_device s =
    if s.is_readable then some_text (lookup app_audio_device_key s.items) else none

-- Without a name the key is removed.
unfoldable pub set_app_audio_device : Storage → Option String → Storage
unfolding set_item
set_app_audio_device s none = record s { items = erase app_audio_device_key s.items }
set_app_audio_device s (some name) =
    if name == ""
    then record s { items = erase app_audio_device_key s.items }
    else (set_item s s.writes_left app_audio_device_key name).0

-- Writes one after another, up to the first that throws.
unfoldable pub write_all : Storage → ℕ → List (String × String) → Storage × Bool
unfolding set_item
write_all s left [] = (s, true)
write_all s zero ((key, text) ∷ items) = (s, false)
write_all s (suc left) ((key, text) ∷ items) =
    write_all (set_item s (suc left) key text).0 left items

abbrev pub defaults : List (String × String)
defaults =
    (ally_proximity_key, "1")
    ∷ (camera_listen_key, "1")
    ∷ (camera_only_key, "1")
    ∷ (shared_reset_key, "1")
    ∷ (app_audio_key, "1")
    ∷ (force_turn_key, "1")
    ∷ (audio_defaults_key, audio_defaults_version)
    ∷ []

abbrev pub is_version : Option String → Bool
is_version none = false
is_version (some text) = text == audio_defaults_version

-- `applyAudioDefaultsOnce`.
unfoldable pub apply_audio_defaults_once : Storage → Storage × Bool
unfolding write_all
apply_audio_defaults_once s =
    if not s.is_readable
    then (s, false)
    else if is_version (lookup audio_defaults_key s.items)
    then (s, false)
    else write_all s s.writes_left defaults
