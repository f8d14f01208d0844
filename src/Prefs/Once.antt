-- ===== src/Prefs/Once.antt =====
-- src/services/audio-prefs.ts: the defaults are put back once.
use lo_lprox_chat.Common.{
  ℕ, zero, suc, String, ◌≡◌, refl, sym, ap, ◌∙◌, Bool, true, false, Option, some, List, [], ◌∷◌,
  arith, ◌==◌, string_eq, if◌then◌else◌,
}
use lo_lprox_chat.Common.Dict.{Dict, lookup, insert, lookup-insert, lookup-insert_self}
use lo_lprox_chat.Prefs.{
  Storage, read_toggle, write_toggle, set_item, write_all, defaults, is_on, is_version,
  apply_audio_defaults_once, audio_defaults_key, ally_proximity_key, camera_listen_key,
  camera_only_key, shared_reset_key, app_audio_key, force_turn_key, flag,
}

-- What the items are after all writes.
abbrev written : Dict String String → List (String × String) → Dict String String
written items [] = items
written items ((key, text) ∷ more) = written (insert key text items) more

write_all-written :
    (s : Storage) (left : ℕ) (items : List (String × String))
    → (write_all s left items).1 ≡ true
    → ((write_all s left items).0.items ≡ written s.items items)
      × ((write_all s left items).0.is_readable ≡ s.is_readable)
unfolding write_all set_item
write_all-written s left [] e = (refl, refl)
write_all-written s zero ((key, text) ∷ items) e = absurd (ground arith)
write_all-written s (suc left) ((key, text) ∷ items) e =
    write_all-written (set_item s (suc left) key text).0 left items e

-- The last write to a key.
abbrev last_write : String → List (String × String) → Option String → Option String
last_write k [] o = o
last_write k ((key, text) ∷ more) o = last_write k more (if key == k then some text else o)

lookup-written :
    (k : String) (items : Dict String String) (more : List (String × String))
    → lookup k (written items more) ≡ last_write k more (lookup k items)
lookup-written k items [] = refl
lookup-written k items ((key, text) ∷ more) =
    lookup-written k (insert key text items) more
    ∙ ap (last_write k more) (lookup-insert key k text items)

apply_writes :
    (s : Storage)
    → (apply_audio_defaults_once s).1 ≡ true
    → (s.is_readable ≡ true)
      × (is_version (lookup audio_defaults_key s.items) ≡ false)
      × (apply_audio_defaults_once s ≡ write_all s s.writes_left defaults)
unfolding apply_audio_defaults_once
apply_writes s e = ground arith

read_toggle-written :
    (t : Storage) (items : Dict String String) (key : String)
    → t.is_readable ≡ true
    → t.items ≡ written items defaults
    → last_write key defaults (lookup key items) ≡ some "1"
    → read_toggle t key ≡ some true
unfolding read_toggle
read_toggle-written t items key readable is last =
    rw readable
      (ap (λ o. some (is_on o)) (ap (lookup key) is ∙ lookup-written key items defaults ∙ last))

again-nothing :
    (t : Storage)
    → is_version (lookup audio_defaults_key t.items) ≡ true
    → apply_audio_defaults_once t ≡ (t, false)
unfolding apply_audio_defaults_once
again-nothing t e = ground arith

-- The defaults are written only where their version is not; if that goes well, every toggle then
-- reads on, and the next launch changes nothing.
pub apply_audio_defaults_once_lem :
    (s : Storage)
    → (apply_audio_defaults_once s).1 ≡ true
    → let t = (apply_audio_defaults_once s).0 in
      (is_version (lookup audio_defaults_key s.items) ≡ false)
      × (read_toggle t ally_proximity_key ≡ some true)
      × (read_toggle t camera_listen_key ≡ some true)
      × (read_toggle t camera_only_key ≡ some true)
      × (read_toggle t shared_reset_key ≡ some true)
      × (read_toggle t app_audio_key ≡ some true)
      × (read_toggle t force_turn_key ≡ some true)
      × (apply_audio_defaults_once t ≡ (t, false))
apply_audio_defaults_once_lem s e =
    let (readable, old, wrote) = apply_writes s e in
    let t : Storage = (apply_audio_defaults_once s).0 in
    let done = write_all-written s s.writes_left defaults (sym (ap (λ o. o.1) wrote) ∙ e) in
    let items : t.items ≡ written s.items defaults =
      ap (λ (o : Storage × Bool). o.0.items) wrote ∙ done.0 in
    let open_still : t.is_readable ≡ true =
      ap (λ (o : Storage × Bool). o.0.is_readable) wrote ∙ done.1 ∙ readable in
    (
      old,
      read_toggle-written t s.items ally_proximity_key open_still items refl,
      read_toggle-written t s.items camera_listen_key open_still items refl,
      read_toggle-written t s.items camera_only_key open_still items refl,
      read_toggle-written t s.items shared_reset_key open_still items refl,
      read_toggle-written t s.items app_audio_key open_still items refl,
      read_toggle-written t s.items force_turn_key open_still items refl,
      again-nothing t (
          ap is_version (
            ap (lookup audio_defaults_key) items
            ∙ lookup-written audio_defaults_key s.items defaults)),
    )

set_item-ok :
    (s : Storage) (left : ℕ) (key text : String)
    → (set_item s left key text).1 ≡ true
    → ((set_item s left key text).0.items ≡ insert key text s.items)
      × ((set_item s left key text).0.is_readable ≡ s.is_readable)
unfolding set_item
set_item-ok s zero key text e = absurd (ground arith)
set_item-ok s (suc left) key text e = (refl, refl)

read_toggle-of :
    (t : Storage) (key : String)
    → t.is_readable ≡ true
    → read_toggle t key ≡ some (is_on (lookup key t.items))
unfolding read_toggle
read_toggle-of t key e = rw e refl

is_on-flag : (on : Bool) → is_on (some (flag on)) ≡ on
is_on-flag true = refl
is_on-flag false = refl

-- A toggle that is written reads back as it was written, and the others as before.
pub write_toggle_lem :
    (s : Storage) (key other : String) (on : Bool)
    → (write_toggle s key on).1 ≡ true
    → s.is_readable ≡ true
    → (key == other) ≡ false
    → let t = (write_toggle s key on).0 in
      (read_toggle t key ≡ some on) × (read_toggle t other ≡ read_toggle s other)
unfolding write_toggle
write_toggle_lem s key other on e readable apart =
    let t : Storage = (write_toggle s key on).0 in
    let (items, same) = set_item-ok s s.writes_left key (flag on) e in
    let here = read_toggle-of t key (same ∙ readable) in
    let there = read_toggle-of t other (same ∙ readable) in
    (
      here
          ∙ ap (λ o. some (is_on o))
              (ap (lookup key) items ∙ lookup-insert_self key (flag on) s.items)
          ∙ ap some (is_on-flag on),
      there
          ∙ ap (λ o. some (is_on o))
              (ap (lookup other) items
                ∙ lookup-insert key other (flag on) s.items
                ∙ ap (λ b. if b then some (flag on) else lookup other s.items) apart)
          ∙ sym (read_toggle-of s other readable),
    )
