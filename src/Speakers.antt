-- ===== src/Speakers.antt =====
-- src/services/speakers.ts: who is on the list of those who speak. Levels are in any unit, times in
-- milliseconds.
pub mod Kept
pub mod History
pub mod Listed
use lo_lprox_chat.Common.{
  ℕ, suc, ◌+◌, ◌-◌, String, Bool, true, false, not, ◌||◌, Option, none, some, List, [], ◌∷◌, ◌++◌,
  map, length, ltb, leb, ◌==◌, string_eq, if◌then◌else◌,
}
use lo_lprox_chat.Common.Dict.{Dict, lookup, insert, erase}
use lo_lprox_chat.Address.Chars.{Chars, trim, is_empty}
use lo_lprox_chat.Players.{cut_last_hash}

-- `SPEAKING_HOLD_MS` and `MAX_NAME_CHARS`.
abbrev pub speaking_hold_ms : ℕ
speaking_hold_ms = 500

abbrev pub max_name_chars : ℕ
max_name_chars = 16

abbrev pub ellipsis : ℕ
ellipsis = 0x2026

-- `slice(0, n)`.
abbrev pub first_chars : ℕ → Chars → Chars
first_chars n [] = []
first_chars n (c ∷ cs) = let rest = first_chars (n - 1) cs in if leb n 0 then [] else c ∷ rest

-- The part before the last `#`, unless that is the first character.
abbrev pub before_hash : Chars → Option (Chars × Chars) → Chars
before_hash riot_id none = riot_id
before_hash riot_id (some ([], tag)) = riot_id
before_hash riot_id (some (c ∷ name, tag)) = c ∷ name

unfoldable pub speaker_name : Chars → Chars
unfolding cut_last_hash
speaker_name riot_id =
    let name = trim (before_hash riot_id (cut_last_hash riot_id)) in
    if ltb max_name_chars (length name)
    then first_chars (max_name_chars - 1) name ++ (ellipsis ∷ [])
    else name

-- "Summoner (Champion)".
unfoldable pub speaker_label : Chars → Chars → Chars
unfolding speaker_name
speaker_label riot_id [] = speaker_name riot_id
speaker_label riot_id (c ∷ champion) =
    speaker_name riot_id ++ (b' ' ∷ b'(' ∷ ((c ∷ champion) ++ (b')' ∷ [])))

-- `SpeakingTracker`.
pub record Speaking : Type 0 where
  pub last_loud_ms : Dict String ℕ
  pub started_ms : Dict String ℕ

abbrev pub nobody : Speaking
nobody = record { last_loud_ms = []; started_ms = [] }

-- The first loop of `update`.
unfoldable pub note_loud : (String → ℕ) → ℕ → Dict String ℕ → Dict String ℕ → Dict String ℕ
note_loud threshold now [] last = last
note_loud threshold now ((key, level) ∷ levels) last =
    note_loud threshold now levels (if leb (threshold key) level then insert key now last else last)

abbrev pub is_heard : Option ℕ → Bool
is_heard none = false
is_heard (some _) = true

-- Not heard any more, or silent for longer than the hold.
abbrev pub is_done : Dict String ℕ → ℕ → String → ℕ → Bool
is_done levels now key ms = not (is_heard (lookup key levels)) || ltb speaking_hold_ms (now - ms)

abbrev pub start_one : Speaking → String → ℕ → Option ℕ → Speaking
start_one s key now none = record s { started_ms = insert key now s.started_ms }
start_one s key now (some _) = s

-- One round of the second loop.
unfoldable pub settle_one : Dict String ℕ → ℕ → Speaking → String → ℕ → Speaking
settle_one levels now s key ms =
    if is_done levels now key ms
    then record s { last_loud_ms = erase key s.last_loud_ms; started_ms = erase key s.started_ms }
    else start_one s key now (lookup key s.started_ms)

unfoldable pub settle_all : Dict String ℕ → ℕ → Dict String ℕ → Speaking → Speaking
unfolding settle_one
settle_all levels now [] s = s
settle_all levels now ((key, ms) ∷ rest) s =
    settle_all levels now rest (settle_one levels now s key ms)

-- `sort((a, b) => a[1] - b[1])`, which keeps the order of equals.
unfoldable pub put_by_time : String × ℕ → Dict String ℕ → Dict String ℕ
put_by_time e [] = e ∷ []
put_by_time e (f ∷ rest) =
    let more = put_by_time e rest in if leb e.1 f.1 then e ∷ f ∷ rest else f ∷ more

unfoldable pub by_time : Dict String ℕ → Dict String ℕ
unfolding put_by_time
by_time [] = []
by_time (e ∷ rest) = put_by_time e (by_time rest)

unfoldable pub update : Speaking → Dict String ℕ → (String → ℕ) → ℕ → Speaking × List String
unfolding note_loud settle_all by_time
update s levels threshold now =
    let last = note_loud threshold now levels s.last_loud_ms in
    let t = settle_all levels now last (record s { last_loud_ms = last }) in
    (t, map (λ (e : String × ℕ). e.0) (by_time t.started_ms))

unfoldable pub reset : Speaking → Speaking
reset s = nobody
