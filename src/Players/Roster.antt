-- ===== src/Players/Roster.antt =====
-- src/services/game-state.ts and src/core/streamer-detect.ts: the session that a roster gives.
-- `Player` is what its interface declares, so its names are texts.
pub mod Streamer
use lo_lprox_chat.Common.{
  ℕ, ◌+◌, Bool, true, false, not, ◌||◌, ◌&&◌, Option, none, some, List, [], ◌∷◌, filter, map,
  get_elem?, ◌==◌, nat_eq, if◌then◌else◌, ltb, leb,
}
use lo_lprox_chat.Common.Int.{ℤ, pos, negsuc}
use lo_lprox_chat.Client.{Team, order, chaos}
use lo_lprox_chat.Text.{codes}
use lo_lprox_chat.Address.Chars.{Chars, chars_eq, trim, includes, is_empty}
use lo_lprox_chat.Players.{
  RawIdentity, Identity, read_identity, normalize_name, hash_sign, with_tag, as_trimmed_string,
  match_local, Match,
}
use lo_lprox_chat.Players.RoomId.{generate_room_id}
use lo_lprox_chat.Players.MapDetect.{
  GameData, MapType, MapDetection, supported, unsupported, detect_map, Field, text,
}

pub record Player : Type 0 where
  pub summoner_name : Chars
  pub champion_name : Chars
  pub team : Team
  pub is_dead : Bool
  pub respawn_timer : ℕ
  pub riot_id_game_name : Option Chars
  pub riot_id_tag_line : Option Chars
  pub skin_id : Option ℕ
  pub raw_champion_name : Option Chars

-- An entry of the live client's list: `none` is a field that is missing or of another type.
pub record RawPlayer : Type 0 where
  pub summoner_name : Chars
  pub champion_name : Chars
  pub team : Option Chars
  pub is_dead : Option Bool
  pub respawn_timer : Option ℕ
  pub riot_id_game_name : Option Chars
  pub riot_id_tag_line : Option Chars
  pub skin_id : Option ℤ
  pub raw_champion_name : Option Chars

abbrev pub or_default {ℓ} : {A : Type ℓ} → A → Option A → A
or_default d none = d
or_default d (some a) = a

-- A name that is more than white space.
unfoldable pub usable_name : Option Chars → Option Chars
usable_name none = none
usable_name (some cs) = if is_empty (trim cs) then none else some cs

abbrev pub usable_skin : Option ℤ → Option ℕ
usable_skin (some (pos n)) = some n
usable_skin _ = none

abbrev pub team_of : Option Chars → Team
team_of none = chaos
team_of (some cs) = if cs == codes "ORDER" then order else chaos

unfoldable pub parse_player : RawPlayer → Player
unfolding usable_name
parse_player p = record {
  summoner_name = p.summoner_name;
  champion_name = p.champion_name;
  team = team_of p.team;
  is_dead = or_default false p.is_dead;
  respawn_timer = or_default 0 p.respawn_timer;
  riot_id_game_name = usable_name p.riot_id_game_name;
  riot_id_tag_line = usable_name p.riot_id_tag_line;
  skin_id = usable_skin p.skin_id;
  raw_champion_name = p.raw_champion_name;
}

unfoldable pub parse_player_list : Option (List RawPlayer) → List Player
unfolding parse_player
parse_player_list none = []
parse_player_list (some ps) = map parse_player ps

-- The fields of a player that `readIdentity` reads.
abbrev pub identity_fields : Player → RawIdentity
identity_fields p = record {
  summoner_name = some p.summoner_name;
  riot_id = none;
  riot_id_game_name = p.riot_id_game_name;
  riot_id_tag_line = p.riot_id_tag_line;
}

-- A player that stays in voice, with the map of the game if it is one we have coordinates for.
pub record GameSession : Type 0 where
  pub room_id : Chars
  pub local_player : Player
  pub all_players : List Player
  pub map_type : Option MapType
  pub game_mode : Chars
  pub has_tag_lines : Bool
  pub proximity_disabled : Bool

pub data SessionResult : Type 0 where
  ok : GameSession → SessionResult
  identity_unmatched streamer_mode : SessionResult

-- An entry of `get_live_players`; `none` is a timer that is no finite number.
pub record LivePlayer : Type 0 where
  pub identity : RawIdentity
  pub is_dead : Bool
  pub respawn_timer : Option ℕ

abbrev pub game_mode_of : Field → Chars
game_mode_of (text cs) = cs
game_mode_of _ = codes "CLASSIC"

abbrev pub map_type_of : MapDetection → Option MapType
map_type_of (supported m) = some m
map_type_of unsupported = none

abbrev pub is_unsupported : MapDetection → Bool
is_unsupported (supported m) = false
is_unsupported unsupported = true

-- `array.some`.
unfoldable pub any {ℓ} : {A : Type ℓ} → (A → Bool) → List A → Bool
any p [] = false
any p (x ∷ xs) = p x || any p xs

-- The entries whose identity can be read, with it.
unfoldable pub with_identity {ℓ} :
    {A : Type ℓ} → (A → Option Identity) → List A → List (A × Identity)
with_identity read [] = []
with_identity read (x ∷ xs) =
    let rest = with_identity read xs in elim (read x) [ none ↦ rest | some id ↦ (x, id) ∷ rest ]

-- The entry that the match is.
abbrev pub matched {ℓ} : {A : Type ℓ} → List (A × Identity) → Option Match → Option A
matched candidates none = none
matched candidates (some m) = elim (get_elem? candidates m.0) [ none ↦ none | some c ↦ some c.0 ]

abbrev pub identities {ℓ} : {A : Type ℓ} → List (A × Identity) → List Identity
identities = map (λ c. c.1)

-- `fold` is `.normalize('NFKC').toLowerCase()`, `lower` is `toLowerCase`.
module _ (fold lower : Chars → Chars) where
  abbrev pub tag_line_of : Option Identity → Chars
  tag_line_of none = []
  tag_line_of (some id) = id.tag_line

  unfoldable pub roster_has_tag_lines : List Player → Bool
  unfolding any
  roster_has_tag_lines =
      any (λ p. not (is_empty (tag_line_of (read_identity fold (identity_fields p)))))

  abbrev pub is_streamer_as : Player → Bool → Option Identity → Bool
  is_streamer_as p tag_lines none = false
  is_streamer_as p tag_lines (some id) =
      id.game_name == normalize_name fold p.champion_name && (not tag_lines || is_empty id.tag_line)

  unfoldable pub is_streamer_mode : Player → Bool → Bool
  is_streamer_mode p tag_lines = is_streamer_as p tag_lines (read_identity fold (identity_fields p))

  -- A name that the streamer mode of the client has put there.
  unfoldable pub is_obscured : Player → Bool
  is_obscured p =
      not (is_empty (as_trimmed_string p.riot_id_game_name))
      && not (includes hash_sign p.summoner_name)
      && normalize_name fold p.summoner_name == normalize_name fold p.champion_name

  unfoldable pub room_name : Bool → Player → Chars
  unfolding is_obscured
  room_name tagged p =
      if not (is_obscured p)
      then p.summoner_name
      else if tagged
      then with_tag (as_trimmed_string p.riot_id_game_name) (as_trimmed_string p.riot_id_tag_line)
      else as_trimmed_string p.riot_id_game_name

  -- Whether the names that are shown carry tags.
  unfoldable pub is_tagged : List Player → Bool
  unfolding any
  is_tagged shown = is_empty shown || any (λ p. includes hash_sign p.summoner_name) shown

  unfoldable pub room_names : List Player → List Chars
  unfolding is_obscured room_name is_tagged filter
  room_names ps = map (room_name (is_tagged (filter (λ p. not (is_obscured p)) ps))) ps

  -- The session of a local player that was found.
  unfoldable pub session_of : List Player → GameData → Option Player → SessionResult
  unfolding roster_has_tag_lines is_streamer_mode room_names detect_map
  session_of ps d none = identity_unmatched
  session_of ps d (some me) =
      if is_streamer_mode me (roster_has_tag_lines ps)
      then streamer_mode
      else ok (record {
        room_id = generate_room_id (room_names ps);
        local_player = me;
        all_players = ps;
        map_type = map_type_of (detect_map lower d);
        game_mode = game_mode_of d.game_mode;
        has_tag_lines = roster_has_tag_lines ps;
        proximity_disabled = is_unsupported (detect_map lower d);
      })

  unfoldable pub create_session : List Player → Identity → GameData → SessionResult
  unfolding session_of with_identity
  create_session ps local d =
      let candidates = with_identity (λ p. read_identity fold (identity_fields p)) ps in
      session_of ps d (matched candidates (match_local (identities candidates) local))

  abbrev pub death_of : Option LivePlayer → Option (Bool × ℕ)
  death_of none = none
  death_of (some p) = some (p.is_dead, or_default 0 p.respawn_timer)

  unfoldable pub local_death_state : List LivePlayer → Player → Option (Bool × ℕ)
  unfolding with_identity
  local_death_state ps local = elim (read_identity fold (identity_fields local)) [
    | none ↦ none
    | some me ↦
        let candidates = with_identity (λ (p : LivePlayer). read_identity fold p.identity) ps in
        death_of (matched candidates (match_local (identities candidates) me))
  ]
