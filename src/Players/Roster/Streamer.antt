-- ===== src/Players/Roster/Streamer.antt =====
-- src/services/game-state.ts: a player in streamer mode finds the room of the others.
use mathlib.Core.List.{Perm}
use lo_lprox_chat.Common.{
  ◌≡◌, refl, sym, ap, ◌∙◌, Bool, true, false, not, List, [], ◌∷◌, map, filter, All, arith, beq_refl,
}
use lo_lprox_chat.Address.Chars.{Chars, chars_eq, includes, is_empty}
use lo_lprox_chat.Players.{hash_sign, with_tag, as_trimmed_string, normalize_name}
use lo_lprox_chat.Players.RoomId.{generate_room_id}
use lo_lprox_chat.Players.RoomId.Agreed.{generate_room_id-agreed}
use lo_lprox_chat.Players.Roster.{Player, is_obscured, room_name, room_names, is_tagged}

-- What League's streamer mode shows of a player: its champion for its name.
abbrev pub as_streamed : Player → Player
as_streamed p = record p { summoner_name = p.champion_name }

-- A player whose Riot ID the others see as its name, of a champion without `#` in its name.
pub record IsNamed (p : Player) : Type 0 where
  pub has_name : is_empty (as_trimmed_string p.riot_id_game_name) ≡ false
  pub shown :
      p.summoner_name
      ≡ with_tag (as_trimmed_string p.riot_id_game_name) (as_trimmed_string p.riot_id_tag_line)
  pub tagged : includes hash_sign p.summoner_name ≡ true
  pub champion : includes hash_sign p.champion_name ≡ false

module _ (fold lower : Chars → Chars) where
  is_obscured-named : (p : Player) → IsNamed p → is_obscured fold lower p ≡ false
  unfolding is_obscured
  is_obscured-named p h = ground (arith, h.tagged)

  is_obscured-streamed : (p : Player) → IsNamed p → is_obscured fold lower (as_streamed p) ≡ true
  unfolding is_obscured
  is_obscured-streamed p h =
      rw (h.has_name, h.champion) (beq_refl (normalize_name fold p.champion_name))

  filter-none :
      (ps : List Player)
      → All IsNamed ps
      → filter (λ p. not (is_obscured fold lower p)) (map as_streamed ps) ≡ []
  unfolding filter
  filter-none [] h = refl
  filter-none (p ∷ ps) h = rw (is_obscured-streamed p h.0) (filter-none ps h.1)

  room_name-streamed :
      (p : Player) → IsNamed p → room_name fold lower true (as_streamed p) ≡ p.summoner_name
  unfolding room_name
  room_name-streamed p h = rw (is_obscured-streamed p h) (sym h.shown)

  room_name-named : (b : Bool) (p : Player) → IsNamed p → room_name fold lower b p ≡ p.summoner_name
  unfolding room_name
  room_name-named b p h = rw (is_obscured-named p h) refl

  names-streamed :
      (ps : List Player)
      → All IsNamed ps
      → map (room_name fold lower true) (map as_streamed ps)
        ≡ map (λ (p : Player). p.summoner_name) ps
  names-streamed [] h = refl
  names-streamed (p ∷ ps) h = rw (room_name-streamed p h.0, names-streamed ps h.1) refl

  names-named :
      (b : Bool) (ps : List Player)
      → All IsNamed ps
      → map (room_name fold lower b) ps ≡ map (λ (p : Player). p.summoner_name) ps
  names-named b [] h = refl
  names-named b (p ∷ ps) h = rw (room_name-named b p h.0, names-named b ps h.1) refl

  room_names-streamed :
      (ps : List Player)
      → All IsNamed ps
      → room_names fold lower (map as_streamed ps) ≡ map (λ (p : Player). p.summoner_name) ps
  unfolding room_names is_tagged
  room_names-streamed ps h =
      ap (λ l. map (room_name fold lower (is_tagged fold lower l)) (map as_streamed ps))
        (filter-none ps h)
      ∙ names-streamed ps h

  room_names-named :
      (ps : List Player)
      → All IsNamed ps
      → room_names fold lower ps ≡ map (λ (p : Player). p.summoner_name) ps
  unfolding room_names
  room_names-named ps h = names-named _ ps h

  -- A client in streamer mode, which sees every player under the name of its champion, hashes the
  -- same room as the clients that see the Riot IDs, in whatever order they list the players, where
  -- every player has a name and a tag and no champion has a `#` in its name.
  pub generate_room_id-streamed :
      (ps qs : List Player)
      → All IsNamed ps
      → All IsNamed qs
      → Perm (map (λ (p : Player). p.summoner_name) ps) (map (λ (p : Player). p.summoner_name) qs)
      → generate_room_id (room_names fold lower (map as_streamed ps))
        ≡ generate_room_id (room_names fold lower qs)
  generate_room_id-streamed ps qs hp hq p =
      ap generate_room_id (room_names-streamed ps hp)
      ∙ (generate_room_id-agreed _ _ 0 p).0
      ∙ ap generate_room_id (sym (room_names-named qs hq))
