-- ===== src/Handshake/Preserved.antt =====
-- The `join` and the closing of a socket keep the invariant of the rooms (server/src/ws-handler.ts).
use lo_lprox_chat.Common.{
  ℕ, String, ◌≡◌, refl, Bool, ◌&&◌, Option, none, some, ◌==◌, nat_eq, string_eq, Bool-cases, inl,
  inr,
}
use lo_lprox_chat.Common.Dict.{lookup}
use lo_lprox_chat.Json.{is_true}
use lo_lprox_chat.Client.{Client, Team}
use lo_lprox_chat.Validate.{JoinValidation, valid, invalid, validate_join}
use lo_lprox_chat.Messages.{ClientMessage}
use lo_lprox_chat.Rooms.{Rooms, join, leave, get_client_info}
use lo_lprox_chat.Rooms.Invariant.{Inv, set_team-Inv, set_shared_reset-Inv}
use lo_lprox_chat.Rooms.Info.{get_client_info-none}
use lo_lprox_chat.Rooms.Join.{join-Inv}
use lo_lprox_chat.Rooms.Leave.{leave-Inv, leave-gone}
use lo_lprox_chat.Handshake.{
  read_team, enter, move, refresh_team, rejoin, join_as, join_valid, handle_join, on_close,
}

module _ (is_open : ℕ → Bool) (s : Rooms) (v : Inv s) (ws : ℕ) where
  pub enter-Inv :
      (m : ClientMessage) (room name : String)
      → lookup ws s.clients ≡ none
      → Inv (enter is_open s ws m room name).0
  unfolding enter
  enter-Inv m room name fresh =
      set_shared_reset-Inv (join s room name ws (read_team m.team)).0 ws (is_true m.shared_reset)
        (join-Inv s v room name ws (read_team m.team) fresh)

  refresh_team-Inv : (t : Option Team) → Inv (refresh_team s ws t)
  unfolding refresh_team
  refresh_team-Inv none = v
  refresh_team-Inv (some t) = set_team-Inv s ws t v

  rejoin-Inv : (m : ClientMessage) → Inv (rejoin is_open s ws m).0
  unfolding rejoin
  rejoin-Inv m =
      set_shared_reset-Inv (refresh_team s ws (read_team m.team)) ws (is_true m.shared_reset)
        (refresh_team-Inv (read_team m.team))

move-Inv :
    (is_open : ℕ → Bool) (s : Rooms) (ws : ℕ) (m : ClientMessage) (room name : String)
    → Inv s
    → Inv (move is_open s ws m room name).0
unfolding move
move-Inv is_open s ws m room name v =
    enter-Inv is_open (leave s ws).0 (leave-Inv s ws v) ws m room name (leave-gone s ws v)

join_as-Inv :
    (is_open : ℕ → Bool) (s : Rooms) (ws : ℕ) (m : ClientMessage) (room name : String)
    (o : Option Client)
    → get_client_info s ws ≡ o
    → Inv s
    → Inv (join_as is_open s ws m room name o).0
unfolding join_as
join_as-Inv is_open s ws m room name none e v =
    enter-Inv is_open s v ws m room name (get_client_info-none s ws e)
join_as-Inv is_open s ws m room name (some c) e v =
    elim (Bool-cases (c.room_id == room && c.name == name)) [
      | inl same ↦ rw same (rejoin-Inv is_open s v ws m)
      | inr other ↦ rw other (move-Inv is_open s ws m room name v)
    ]

join_valid-Inv :
    (is_open : ℕ → Bool) (s : Rooms) (ws : ℕ) (m : ClientMessage) (j : JoinValidation)
    → Inv s
    → Inv (join_valid is_open s ws m j).0
unfolding join_valid
join_valid-Inv is_open s ws m (invalid e) v = v
join_valid-Inv is_open s ws m (valid room name) v =
    join_as-Inv is_open s ws m room name (get_client_info s ws) refl v

-- A `join` keeps the invariant, whatever it brings and wherever the socket was.
pub handle_join-Inv :
    (is_open : ℕ → Bool) (s : Rooms) (ws : ℕ) (m : ClientMessage)
    → Inv s
    → Inv (handle_join is_open s ws m).0
unfolding handle_join
handle_join-Inv is_open s ws m v = join_valid-Inv is_open s ws m (validate_join m.room m.name) v

pub on_close-Inv : (is_open : ℕ → Bool) (s : Rooms) (ws : ℕ) → Inv s → Inv (on_close is_open s ws).0
unfolding on_close
on_close-Inv is_open s ws v = leave-Inv s ws v
