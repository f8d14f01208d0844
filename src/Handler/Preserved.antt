-- ===== src/Handler/Preserved.antt =====
-- Every frame keeps the invariant of the rooms (server/src/ws-handler.ts).
use lo_lprox_chat.Common.{
  ℕ, String, ◌≡◌, ◌≢◌, refl, sym, ◌∙◌, Bool, true, false, Option, none, some, arith, ◌==◌, nat_eq,
  string_eq, if_holds, Bool-cases, inl, inr,
}
use lo_lprox_chat.Common.Dict.{lookup}
use lo_lprox_chat.Json.{Json, str, is_true}
use lo_lprox_chat.Client.{Client, Point}
use lo_lprox_chat.Messages.{ClientMessage, Frame, bad_json, not_object, object, unknown_type}
use lo_lprox_chat.Rooms.{Rooms, get_client_info, set_position, try_stamp_room_reset}
use lo_lprox_chat.Rooms.Invariant.{
  Inv, set_shared_reset-Inv, set_position-Inv, set_camera-Inv, clear_camera-Inv, clear_position-Inv,
  try_stamp_room_reset-Inv, stamp_sender_reset-Inv,
}
use lo_lprox_chat.Rooms.Info.{info_room_exists}
use lo_lprox_chat.Handshake.Preserved.{handle_join-Inv}
use lo_lprox_chat.Handshake.{Outcome, send_error, handle_join}
use lo_lprox_chat.Client.{read_point}
use lo_lprox_chat.Handler.{
  shared_reset_room_ms, shared_reset_as, handle_shared_reset, relay_reset, reset_all_as,
  handle_reset_all, store_camera, store_coords, coords_as, handle_coords, handle_signal,
  handle_position, switch_on, handle_kind, handle_frame, read_seen,
}

try_stamp_room_reset-rooms :
    (s : Rooms) (room r : String) (now cooldown_ms : ℕ)
    → lookup r (try_stamp_room_reset s room now cooldown_ms).0.rooms ≡ lookup r s.rooms
unfolding try_stamp_room_reset
try_stamp_room_reset-rooms s room r now cooldown_ms = ground arith

relay_reset-Inv :
    (is_open : ℕ → Bool) (ws now : ℕ) (c : Client) (t : Rooms) (stamped : Bool)
    → lookup c.room_id t.rooms ≢ none
    → Inv t
    → Inv (relay_reset is_open ws now c (t, stamped)).0
unfolding relay_reset
relay_reset-Inv is_open ws now c t false h v = v
relay_reset-Inv is_open ws now c t true h v = stamp_sender_reset-Inv t c.room_id c.name now h v

module _ (is_open : ℕ → Bool) (s : Rooms) (ws now : ℕ) (v : Inv s) where
  shared_reset_as-Inv :
      (m : ClientMessage) (o : Option Client) → Inv (shared_reset_as is_open s ws m o).0
  unfolding shared_reset_as
  shared_reset_as-Inv m none = v
  shared_reset_as-Inv m (some c) = set_shared_reset-Inv s ws (is_true m.on) v

  reset_all_as-Inv :
      (o : Option Client) → get_client_info s ws ≡ o → Inv (reset_all_as is_open s ws now o).0
  unfolding reset_all_as
  reset_all_as-Inv none e = v
  reset_all_as-Inv (some c) e = ground (
    arith,
    v,
    try_stamp_room_reset-Inv s c.room_id now shared_reset_room_ms (info_room_exists s ws c v e) v,
    relayed,
  )
    where
      relayed :
          Inv
            (relay_reset is_open ws now c
              (try_stamp_room_reset s c.room_id now shared_reset_room_ms)).0
      relayed =
          relay_reset-Inv is_open ws now c
            (try_stamp_room_reset s c.room_id now shared_reset_room_ms).0
            (try_stamp_room_reset s c.room_id now shared_reset_room_ms).1
            (λ n.
              info_room_exists s ws c v e (
                sym (try_stamp_room_reset-rooms s c.room_id c.room_id now shared_reset_room_ms)
                ∙ n))
            (try_stamp_room_reset-Inv s c.room_id now shared_reset_room_ms
              (info_room_exists s ws c v e) v)

store_camera-Inv :
    (s : Rooms) (ws now : ℕ) (p : Option Point) → Inv s → Inv (store_camera s ws now p)
unfolding store_camera
store_camera-Inv s ws now none v = clear_camera-Inv s ws v
store_camera-Inv s ws now (some p) v = set_camera-Inv s ws p now v

store_coords-Inv :
    (is_open : ℕ → Bool) (s : Rooms) (ws now : ℕ) (m : ClientMessage) (p : Option Point)
    → Inv s
    → Inv (store_coords is_open s ws now m p).0
unfolding store_coords
store_coords-Inv is_open s ws now m none v = v
store_coords-Inv is_open s ws now m (some p) v = elim (Bool-cases (is_true m.stale)) [
  | inl e ↦ rw e (clear_position-Inv s ws (read_seen m p) now v)
  | inr e ↦ rw e (
      store_camera-Inv (set_position s ws p now) ws now (read_point m.cx m.cy)
        (set_position-Inv s ws p now v))
]

coords_as-Inv :
    (is_open : ℕ → Bool) (s : Rooms) (ws now : ℕ) (m : ClientMessage) (o : Option Client)
    → Inv s
    → Inv (coords_as is_open s ws now m o).0
unfolding coords_as
coords_as-Inv is_open s ws now m none v = v
coords_as-Inv is_open s ws now m (some c) v =
    store_coords-Inv is_open s ws now m (read_point m.x m.y) v

pub handle_coords-Inv :
    (is_open : ℕ → Bool) (s : Rooms) (ws now : ℕ) (m : ClientMessage)
    → Inv s
    → Inv (handle_coords is_open s ws now m).0
unfolding handle_coords
handle_coords-Inv is_open s ws now m v = coords_as-Inv is_open s ws now m (get_client_info s ws) v

-- A property of every handler holds of the switch between them.
pub switch_on_cases {ℓ} :
    (P : Outcome → Type ℓ) (is_open : ℕ → Bool) (s : Rooms) (ws now : ℕ) (m : ClientMessage)
    (kind : String)
    → P (handle_join is_open s ws m)
    → P (handle_signal is_open s ws m)
    → P (handle_position is_open s ws m)
    → P (handle_shared_reset is_open s ws m)
    → P (handle_reset_all is_open s ws now)
    → P (handle_coords is_open s ws now m)
    → P (s, send_error is_open ws (unknown_type m.kind))
    → P (switch_on is_open s ws now m kind)
unfolding switch_on
switch_on_cases P is_open s ws now m kind a b c d e f g =
    if_holds P (kind == "join") _ _ (λ _. a)
      λ _.
        if_holds P (kind == "signal") _ _ (λ _. b)
          λ _.
            if_holds P (kind == "position") _ _ (λ _. c)
              λ _.
                if_holds P (kind == "shared_reset") _ _ (λ _. d)
                  λ _.
                    if_holds P (kind == "reset_all") _ _ (λ _. e)
                      λ _. if_holds P (kind == "coords") _ _ (λ _. f) (λ _. g)

switch_on-Inv :
    (is_open : ℕ → Bool) (s : Rooms) (ws now : ℕ) (m : ClientMessage) (kind : String)
    → Inv s
    → Inv (switch_on is_open s ws now m kind).0
unfolding handle_signal handle_position handle_shared_reset handle_reset_all handle_coords
switch_on-Inv is_open s ws now m kind v =
    switch_on_cases (λ o. Inv o.0) is_open s ws now m kind (handle_join-Inv is_open s ws m v) v v
      (shared_reset_as-Inv is_open s ws now v m (get_client_info s ws))
      (reset_all_as-Inv is_open s ws now v (get_client_info s ws) refl)
      (coords_as-Inv is_open s ws now m (get_client_info s ws) v) v

handle_kind-Inv :
    (is_open : ℕ → Bool) (s : Rooms) (ws now : ℕ) (m : ClientMessage) (kind : Json)
    → Inv s
    → Inv (handle_kind is_open s ws now m kind).0
unfolding handle_kind
handle_kind-Inv is_open s ws now m (str kind) v = switch_on-Inv is_open s ws now m kind v
handle_kind-Inv is_open s ws now m _ v = v

-- Whatever a frame is, and in whichever state its socket, the rooms keep their invariant.
pub handle_frame-Inv :
    (is_open : ℕ → Bool) (s : Rooms) (ws now : ℕ) (frame : Frame)
    → Inv s
    → Inv (handle_frame is_open s ws now frame).0
unfolding handle_frame
handle_frame-Inv is_open s ws now bad_json v = v
handle_frame-Inv is_open s ws now not_object v = v
handle_frame-Inv is_open s ws now (object m) v = handle_kind-Inv is_open s ws now m m.kind v
