-- ===== src/Rooms/Invariant.antt =====
-- The invariant of `RoomManager` (server/src/rooms.ts), and the operations that change an entry in
-- place.
use lo_lprox_chat.Common.{
  ℕ, ◌<◌, String, ◌≡◌, refl, sym, ◌≢◌, ◌∙◌, Bool, Option, none, some, List, [], ◌∷◌, arith, inl,
  inr, nat_eq, string_eq, nat_beq_iff, All, In, Option-cases, Bool-cases,
}
use text.Mathlib.TextEquality.{eq_iff}
use lo_lprox_chat.Common.Dict.{lookup, insert, lookup-insert}
use lo_lprox_chat.Client.{Client, Team, Point}
use lo_lprox_chat.Rooms.{
  Rooms, no_rooms, members, update, change, set_team, set_position, set_camera, clear_camera,
  clear_position, set_shared_reset, Seen, with_team, with_position, with_camera, without_camera,
  without_position, with_shared_reset, try_stamp_room_reset, stamp_sender_reset, or_nil, too_soon,
}
use lo_lprox_chat.Rooms.Entries.{Distinct, Apart, All-In, All-intro}

-- `i` is an allocated entry of `room`, and its socket leads back to it.
pub record IsMember (s : Rooms) (room : String) (i : ℕ) : Type 0 where
  pub in_room : (s.heap i).room_id ≡ room
  pub registered : lookup (s.heap i).ws s.clients ≡ some i
  pub allocated : i < s.next

-- `i` is the entry of the socket `ws`, and stands in the list of its room.
pub record IsEntry (s : Rooms) (ws i : ℕ) : Type 0 where
  pub socket : (s.heap i).ws ≡ ws
  pub listed : In i (members s (s.heap i).room_id)

pub record Inv (s : Rooms) : Type 0 where
  pub members_hold : (room : String) → All (IsMember s room) (members s room)
  pub entries_hold : (ws i : ℕ) → lookup ws s.clients ≡ some i → IsEntry s ws i
  pub distinct : (room : String) → Distinct s.heap (members s room)
  pub nonempty : (room : String) → lookup room s.rooms ≢ some []
  pub resets :
      (room : String)
      → lookup room s.rooms ≡ none
      → (lookup room s.room_reset_ms ≡ none) × (lookup room s.sender_reset_ms ≡ none)

-- A change of an entry that keeps its socket, room and name.
abbrev pub KeepsIdentity : (Client → Client) → Type 0
KeepsIdentity f =
    (c : Client) → ((f c).ws ≡ c.ws) × ((f c).room_id ≡ c.room_id) × ((f c).name ≡ c.name)

module _ (f : Client → Client) (k : KeepsIdentity f) (heap : ℕ → Client) (i : ℕ) where
  abbrev changed : ℕ → Client
  changed = update heap i (f (heap i))

  changed_ws : (j : ℕ) → (changed j).ws ≡ (heap j).ws
  changed_ws j = ground (arith, k (heap j), nat_beq_iff j i)

  changed_room : (j : ℕ) → (changed j).room_id ≡ (heap j).room_id
  changed_room j = ground (arith, k (heap j), nat_beq_iff j i)

  changed_name : (j : ℕ) → (changed j).name ≡ (heap j).name
  changed_name j = ground (arith, k (heap j), nat_beq_iff j i)

-- Whatever names the entries of a list had, they have them in the other heap.
pub Distinct-heap :
    (heap heap' : ℕ → Client) (xs : List ℕ)
    → ((j : ℕ) → In j xs → (heap' j).name ≡ (heap j).name)
    → Distinct heap xs
    → Distinct heap' xs
Distinct-heap heap heap' [] same h = tt
Distinct-heap heap heap' (x ∷ xs) same h = (
  All-intro (Apart heap' x) xs
      (λ j m e. All-In (Apart heap x) xs j h.0 m (sym (same j (inr m)) ∙ e ∙ same x (inl refl))),
  Distinct-heap heap heap' xs (λ j m. same j (inr m)) h.1,
)

change_entry-Inv :
    (s : Rooms) (i : ℕ) (f : Client → Client)
    → KeepsIdentity f
    → Inv s
    → Inv (record s { heap = update s.heap i (f (s.heap i)) })
change_entry-Inv s i f k v = record {
  members_hold = λ room. All-intro _ (members s room) (λ j m.
      let old = All-In (IsMember s room) (members s room) j (v.members_hold room) m in
      record {
        in_room = changed_room f k s.heap i j ∙ old.in_room;
        registered = rw (changed_ws f k s.heap i j) old.registered;
        allocated = old.allocated;
      });
  entries_hold = λ ws j e.
      let old = v.entries_hold ws j e in
      record {
        socket = changed_ws f k s.heap i j ∙ old.socket;
        listed = rw (changed_room f k s.heap i j) old.listed;
      };
  distinct = λ room.
      Distinct-heap s.heap (changed f k s.heap i) (members s room)
        (λ j m. changed_name f k s.heap i j) (v.distinct room);
  nonempty = v.nonempty;
  resets = v.resets;
}

pub change-Inv :
    (s : Rooms) (ws : ℕ) (f : Client → Client) → KeepsIdentity f → Inv s → Inv (change s ws f)
unfolding change
change-Inv s ws f k v = elim (Option-cases (lookup ws s.clients)) [
  | inl e ↦ rw (e, change) v
  | inr (i, e) ↦ rw (e, change) (change_entry-Inv s i f k v)
]

pub set_team-Inv : (s : Rooms) (ws : ℕ) (t : Team) → Inv s → Inv (set_team s ws t)
unfolding set_team
set_team-Inv s ws t v = change-Inv s ws (with_team t) (λ c. (refl, refl, refl)) v

pub set_position-Inv :
    (s : Rooms) (ws : ℕ) (p : Point) (now : ℕ) → Inv s → Inv (set_position s ws p now)
unfolding set_position
set_position-Inv s ws p now v = change-Inv s ws (with_position p now) (λ c. (refl, refl, refl)) v

pub set_camera-Inv :
    (s : Rooms) (ws : ℕ) (p : Point) (now : ℕ) → Inv s → Inv (set_camera s ws p now)
unfolding set_camera
set_camera-Inv s ws p now v = change-Inv s ws (with_camera p now) (λ c. (refl, refl, refl)) v

pub clear_camera-Inv : (s : Rooms) (ws : ℕ) → Inv s → Inv (clear_camera s ws)
unfolding clear_camera
clear_camera-Inv s ws v = change-Inv s ws without_camera (λ c. (refl, refl, refl)) v

pub clear_position-Inv :
    (s : Rooms) (ws : ℕ) (seen : Option Seen) (now : ℕ) → Inv s → Inv (clear_position s ws seen now)
unfolding clear_position
clear_position-Inv s ws seen now v =
    change-Inv s ws (without_position seen now) (λ c. (refl, refl, refl)) v

pub set_shared_reset-Inv : (s : Rooms) (ws : ℕ) (on : Bool) → Inv s → Inv (set_shared_reset s ws on)
unfolding set_shared_reset
set_shared_reset-Inv s ws on v = change-Inv s ws (with_shared_reset on) (λ c. (refl, refl, refl)) v

-- A room with an entry is in the map of rooms.
pub room_exists :
    (s : Rooms) (room : String) (i : ℕ) → In i (members s room) → lookup room s.rooms ≢ none
room_exists s room i m e = ground (arith, e, m)

pub try_stamp_room_reset-Inv :
    (s : Rooms) (room : String) (now cooldown_ms : ℕ)
    → lookup room s.rooms ≢ none
    → Inv s
    → Inv (try_stamp_room_reset s room now cooldown_ms).0
unfolding try_stamp_room_reset
try_stamp_room_reset-Inv s room now cooldown_ms h v =
    elim (Bool-cases (too_soon now cooldown_ms (lookup room s.room_reset_ms))) [
      | inl soon ↦ rw (soon, try_stamp_room_reset) v
      | inr free ↦ rw (free, try_stamp_room_reset) (stamped)
    ]
  where
    stamped : Inv (record s { room_reset_ms = insert room now s.room_reset_ms })
    stamped = record {
      members_hold = λ r. All-intro _ (members s r) (λ j m.
          let old = All-In (IsMember s r) (members s r) j (v.members_hold r) m in
          record { in_room = old.in_room; registered = old.registered; allocated = old.allocated });
      entries_hold = λ ws i e.
          let old = v.entries_hold ws i e in record { socket = old.socket; listed = old.listed };
      distinct = v.distinct;
      nonempty = v.nonempty;
      resets = λ r e.
          ground (arith, v.resets r e, lookup-insert room r now s.room_reset_ms, eq_iff room r);
    }

pub stamp_sender_reset-Inv :
    (s : Rooms) (room name : String) (now : ℕ)
    → lookup room s.rooms ≢ none
    → Inv s
    → Inv (stamp_sender_reset s room name now)
unfolding stamp_sender_reset
stamp_sender_reset-Inv s room name now h v = record {
  members_hold = λ r. All-intro _ (members s r) (λ j m.
      let old = All-In (IsMember s r) (members s r) j (v.members_hold r) m in
      record { in_room = old.in_room; registered = old.registered; allocated = old.allocated });
  entries_hold = λ ws i e.
      let old = v.entries_hold ws i e in record { socket = old.socket; listed = old.listed };
  distinct = v.distinct;
  nonempty = v.nonempty;
  resets = λ r e. ground (
    arith,
    v.resets r e,
    lookup-insert room r (insert name now (or_nil (lookup room s.sender_reset_ms)))
        s.sender_reset_ms,
    eq_iff room r,
  );
}

pub no_rooms-Inv : Inv no_rooms
unfolding lookup
no_rooms-Inv = record {
  members_hold = λ room. tt;
  entries_hold = λ ws i e. absurd (ground arith);
  distinct = λ room. tt;
  nonempty = λ room e. cc;
  resets = λ room e. (refl, refl);
}
