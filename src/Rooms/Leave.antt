-- ===== src/Rooms/Leave.antt =====
-- `RoomManager.leave` (server/src/rooms.ts): it keeps the invariant, and takes out one entry.
use mathlib.Core.Bool.{false≢true}
use mathlib.Core.Path.{subst}
use lo_lprox_chat.Common.{
  ℕ, String, ◌≡◌, refl, sym, ap, ◌≢◌, ◌∙◌, Bool, none, some, List, [], ◌∷◌, map, arith, inl, inr,
  if◌then◌else◌, ◌==◌, nat_eq, string_eq, nat_beq_iff, All, In, Option-cases, Bool-cases, beq_refl,
}
use text.Mathlib.TextEquality.{eq_iff}
use lo_lprox_chat.Common.Dict.{lookup, erase, lookup-insert, lookup-erase}
use lo_lprox_chat.Rooms.{Rooms, members, remove_first, shrink_room, leave_room, leave_client, leave}
use lo_lprox_chat.Rooms.Entries.{
  Distinct, Apart, All-In, All-intro, In-remove_first, In-remove_first_sub, find-holds,
  remove_first-Distinct, remove_ref,
}
use lo_lprox_chat.Rooms.Invariant.{Inv, IsMember, IsEntry, room_exists}

abbrev unregistered : Rooms → ℕ → Rooms
unregistered s ws = record s { clients = erase ws s.clients }

abbrev is_ref : ℕ → ℕ → Bool
is_ref i j = j == i

shrink_room-members :
    (s : Rooms) (room r : String) (left : List ℕ)
    → members (shrink_room s room left) r ≡ (if room == r then left else members s r)
unfolding shrink_room
shrink_room-members s room r [] = ground (arith, lookup-erase room r s.rooms)
shrink_room-members s room r (x ∷ xs) = ground (arith, lookup-insert room r (x ∷ xs) s.rooms)

shrink_room-nonempty :
    (s : Rooms) (room r : String) (left : List ℕ)
    → lookup r s.rooms ≢ some []
    → lookup r (shrink_room s room left).rooms ≢ some []
unfolding shrink_room
shrink_room-nonempty s room r [] h e = ground (arith, lookup-erase room r s.rooms)
shrink_room-nonempty s room r (x ∷ xs) h e = ground (arith, lookup-insert room r (x ∷ xs) s.rooms)

shrink_room-resets :
    (s : Rooms) (room r : String) (left : List ℕ)
    → (lookup r s.rooms ≡ none
        → (lookup r s.room_reset_ms ≡ none) × (lookup r s.sender_reset_ms ≡ none))
    → lookup r (shrink_room s room left).rooms ≡ none
    → (lookup r (shrink_room s room left).room_reset_ms ≡ none)
      × (lookup r (shrink_room s room left).sender_reset_ms ≡ none)
unfolding shrink_room
shrink_room-resets s room r [] h e = ground (
  arith,
  lookup-erase room r s.rooms,
  lookup-erase room r s.room_reset_ms,
  lookup-erase room r s.sender_reset_ms,
)
shrink_room-resets s room r (x ∷ xs) h e = ground (arith, lookup-insert room r (x ∷ xs) s.rooms)

shrink_room-rest :
    (s : Rooms) (room : String) (left : List ℕ)
    → ((shrink_room s room left).heap ≡ s.heap)
      × ((shrink_room s room left).next ≡ s.next)
      × ((shrink_room s room left).clients ≡ s.clients)
unfolding shrink_room
shrink_room-rest s room [] = (refl, refl, refl)
shrink_room-rest s room (x ∷ xs) = (refl, refl, refl)

module _ (s : Rooms) (v : Inv s) (ws i : ℕ) (found : lookup ws s.clients ≡ some i) where
  abbrev room : String
  room = (s.heap i).room_id

  abbrev left : List ℕ
  left = remove_first (is_ref i) (members s room)

  abbrev after : Rooms
  after = shrink_room (unregistered s ws) room left

  here : IsEntry s ws i
  here = v.entries_hold ws i found

  -- A registered socket that leaves takes its own entry out of its room, and is told who stays.
  pub leave_found : leave s ws ≡ (
    after,
    some (record { room_id = room; name = (s.heap i).name; remaining = map s.heap left }),
  )
  unfolding leave
  leave_found = elim (Option-cases (lookup room s.rooms)) [
    | inl e ↦ absurd (room_exists s room i here.listed e)
    | inr (refs, e) ↦ rw (found, leave_client, e, leave_room)
  ]

  member : (r : String) (j : ℕ) → In j (members s r) → IsMember s r j
  member r j m = All-In (IsMember s r) (members s r) j (v.members_hold r) m

  after-members : (r : String) → members after r ≡ (if room == r then left else members s r)
  after-members r = shrink_room-members (unregistered s ws) room r left

  same_heap : after.heap ≡ s.heap
  same_heap = (shrink_room-rest (unregistered s ws) room left).0

  after_clients : (w : ℕ) → lookup w after.clients ≡ (if ws == w then none else lookup w s.clients)
  after_clients w =
      ap (lookup w) (shrink_room-rest (unregistered s ws) room left).2 ∙ lookup-erase ws w s.clients

  -- Every entry but `i` stays a member of its room.
  still_IsMember : (r : String) (j : ℕ) → IsMember s r j → j ≢ i → IsMember after r j
  still_IsMember r j m n = record {
    in_room = rw same_heap m.in_room;
    registered = rw same_heap (
        after_clients (s.heap j).ws
        ∙ ground (arith, m.registered, found, n, nat_beq_iff ws (s.heap j).ws));
    allocated = rw (shrink_room-rest (unregistered s ws) room left).1 m.allocated;
  }

  left_ne : (j : ℕ) → In j left → j ≢ i
  left_ne j m e =
      All-In (Apart s.heap i) left j
        (remove_ref s.heap i (members s room) (v.distinct room) here.listed) m
        (ap (λ k. (s.heap k).name) e)

  members-after : (r : String) → All (IsMember after r) (members after r)
  members-after r = elim (Bool-cases (room == r)) [
    | inl e ↦
        let same = (eq_iff room r).0 e in
        subst (λ q. All (IsMember after q) (members after q)) same
          (rw (after-members room, beq_refl room)
            (All-intro _ left (λ j m.
              still_IsMember room j
                (member room j (In-remove_first_sub (is_ref i) (members s room) j m))
                (left_ne j m))))
    | inr e ↦
        rw (after-members r, e)
          (All-intro (IsMember after r) (members s r) (λ j m.
            still_IsMember r j (member r j m) (λ q. false≢true (
              sym e
              ∙ (eq_iff room r).1
                  (ap (λ k. (s.heap k).room_id) (sym q) ∙ (member r j m).in_room)))))
  ]

  still_listed : (r : String) (j : ℕ) → In j (members s r) → j ≢ i → In j (members after r)
  still_listed r j m n = elim (Bool-cases (room == r)) [
    | inl e ↦
        let same = (eq_iff room r).0 e in
        rw (after-members r, e)
          (In-remove_first (is_ref i) (members s room) j
            (subst (λ q. In j (members s q)) (sym same) m)
            (λ a. n ((nat_beq_iff j i).0 (find-holds (is_ref i) (members s room) j a))))
    | inr e ↦ rw (after-members r, e) m
  ]

  entries_after : (w j : ℕ) → lookup w after.clients ≡ some j → IsEntry after w j
  entries_after w j e =
      let old : lookup w s.clients ≡ some j = ground (arith, after_clients w) in
      let entry = v.entries_hold w j old in
      let n : j ≢ i =
        λ q. ground (arith, after_clients w, nat_beq_iff ws w, here.socket, entry.socket, q) in
      record {
        socket = rw same_heap entry.socket;
        listed = rw same_heap (still_listed (s.heap j).room_id j entry.listed n);
      }

  Distinct-after : (r : String) → Distinct after.heap (members after r)
  Distinct-after r = elim (Bool-cases (room == r)) [
    | inl e ↦
        rw (after-members r, e, same_heap)
          (remove_first-Distinct s.heap (is_ref i) (members s room) (v.distinct room))
    | inr e ↦ rw (after-members r, e, same_heap) (v.distinct r)
  ]

  after-Inv : Inv after
  after-Inv = record {
    members_hold = members-after;
    entries_hold = entries_after;
    distinct = Distinct-after;
    nonempty = λ r. shrink_room-nonempty (unregistered s ws) room r left (v.nonempty r);
    resets = λ r. shrink_room-resets (unregistered s ws) room r left (v.resets r);
  }

-- Leaving keeps the invariant, whether or not the socket is in a room.
pub leave-Inv : (s : Rooms) (ws : ℕ) → Inv s → Inv (leave s ws).0
unfolding leave
leave-Inv s ws v = elim (Option-cases (lookup ws s.clients)) [
  | inl e ↦ rw (e, leave_client) v
  | inr (i, e) ↦ subst (λ o. Inv o.0) (sym (leave_found s v ws i e)) (after-Inv s v ws i e)
]

-- After it the socket is in no room.
pub leave-gone : (s : Rooms) (ws : ℕ) → Inv s → lookup ws (leave s ws).0.clients ≡ none
unfolding leave
leave-gone s ws v = elim (Option-cases (lookup ws s.clients)) [
  | inl e ↦ rw (e, leave_client) e
  | inr (i, e) ↦
      subst (λ o. lookup ws o.0.clients ≡ none) (sym (leave_found s v ws i e))
        (after_clients s v ws i e ws ∙ ground (arith, nat_beq_iff ws ws))
]
