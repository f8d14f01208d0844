-- ===== src/Rooms/Info.antt =====
-- What the lookups of server/src/rooms.ts find after a join or a change.
use lo_lprox_chat.Common.{
  ℕ, String, ◌≡◌, ◌≢◌, refl, sym, ap, ◌∙◌, Option, none, some, List, [], ◌∷◌, map, arith, ◌==◌,
  nat_eq, string_eq, nat_beq_iff, Option-cases, Bool-cases, inl, inr, In, beq_refl,
}
use text.Mathlib.TextEquality.{eq_iff}
use lo_lprox_chat.Common.Dict.{lookup, lookup-insert, lookup-erase}
use lo_lprox_chat.Client.{Client, Team}
use lo_lprox_chat.Rooms.{
  Rooms, members, named, find, bind, change, join, joined, evict_entry, get_client_info,
  find_in_room,
}
use lo_lprox_chat.Rooms.Entries.{find-In, Distinct, Apart, All-In}
use lo_lprox_chat.Rooms.Invariant.{Inv, IsMember, room_exists}

pub get_client_info-change :
    (s : Rooms) (ws : ℕ) (f : Client → Client)
    → get_client_info (change s ws f) ws ≡ bind (get_client_info s ws) (λ c. some (f c))
unfolding get_client_info change
get_client_info-change s ws f = elim (Option-cases (lookup ws s.clients)) [
  | inl e ↦ rw (e, change, get_client_info) (rw e)
  | inr (i, e) ↦ rw (e, change) (rw e (ground (arith, nat_beq_iff i i)))
]

pub get_client_info-join :
    (s : Rooms) (room name : String) (ws : ℕ) (team : Option Team)
    → get_client_info (join s room name ws team).0 ws
      ≡ some (joined room name ws team (join s room name ws team).1.evicted)
unfolding get_client_info join
get_client_info-join s room name ws team = ground (
  arith,
  lookup-insert ws ws s.next (evict_entry s (find (named s name) (members s room))),
  nat_beq_iff ws ws,
  nat_beq_iff s.next s.next,
)

find-map :
    (heap : ℕ → Client) (name : String) (xs : List ℕ)
    → find (λ c. c.name == name) (map heap xs)
      ≡ bind (find (λ i. (heap i).name == name) xs) (λ i. some (heap i))
unfolding find
find-map heap name [] = refl
find-map heap name (x ∷ xs) = ground (arith, find-map heap name xs)

-- The entry that `join` evicts is the one that its name found before.
pub join-evicted :
    (s : Rooms) (room name : String) (ws : ℕ) (team : Option Team)
    → (join s room name ws team).1.evicted ≡ find_in_room s room name
unfolding join find_in_room
join-evicted s room name ws team = sym (find-map s.heap name (members s room))

find_entry :
    (heap : ℕ → Client) (i : ℕ) (xs : List ℕ)
    → Distinct heap xs
    → In i xs
    → find (λ j. (heap j).name == (heap i).name) xs ≡ some i
unfolding find
find_entry heap i [] d m = absurd m
find_entry heap i (x ∷ xs) d (inl e) = rw (e, beq_refl (heap x).name)
find_entry heap i (x ∷ xs) d (inr m) = elim (Bool-cases ((heap x).name == (heap i).name)) [
  | inl q ↦
      absurd (All-In (Apart heap x) xs i d.0 m (sym ((eq_iff (heap x).name (heap i).name).0 q)))
  | inr q ↦ rw q (find_entry heap i xs d.1 m)
]

-- A member of a room is what its name finds there.
pub find_in_room-member :
    (s : Rooms) (room : String) (i : ℕ)
    → Inv s
    → In i (members s room)
    → find_in_room s room (s.heap i).name ≡ some (s.heap i)
unfolding find_in_room
find_in_room-member s room i v m =
    find-map s.heap (s.heap i).name (members s room)
    ∙ ap (λ o. bind o (λ j. some (s.heap j)))
        (find_entry s.heap i (members s room) (v.distinct room) m)

-- The socket of an evicted entry is in no room any more.
pub join-evicted-gone :
    (s : Rooms) (room name : String) (ws : ℕ) (team : Option Team) (old : Client)
    → find_in_room s room name ≡ some old
    → old.ws ≢ ws
    → lookup old.ws (join s room name ws team).0.clients ≡ none
unfolding join find_in_room evict_entry
join-evicted-gone s room name ws team old e n =
    elim (Option-cases (find (named s name) (members s room))) [
      | inl f ↦ absurd (ground (arith, find-map s.heap name (members s room)))
      | inr (d, f) ↦
          let same : s.heap d ≡ old = ground (arith, find-map s.heap name (members s room)) in
          rw
            (
              lookup-insert ws old.ws s.next (evict_entry s (find (named s name) (members s room))),
              f,
              evict_entry,
              same,
            )
            (ground (
              arith,
              n,
              nat_beq_iff ws old.ws,
              nat_beq_iff old.ws old.ws,
              lookup-erase old.ws old.ws s.clients,
            ))
    ]

pub get_client_info-none :
    (s : Rooms) (ws : ℕ) → get_client_info s ws ≡ none → lookup ws s.clients ≡ none
unfolding get_client_info
get_client_info-none s ws e = ground arith

-- The entry of a socket that is in a room, and its room.
pub get_client_info-some :
    (s : Rooms) (ws : ℕ) (c : Client)
    → Inv s
    → get_client_info s ws ≡ some c
    → (i : ℕ) × (lookup ws s.clients ≡ some i) × (s.heap i ≡ c) × In i (members s c.room_id)
unfolding get_client_info
get_client_info-some s ws c v e = elim (Option-cases (lookup ws s.clients)) [
  | inl n ↦ absurd (ground arith)
  | inr (i, f) ↦
      let same : s.heap i ≡ c = ground arith in
      (i, f, same, rw same at (v.entries_hold ws i f).listed)
]

pub info_room_exists :
    (s : Rooms) (ws : ℕ) (c : Client)
    → Inv s
    → get_client_info s ws ≡ some c
    → lookup c.room_id s.rooms ≢ none
info_room_exists s ws c v e =
    let (i, f, same, listed) = get_client_info-some s ws c v e in room_exists s c.room_id i listed

-- A socket that is in no room is not that of an entry that a name finds.
pub find_in_room-registered :
    (s : Rooms) (room name : String) (old : Client) (ws : ℕ)
    → Inv s
    → find_in_room s room name ≡ some old
    → lookup ws s.clients ≡ none
    → old.ws ≢ ws
unfolding find_in_room
find_in_room-registered s room name old ws v e fresh same =
    elim (Option-cases (find (named s name) (members s room))) [
      | inl f ↦ ground (arith, find-map s.heap name (members s room))
      | inr (d, f) ↦
          let old_is : s.heap d ≡ old = ground (arith, find-map s.heap name (members s room)) in
          let reg =
            (All-In (IsMember s room) (members s room) d (v.members_hold room)
              (find-In (named s name) (members s room) d f)).registered in
          ground (arith, reg, old_is, same, fresh)
    ]

-- A socket's entry is what its name finds in its room.
pub get_client_info-named :
    (s : Rooms) (ws : ℕ) (c : Client)
    → Inv s
    → get_client_info s ws ≡ some c
    → find_in_room s c.room_id c.name ≡ some c
get_client_info-named s ws c v e =
    let (i, _, same, listed) = get_client_info-some s ws c v e in
    rw same at (find_in_room-member s c.room_id i v listed)
