-- ===== src/Rooms/Join.antt =====
-- `RoomManager.join` (server/src/rooms.ts): it keeps the invariant, and one entry per name.
use mathlib.Core.Path.{subst}
use mathlib.Core.Bool.{false≢true}
use lo_lprox_chat.Common.{
  ℕ, suc, ◌<◌, String, ◌≡◌, refl, sym, ap, ◌≢◌, ◌∙◌, Option, none, some, List, [], ◌∷◌, ◌++◌, arith,
  inl, inr, if◌then◌else◌, ◌==◌, nat_eq, string_eq, nat_beq_iff, All, In, Option-cases, Bool-cases,
  beq_refl, All-append, In-append_left, In-append_right,
}
use text.Mathlib.TextEquality.{eq_iff}
use lo_lprox_chat.Common.Dict.{lookup, erase, lookup-insert, lookup-erase}
use lo_lprox_chat.Client.{Client, Team}
use lo_lprox_chat.Rooms.{Rooms, members, named, find, remove_first, joined, evict_entry, join, bind}
use lo_lprox_chat.Rooms.Entries.{
  Distinct, All-In, All-intro, find-In, find-holds, In-remove_first, In-remove_first_sub,
  remove_first-Distinct, remove_named, Distinct-append_last,
}
use lo_lprox_chat.Rooms.Invariant.{Inv, IsMember, IsEntry, Distinct-heap}

append-ne-nil : (xs : List ℕ) (n : ℕ) → xs ++ n ∷ [] ≢ []
append-ne-nil [] n e = cc
append-ne-nil (x ∷ xs) n e = cc

module _ (s : Rooms) (v : Inv s) (room name : String) (ws : ℕ) (team : Option Team)
    (fresh : lookup ws s.clients ≡ none) where
  abbrev existing : List ℕ
  existing = members s room

  abbrev kept : List ℕ
  kept = remove_first (named s name) existing

  abbrev dup : Option ℕ
  dup = find (named s name) existing

  abbrev after : Rooms
  after = (join s room name ws team).0

  member : (r : String) (i : ℕ) → In i (members s r) → IsMember s r i
  member r i m = All-In (IsMember s r) (members s r) i (v.members_hold r) m

  dup_registered : (d : ℕ) → dup ≡ some d → lookup (s.heap d).ws s.clients ≡ some d
  dup_registered d a = (member room d (find-In (named s name) existing d a)).registered

  -- The sockets of the entries that stay are still registered, and no others.
  evict-lookup :
      (i : ℕ) (w : ℕ)
      → lookup w s.clients ≡ some i
      → dup ≢ some i
      → lookup w (evict_entry s dup) ≡ some i
  unfolding evict_entry
  evict-lookup i w e n = elim (Option-cases dup) [
    | inl a ↦ rw (a, evict_entry) e
    | inr (d, a) ↦
        rw (a, evict_entry)
          (ground (
            arith,
            n,
            a,
            e,
            dup_registered d a,
            lookup-erase (s.heap d).ws w s.clients,
            nat_beq_iff (s.heap d).ws w,
          ))
  ]

  evict-lookup_sub :
      (i : ℕ) (w : ℕ)
      → lookup w (evict_entry s dup) ≡ some i
      → (lookup w s.clients ≡ some i) × (dup ≢ some i)
  unfolding evict_entry
  evict-lookup_sub i w e = elim (Option-cases dup) [
    | inl a ↦ (rw (a, evict_entry) at e, λ b. cc)
    | inr (d, a) ↦
        let e' : lookup w (erase (s.heap d).ws s.clients) ≡ some i = rw (a, evict_entry) at e in
        let old : lookup w s.clients ≡ some i =
          ground (arith, lookup-erase (s.heap d).ws w s.clients) in
        (
          old,
          λ b. ground (
            arith,
            (v.entries_hold w i old).socket,
            lookup-erase (s.heap d).ws w s.clients,
            nat_beq_iff (s.heap d).ws w,
          ),
        )
  ]

  old_heap : (i : ℕ) → i < s.next → after.heap i ≡ s.heap i
  unfolding join
  old_heap i h = ground (arith)

  new_heap : after.heap s.next ≡ joined room name ws team (bind dup (λ d. some (s.heap d)))
  unfolding join
  new_heap = ground arith

  after-members :
      (r : String) → members after r ≡ (if room == r then kept ++ s.next ∷ [] else members s r)
  unfolding join
  after-members r = ground (arith, lookup-insert room r (kept ++ s.next ∷ []) s.rooms)

  after_clients :
      (w : ℕ)
      → lookup w after.clients ≡ (if ws == w then some s.next else lookup w (evict_entry s dup))
  unfolding join
  after_clients w = lookup-insert ws w s.next (evict_entry s dup)

  after_next : after.next ≡ suc s.next
  unfolding join
  after_next = refl

  still_IsMember : (r : String) (i : ℕ) → IsMember s r i → dup ≢ some i → IsMember after r i
  still_IsMember r i m n =
      let heap_i = old_heap i m.allocated in
      let reg = evict-lookup i (s.heap i).ws m.registered n in
      record {
        in_room = ap (λ (c : Client). c.room_id) heap_i ∙ m.in_room;
        registered = rw heap_i (
            after_clients (s.heap i).ws
            ∙ ground (arith, reg, fresh, m.registered, nat_beq_iff ws (s.heap i).ws));
        allocated = omega (arith, m.allocated, after_next);
      }

  new_client : Client
  new_client = joined room name ws team (bind dup (λ d. some (s.heap d)))

  new_fields : (new_client.room_id ≡ room) × (new_client.name ≡ name) × (new_client.ws ≡ ws)
  unfolding new_client joined
  new_fields = (refl, refl, refl)

  new_heap' : after.heap s.next ≡ new_client
  unfolding new_client
  new_heap' = new_heap

  new_IsMember : IsMember after room s.next
  new_IsMember = record {
    in_room = rw new_heap' new_fields.0;
    registered =
        rw (new_heap', new_fields.2) (after_clients ws ∙ ground (arith, nat_beq_iff ws ws));
    allocated = omega (arith, after_next);
  }

  kept_ne : (i : ℕ) → In i kept → (s.heap i).name ≢ name
  kept_ne i m =
      All-In (λ j. (s.heap j).name ≢ name) kept i
        (remove_named s.heap name existing (v.distinct room)) m

  kept-not-dup : (i : ℕ) → In i kept → dup ≢ some i
  kept-not-dup i m a =
      kept_ne i m ((eq_iff (s.heap i).name name).0 (find-holds (named s name) existing i a))

  kept_members : All (IsMember after room) kept
  kept_members = All-intro _ kept (λ i m.
      still_IsMember room i (member room i (In-remove_first_sub (named s name) existing i m))
        (kept-not-dup i m))

  other_not_dup : (r : String) (i : ℕ) → room ≢ r → In i (members s r) → dup ≢ some i
  other_not_dup r i n m a =
      n (sym (member room i (find-In (named s name) existing i a)).in_room ∙ (member r i m).in_room)

  members-after : (r : String) → All (IsMember after r) (members after r)
  members-after r = elim (Bool-cases (room == r)) [
    | inl e ↦
        let same = (eq_iff room r).0 e in
        subst (λ q. All (IsMember after q) (members after q)) same
          (rw (after-members room, beq_refl room)
            (All-append (IsMember after room) kept (s.next ∷ []) kept_members (new_IsMember, tt)))
    | inr e ↦
        rw (after-members r, e)
          (All-intro (IsMember after r) (members s r) (λ i m.
            still_IsMember r i (member r i m)
              (other_not_dup r i (λ q. false≢true (sym e ∙ (eq_iff room r).1 q)) m)))
  ]

  new_IsEntry : IsEntry after ws s.next
  new_IsEntry = record {
    socket = rw new_heap' new_fields.2;
    listed =
        rw (new_heap', new_fields.0, after-members room, beq_refl room)
          (In-append_right s.next kept (s.next ∷ []) (inl refl));
  }

  still_listed : (r : String) (i : ℕ) → In i (members s r) → dup ≢ some i → In i (members after r)
  still_listed r i m n = elim (Bool-cases (room == r)) [
    | inl e ↦
        let same = (eq_iff room r).0 e in
        rw (after-members r, e)
          (In-append_left i kept (s.next ∷ []) (
            In-remove_first (named s name) existing i (subst (λ q. In i (members s q)) (sym same) m)
              n))
    | inr e ↦ rw (after-members r, e) m
  ]

  still_IsEntry : (w i : ℕ) → lookup w s.clients ≡ some i → dup ≢ some i → IsEntry after w i
  still_IsEntry w i old n =
      let entry = v.entries_hold w i old in
      let heap_i = old_heap i (member (s.heap i).room_id i entry.listed).allocated in
      record {
        socket = ap (λ (c : Client). c.ws) heap_i ∙ entry.socket;
        listed = rw heap_i (still_listed (s.heap i).room_id i entry.listed n);
      }

  entries_after : (w i : ℕ) → lookup w after.clients ≡ some i → IsEntry after w i
  entries_after w i e = elim (Bool-cases (ws == w)) [
    | inl same ↦
        let here : s.next ≡ i = ground (arith, after_clients w) in
        let mine : ws ≡ w = (nat_beq_iff ws w).0 same in
        subst (λ j. IsEntry after w j) here (subst (λ u. IsEntry after u s.next) mine new_IsEntry)
    | inr other ↦
        let (old, n) = evict-lookup_sub i w (ground (arith, after_clients w)) in
        still_IsEntry w i old n
  ]

  same_name : (r : String) (j : ℕ) → In j (members s r) → (after.heap j).name ≡ (s.heap j).name
  same_name r j m = ap (λ (c : Client). c.name) (old_heap j (member r j m).allocated)

  In-existing : (j : ℕ) → In j kept → In j existing
  In-existing j m = In-remove_first_sub (named s name) existing j m

  Distinct-kept : Distinct after.heap (kept ++ s.next ∷ [])
  Distinct-kept =
      Distinct-append_last after.heap kept s.next
        (Distinct-heap s.heap after.heap kept (λ j m. same_name room j (In-existing j m))
          (remove_first-Distinct s.heap (named s name) existing (v.distinct room)))
        (All-intro _ kept (λ j m e. kept_ne j m (
          sym (same_name room j (In-existing j m))
          ∙ e
          ∙ ap (λ (c : Client). c.name) new_heap'
          ∙ new_fields.1)))

  Distinct-after : (r : String) → Distinct after.heap (members after r)
  Distinct-after r = elim (Bool-cases (room == r)) [
    | inl e ↦ rw (after-members r, e) Distinct-kept
    | inr e ↦
        rw (after-members r, e)
          (Distinct-heap s.heap after.heap (members s r) (λ j m. same_name r j m) (v.distinct r))
  ]

  nonempty_after : (r : String) → lookup r after.rooms ≢ some []
  unfolding join
  nonempty_after r e = ground (
    arith,
    lookup-insert room r (kept ++ s.next ∷ []) s.rooms,
    v.nonempty r,
    append-ne-nil kept s.next,
  )

  resets_after :
      (r : String)
      → lookup r after.rooms ≡ none
      → (lookup r after.room_reset_ms ≡ none) × (lookup r after.sender_reset_ms ≡ none)
  unfolding join
  resets_after r e = v.resets r (ground (arith, lookup-insert room r (kept ++ s.next ∷ []) s.rooms))

  -- A join by a socket that is in no room keeps the invariant.
  pub join-Inv : Inv (join s room name ws team).0
  join-Inv = record {
    members_hold = members-after;
    entries_hold = entries_after;
    distinct = Distinct-after;
    nonempty = nonempty_after;
    resets = resets_after;
  }
