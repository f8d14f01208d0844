-- ===== src/Signaling/Served.antt =====
-- src/services/signaling.ts and server/src/ws-handler.ts together: the join of a client at the
-- server, and what the clients make of its answers.
use mathlib.Core.Path.{subst}
use lo_lprox_chat.Common.{
  ℕ, String, ◌≡◌, ◌≢◌, refl, ap, Bool, true, not, Option, some, none, List, [], ◌∷◌, In, All,
  In-append_left, In-append_right, In-filter, filter, map, inl, inr, arith, ◌==◌, nat_eq, string_eq,
  nat_beq_iff,
}
use text.Mathlib.TextEquality.{eq_iff}
use lo_lprox_chat.Client.{Client, Team}
use lo_lprox_chat.Json.{str}
use lo_lprox_chat.Validate.{validate_join, valid}
use lo_lprox_chat.Messages.{ServerMessage, sends, room_state}
use lo_lprox_chat.Rooms.{
  Rooms, members, named, remove_first, join, get_client_info, get_others_in_room, joined,
}
use lo_lprox_chat.Rooms.Entries.{remove_named}
use lo_lprox_chat.Rooms.Invariant.{Inv}
use lo_lprox_chat.Rooms.Info.{
  get_client_info-none, get_client_info-some, get_client_info-named, find_in_room-member,
}
use lo_lprox_chat.Handshake.{send, broadcast, enter, handle_join, evict}
use lo_lprox_chat.Handshake.Preserved.{enter-Inv}
use lo_lprox_chat.Handshake.Takeover.{handle_join-enter, get_client_info-enter, entered}
use lo_lprox_chat.Signaling.{Session, Act, announce, announce_all}
use lo_lprox_chat.Signaling.Wire.{as_read, join_as}

In-send :
    (is_open : ℕ → Bool) (ws : ℕ) (msg : ServerMessage)
    → is_open ws ≡ true
    → In (sends ws msg) (send is_open ws msg)
unfolding send
In-send is_open ws msg e = rw e (inl refl)

In-broadcast :
    (is_open : ℕ → Bool) (msg : ServerMessage) (o : Client) (cs : List Client)
    → is_open o.ws ≡ true
    → In o cs
    → In (sends o.ws msg) (broadcast is_open msg cs)
unfolding broadcast
In-broadcast is_open msg o [] e m = absurd m
In-broadcast is_open msg o (c ∷ cs) e (inl same) =
    In-append_left _ (send is_open c.ws msg) _ (rw⁻¹ same (In-send is_open o.ws msg e))
In-broadcast is_open msg o (c ∷ cs) e (inr m) =
    In-append_right _ (send is_open c.ws msg) _ (In-broadcast is_open msg o cs e m)

announce-other :
    (c : Session) (local name : String)
    → c.announces ≡ true
    → name ≢ local
    → announce c local name ≡ Act.peer_joined name ∷ []
unfolding announce
announce-other c local name there other = ground (arith, eq_iff name local)

announce_all-others :
    (c : Session) (local : String) (name_of : ℕ → String) (xs : List ℕ)
    → c.announces ≡ true
    → All (λ j. name_of j ≢ local) xs
    → announce_all c local (map name_of xs) ≡ map Act.peer_joined (map name_of xs)
unfolding announce_all
announce_all-others c local name_of [] there h = refl
announce_all-others c local name_of (x ∷ xs) there h =
    rw
      (
        announce-other c local (name_of x) there h.0,
        announce_all-others c local name_of xs there h.1,
      )
      refl

In-map :
    (f : ℕ → Client) (xs : List ℕ) (c : Client) → In c (map f xs) → (i : ℕ) × In i xs × (c ≡ f i)
In-map f [] c m = absurd m
In-map f (x ∷ xs) c (inl e) = (x, inl refl, e)
In-map f (x ∷ xs) c (inr m) = let (i, k, e) = In-map f xs c m in (i, inr k, e)

others-of :
    (s : Rooms) (ws : ℕ) (me : Client)
    → get_client_info s ws ≡ some me
    → get_others_in_room s ws
      ≡ filter (λ (c : Client). not (c.ws == ws)) (map s.heap (members s me.room_id))
unfolding get_others_in_room
others-of s ws me mine =
    ap {B = List Client}
      (λ o. elim o [
        | none ↦ []
        | some info ↦
            filter (λ (c : Client). not (c.ws == ws)) (map s.heap (members s info.room_id))
      ])
      mine

-- The others of a room have other names than the client.
others-named :
    (s : Rooms) (ws : ℕ) (me o : Client)
    → Inv s
    → get_client_info s ws ≡ some me
    → In o (get_others_in_room s ws)
    → me.name ≢ o.name
others-named s ws me o v mine m same =
    let (listed, other) =
      In-filter (λ (c : Client). not (c.ws == ws)) (map s.heap (members s me.room_id)) o
        (subst (In o) (others-of s ws me mine) m) in
    let (i, here, is) = In-map s.heap (members s me.room_id) o listed in
    let found = find_in_room-member s me.room_id i v here in
    let (j, reg, is_me, _) = get_client_info-some s ws me v mine in
    let socket = (v.entries_hold ws j reg).socket in
    ground (arith, get_client_info-named s ws me v mine, nat_beq_iff o.ws ws)

-- The join of an open socket in no room. It is answered with the names of the others, and the client
-- calls its handler for each of them; every other member whose socket is open is told the name, and
-- calls its handler for it.
pub handle_join-meets :
    (is_open : ℕ → Bool) (s : Rooms) (ws : ℕ) (room name : String) (team : Option Team) (on : Bool)
    (o : Client) (mine its : Session)
    → Inv s
    → validate_join (str room) (str name) ≡ valid room name
    → get_client_info s ws ≡ none
    → is_open ws ≡ true
    → In o
        (get_others_in_room (handle_join is_open s ws (as_read (join_as room name team on))).0 ws)
    → is_open o.ws ≡ true
    → mine.announces ≡ true
    → its.announces ≡ true
    → let out = handle_join is_open s ws (as_read (join_as room name team on)) in
      let peers = map (λ i. (s.heap i).name) (remove_first (named s name) (members s room)) in
      In (sends ws (room_state peers)) out.1
      × (announce_all mine name peers ≡ map Act.peer_joined peers)
      × In (sends o.ws (ServerMessage.peer_joined name)) out.1
      × (announce its o.name name ≡ Act.peer_joined name ∷ [])
unfolding enter join joined
handle_join-meets is_open s ws room name team on o mine its v ok nowhere up =
    let m = as_read (join_as room name team on) in
    let fresh = get_client_info-none s ws nowhere in
    let t = (enter is_open s ws m room name).0 in
    let old = evict is_open ws (join s room name ws team).1.evicted in
    let state = send is_open ws (room_state (join s room name ws team).1.peers) in
    rw (handle_join-enter is_open s ws m room name ok nowhere) (λ o_in o_up there its_there. (
      In-append_right _ old _ (In-append_left _ state _ (In-send is_open ws _ up)),
      announce_all-others mine name (λ i. (s.heap i).name) _ there
          (remove_named s.heap name (members s room) (v.distinct room)),
      In-append_right _ old _ (
          In-append_right _ state _ (
            In-broadcast is_open (ServerMessage.peer_joined name) o (get_others_in_room t ws) o_up
              o_in)),
      announce-other its o.name name its_there (
          others-named t ws (entered s ws m room name) o
            (enter-Inv is_open s v ws m room name fresh)
            (get_client_info-enter is_open s ws m room name) o_in),
    ))
