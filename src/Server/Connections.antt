-- ===== src/Server/Connections.antt =====
-- The sockets of each address among those that listen (server/src/index.ts).
use lo_lprox_chat.Common.{
  ℕ, ◌+◌, String, ◌≡◌, refl, Bool, true, false, none, some, [], ◌∷◌, arith, ◌==◌, nat_eq, string_eq,
  nat_beq_iff,
}
use lo_lprox_chat.Common.Dict.{Dict, lookup, insert, erase, HasKeysApart}
use lo_lprox_chat.Server.{Connection}

abbrev pub one : Bool → ℕ
one true = 1
one false = 0

-- How many sockets of an address listen.
unfoldable pub tally : String → Dict ℕ Connection → ℕ
tally ip [] = 0
tally ip ((ws, c) ∷ m) = one (c.ip == ip) + tally ip m

pub tally-insert_new :
    (ip : String) (ws : ℕ) (c : Connection) (m : Dict ℕ Connection)
    → lookup ws m ≡ none
    → tally ip (insert ws c m) ≡ one (c.ip == ip) + tally ip m
unfolding tally insert lookup
tally-insert_new ip ws c [] e = refl
tally-insert_new ip ws c ((w, d) ∷ m) e = ground (arith, tally-insert_new ip ws c m)

pub tally-insert_old :
    (ip : String) (ws : ℕ) (c d : Connection) (m : Dict ℕ Connection)
    → lookup ws m ≡ some d
    → c.ip ≡ d.ip
    → tally ip (insert ws c m) ≡ tally ip m
unfolding tally insert lookup
tally-insert_old ip ws c d [] e same = cc
tally-insert_old ip ws c d ((w, b) ∷ m) e same = ground (arith, tally-insert_old ip ws c d m)

tally-erase-none :
    (ip : String) (ws : ℕ) (m : Dict ℕ Connection)
    → lookup ws m ≡ none
    → tally ip (erase ws m) ≡ tally ip m
unfolding tally erase lookup
tally-erase-none ip ws [] e = refl
tally-erase-none ip ws ((w, d) ∷ m) e = ground (arith, tally-erase-none ip ws m)

pub tally-erase :
    (ip : String) (ws : ℕ) (c : Connection) (m : Dict ℕ Connection)
    → HasKeysApart m
    → lookup ws m ≡ some c
    → one (c.ip == ip) + tally ip (erase ws m) ≡ tally ip m
unfolding tally erase lookup
tally-erase ip ws c [] h e = cc
tally-erase ip ws c ((w, d) ∷ m) h e =
    ground (arith, nat_beq_iff w ws, tally-erase ip ws c m h.1, tally-erase-none ip ws m)
