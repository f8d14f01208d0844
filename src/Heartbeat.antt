-- ===== src/Heartbeat.antt =====
-- server/src/heartbeat.ts: `Heartbeat`. The weak map of sockets is a map of socket numbers.
pub mod Liveness
use lo_lprox_chat.Common.{
  ℕ, suc, Bool, true, false, Option, none, some, List, [], ◌∷◌, ◌++◌, length, nat_eq,
}
use lo_lprox_chat.Common.Dict.{Dict, lookup, insert, erase}

abbrev pub Alive : Type 0
Alive = Dict ℕ Bool

unfoldable pub track : Alive → ℕ → Alive
track alive ws = insert ws true alive

-- Only a socket that is tracked already.
unfoldable pub mark_alive : Alive → ℕ → Alive
mark_alive alive ws = elim (lookup ws alive) [ none ↦ alive | some _ ↦ insert ws true alive ]

pub record Swept : Type 0 where
  pub alive : Alive
  pub terminated : List ℕ
  pub pinged : List ℕ

-- The round of the sweep for one socket.
unfoldable pub sweep_one : Alive → ℕ → Option Bool → Swept
sweep_one alive ws none = record { alive = alive; terminated = []; pinged = [] }
sweep_one alive ws (some false) = record {
  alive = erase ws alive;
  terminated = ws ∷ [];
  pinged = [];
}
sweep_one alive ws (some true) = record {
  alive = insert ws false alive;
  terminated = [];
  pinged = ws ∷ [];
}

unfoldable pub sweep : Alive → List ℕ → Swept
unfolding sweep_one
sweep alive [] = record { alive = alive; terminated = []; pinged = [] }
sweep alive (ws ∷ sockets) =
    let one = sweep_one alive ws (lookup ws alive) in
    let rest = sweep one.alive sockets in
    record {
      alive = rest.alive;
      terminated = one.terminated ++ rest.terminated;
      pinged = one.pinged ++ rest.pinged;
    }

-- What `sweep` returns.
unfoldable pub sweep_count : Alive → List ℕ → ℕ
unfolding sweep
sweep_count alive sockets = length (sweep alive sockets).terminated

-- `DEFAULT_HEARTBEAT_MS` and `MIN_HEARTBEAT_MS`.
abbrev pub default_heartbeat_ms : ℕ
default_heartbeat_ms = 30000

abbrev pub min_heartbeat_ms : ℕ
min_heartbeat_ms = 100
