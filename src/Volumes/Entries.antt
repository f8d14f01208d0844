-- ===== src/Volumes/Entries.antt =====
-- The entries that a loop over the clients of a room makes in `peerVolumes` (server/src/volumes.ts).
use lo_lprox_chat.Common.{
  ℕ, String, ◌≡◌, refl, Option, none, some, List, [], ◌∷◌, map, arith, ◌==◌, string_eq, ◌&&◌, ◌||◌,
  not, if◌then◌else◌, All,
}
use text.Mathlib.TextEquality.{eq_iff}
use lo_lprox_chat.Common.Dict.{Dict, lookup, insert, lookup-insert}
use lo_lprox_chat.Client.{Client}
use lo_lprox_chat.Rooms.{find, or_else, bind}
use lo_lprox_chat.Rooms.Entries.{Distinct, Apart}

-- `peerVolumes[name] = volume`. `peerVolumes` is a plain object, in which an assignment of a number
-- to `__proto__` makes no entry.
abbrev pub record_volume : String → ℕ → Dict String ℕ → Dict String ℕ
record_volume name volume out = if name == "__proto__" then out else insert name volume out

abbrev pub assign : String → Option ℕ → Dict String ℕ → Dict String ℕ
assign name none out = out
assign name (some volume) out = record_volume name volume out

-- Each client but `mine` gets what `f` gives for it, if anything.
unfoldable pub assign_all :
    String → (Client → Option ℕ) → List Client → Dict String ℕ → Dict String ℕ
assign_all mine f [] out = out
assign_all mine f (c ∷ cs) out =
    assign_all mine f cs (if c.name == mine then out else assign c.name (f c) out)

abbrev pub find_client : String → List Client → Option Client
find_client name = find (λ c. c.name == name)

assign-lookup :
    (key name : String) (v : Option ℕ) (out : Dict String ℕ)
    → lookup name (assign key v out) ≡ (
        if (key == name) && not (key == "__proto__")
        then or_else v (lookup name out)
        else lookup name out)
assign-lookup key name none out = ground arith
assign-lookup key name (some v) out = ground (arith, lookup-insert key name v out)

or_else-none : (o : Option ℕ) → or_else o none ≡ o
or_else-none none = refl
or_else-none (some n) = refl

-- What comes after an entry has other names.
find_client-none :
    (heap : ℕ → Client) (x : ℕ) (xs : List ℕ) (name : String)
    → All (Apart heap x) xs
    → (heap x).name ≡ name
    → find_client name (map heap xs) ≡ none
unfolding find
find_client-none heap x [] name h e = refl
find_client-none heap x (y ∷ xs) name h e =
    ground (arith, h.0, eq_iff (heap y).name name, find_client-none heap x xs name h.1 e)

assign_all-lookup :
    (mine : String) (f : Client → Option ℕ) (heap : ℕ → Client) (xs : List ℕ) (name : String)
    (out : Dict String ℕ)
    → Distinct heap xs
    → lookup name (assign_all mine f (map heap xs) out) ≡ (
        if name == mine || name == "__proto__"
        then lookup name out
        else or_else (bind (find_client name (map heap xs)) f) (lookup name out))
unfolding assign_all find
assign_all-lookup mine f heap [] name out d = ground arith
assign_all-lookup mine f heap (x ∷ xs) name out d =
    let c = heap x in
    let next = if c.name == mine then out else assign c.name (f c) out in
    ground (
      arith,
      eq_iff c.name name,
      eq_iff c.name mine,
      eq_iff c.name "__proto__",
      eq_iff name "__proto__",
      eq_iff name mine,
      find_client-none heap x xs name d.0,
      assign-lookup c.name name (f c) out,
      assign_all-lookup mine f heap xs name next d.1,
    )

-- Starting from no entries, where names are unique.
pub assign_all-found :
    (mine : String) (f : Client → Option ℕ) (heap : ℕ → Client) (xs : List ℕ) (name : String)
    → Distinct heap xs
    → lookup name (assign_all mine f (map heap xs) []) ≡ (
        if name == mine || name == "__proto__"
        then none
        else bind (find_client name (map heap xs)) f)
unfolding lookup
assign_all-found mine f heap xs name d =
    rw
      (
        assign_all-lookup mine f heap xs name [] d,
        or_else-none (bind (find_client name (map heap xs)) f),
      )
      refl
