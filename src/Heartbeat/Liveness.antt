-- ===== src/Heartbeat/Liveness.antt =====
-- Which sockets the sweep of server/src/heartbeat.ts pings and which it terminates.
use mathlib.Core.Path.{subst}
use lo_lprox_chat.Common.{
  ℕ, ◌≡◌, ◌≢◌, refl, sym, ◌∙◌, ap, inl, inr, Bool, true, false, ◌||◌, ◌&&◌, not, Option, none, some,
  List, [], ◌∷◌, ◌++◌, arith, ◌==◌, nat_eq, nat_beq_iff, if◌then◌else◌, All, Bool-cases,
  Option-cases,
}
use lo_lprox_chat.Common.Dict.{lookup, lookup-insert, lookup-erase}
use lo_lprox_chat.Heartbeat.{Alive, track, mark_alive, sweep_one, sweep}

-- The sockets of a sweep are a set.
abbrev pub AreApart : List ℕ → Type 0
AreApart [] = Unit
AreApart (x ∷ xs) = All (λ y. y ≢ x) xs × AreApart xs

abbrev pub contains : ℕ → List ℕ → Bool
contains ws [] = false
contains ws (x ∷ xs) = x == ws || contains ws xs

-- What a sweep makes of the entry of a socket: forgotten, or to be proved alive again.
abbrev pub after_sweep : Option Bool → Option Bool
after_sweep (some true) = some false
after_sweep _ = none

abbrev pub is_dead : Option Bool → Bool
is_dead (some false) = true
is_dead _ = false

abbrev pub is_live : Option Bool → Bool
is_live (some true) = true
is_live _ = false

sweep_one-other :
    (alive : Alive) (ws other : ℕ) (o : Option Bool)
    → other ≢ ws
    → lookup other (sweep_one alive ws o).alive ≡ lookup other alive
unfolding sweep_one
sweep_one-other alive ws other none n = refl
sweep_one-other alive ws other (some false) n =
    ground (arith, lookup-erase ws other alive, n, nat_beq_iff ws other)
sweep_one-other alive ws other (some true) n =
    ground (arith, lookup-insert ws other false alive, n, nat_beq_iff ws other)

sweep_one_self :
    (alive : Alive) (ws : ℕ)
    → lookup ws (sweep_one alive ws (lookup ws alive)).alive ≡ after_sweep (lookup ws alive)
unfolding sweep_one
sweep_one_self alive ws = elim (Option-cases (lookup ws alive)) [
  | inl e ↦ rw (e, sweep_one) e
  | inr (b, e) ↦ ground (arith, lookup-erase ws ws alive, lookup-insert ws ws false alive)
]

-- An entry of a socket that is not swept stays as it is.
sweep-outside :
    (alive : Alive) (xs : List ℕ) (ws : ℕ)
    → All (λ y. y ≢ ws) xs
    → lookup ws (sweep alive xs).alive ≡ lookup ws alive
unfolding sweep
sweep-outside alive [] ws h = refl
sweep-outside alive (x ∷ xs) ws h =
    sweep-outside (sweep_one alive x (lookup x alive)).alive xs ws h.1
    ∙ sweep_one-other alive x ws (lookup x alive) (λ e. h.0 (sym e))

contains-append :
    (ws : ℕ) (xs ys : List ℕ) → contains ws (xs ++ ys) ≡ (contains ws xs || contains ws ys)
contains-append ws [] ys = refl
contains-append ws (x ∷ xs) ys = ground (arith, contains-append ws xs ys)

not_contains : (ws : ℕ) (xs : List ℕ) → All (λ y. y ≢ ws) xs → contains ws xs ≡ false
not_contains ws [] h = refl
not_contains ws (x ∷ xs) h = ground (arith, not_contains ws xs h.1, h.0, nat_beq_iff x ws)

sweep_one-terminated :
    (alive : Alive) (x ws : ℕ) (o : Option Bool)
    → contains ws (sweep_one alive x o).terminated ≡ (x == ws && is_dead o)
unfolding sweep_one
sweep_one-terminated alive x ws none = ground arith
sweep_one-terminated alive x ws (some false) = ground arith
sweep_one-terminated alive x ws (some true) = ground arith

sweep_one-pinged :
    (alive : Alive) (x ws : ℕ) (o : Option Bool)
    → contains ws (sweep_one alive x o).pinged ≡ (x == ws && is_live o)
unfolding sweep_one
sweep_one-pinged alive x ws none = ground arith
sweep_one-pinged alive x ws (some false) = ground arith
sweep_one-pinged alive x ws (some true) = ground arith

-- A sweep terminates exactly the swept sockets that are tracked and have shown no life, pings
-- exactly those that are tracked and have, and leaves of the first no entry and of the second one
-- that has still to be proved alive. Other entries stay.
pub sweep_lem :
    (alive : Alive) (xs : List ℕ) (ws : ℕ)
    → AreApart xs
    → (contains ws (sweep alive xs).terminated ≡ (contains ws xs && is_dead (lookup ws alive)))
      × (contains ws (sweep alive xs).pinged ≡ (contains ws xs && is_live (lookup ws alive)))
      × (lookup ws (sweep alive xs).alive
          ≡ (if contains ws xs then after_sweep (lookup ws alive) else lookup ws alive))
unfolding sweep
sweep_lem alive [] ws h = (refl, refl, refl)
sweep_lem alive (x ∷ xs) ws h =
    let one = sweep_one alive x (lookup x alive) in
    let rest = sweep_lem one.alive xs ws h.1 in
    let later = sweep one.alive xs in
    let terminated = contains-append ws one.terminated later.terminated in
    let pinged = contains-append ws one.pinged later.pinged in
    let first = sweep_one-terminated alive x ws (lookup x alive) in
    let first' = sweep_one-pinged alive x ws (lookup x alive) in
    elim (Bool-cases (x == ws)) [
      | inl e ↦
          let q = (nat_beq_iff x ws).0 e in
          let gone = not_contains ws xs (subst (λ w. All (λ y. y ≢ w) xs) q h.0) in
          let now = ap (λ w. lookup w alive) q in
          let self : lookup ws one.alive ≡ after_sweep (lookup x alive) =
            subst (λ w. lookup w one.alive ≡ after_sweep (lookup x alive)) q
              (sweep_one_self alive x) in
          ground (arith, terminated, pinged, first, first', gone, now, self, rest, e)
      | inr e ↦
          let other : ws ≢ x = λ q. ground (arith, nat_beq_iff x ws) in
          let old = sweep_one-other alive x ws (lookup x alive) other in
          ground (arith, terminated, pinged, first, first', old, rest, e)
    ]

-- What comes between two sweeps: a socket is opened, or shows life by a pong or a message.
pub data Event : Type 0 where
  opens shows_life : ℕ → Event

abbrev pub about : Event → ℕ
about (opens ws) = ws
about (shows_life ws) = ws

abbrev pub happen : Alive → List Event → Alive
happen alive [] = alive
happen alive (opens ws ∷ es) = happen (track alive ws) es
happen alive (shows_life ws ∷ es) = happen (mark_alive alive ws) es

mark_alive-lookup :
    (alive : Alive) (ws other : ℕ)
    → lookup other (mark_alive alive ws)
      ≡ elim (lookup other alive) [ none ↦ none | some b ↦ some (ws == other || b) ]
unfolding mark_alive
mark_alive-lookup alive ws other = elim (Option-cases (lookup ws alive)) [
  | inl e ↦ rw (e, mark_alive) (ground (arith, nat_beq_iff ws other))
  | inr (b, e) ↦
      rw (e, mark_alive) (ground (arith, nat_beq_iff ws other, lookup-insert ws other true alive))
]

happen-live :
    (alive : Alive) (es : List Event) (ws : ℕ)
    → lookup ws alive ≡ some true
    → lookup ws (happen alive es) ≡ some true
unfolding track
happen-live alive [] ws h = h
happen-live alive (opens w ∷ es) ws h =
    happen-live (track alive w) es ws (ground (arith, lookup-insert w ws true alive))
happen-live alive (shows_life w ∷ es) ws h =
    happen-live (mark_alive alive w) es ws (ground (arith, mark_alive-lookup alive w ws))

happen-silent :
    (alive : Alive) (es : List Event) (ws : ℕ)
    → All (λ e. about e ≢ ws) es
    → lookup ws (happen alive es) ≡ lookup ws alive
unfolding track
happen-silent alive [] ws h = refl
happen-silent alive (opens w ∷ es) ws h =
    happen-silent (track alive w) es ws h.1
    ∙ ground (arith, lookup-insert w ws true alive, h.0, nat_beq_iff w ws)
happen-silent alive (shows_life w ∷ es) ws h =
    happen-silent (mark_alive alive w) es ws h.1
    ∙ ground (arith, mark_alive-lookup alive w ws, h.0, nat_beq_iff w ws)

-- A tracked socket that shows life at any moment before a sweep survives it, whatever else
-- happens before and after that moment, and is still tracked.
pub live_survives :
    (alive : Alive) (es : List Event) (xs : List ℕ) (ws : ℕ)
    → AreApart xs
    → lookup ws alive ≢ none
    → let swept = sweep (happen (mark_alive alive ws) es) xs in
      (contains ws swept.terminated ≡ false) × (lookup ws swept.alive ≢ none)
live_survives alive es xs ws apart tracked =
    let now : lookup ws (mark_alive alive ws) ≡ some true =
      ground (arith, mark_alive-lookup alive ws ws) in
    ground (
      arith,
      sweep_lem (happen (mark_alive alive ws) es) xs ws apart,
      happen-live (mark_alive alive ws) es ws now,
    )

-- A tracked socket that is silent between two sweeps of it is terminated by one of them, and not by
-- both, and is then forgotten.
pub silent_reaped :
    (alive : Alive) (es : List Event) (xs ys : List ℕ) (ws : ℕ)
    → AreApart xs
    → AreApart ys
    → contains ws xs ≡ true
    → contains ws ys ≡ true
    → All (λ e. about e ≢ ws) es
    → lookup ws alive ≢ none
    → let first = sweep alive xs in
      let second = sweep (happen first.alive es) ys in
      (contains ws second.terminated ≡ not (contains ws first.terminated))
      × (lookup ws second.alive ≡ none)
silent_reaped alive es xs ys ws apart apart' in_xs in_ys silent tracked = ground (
  arith,
  sweep_lem alive xs ws apart,
  sweep_lem (happen (sweep alive xs).alive es) ys ws apart',
  happen-silent (sweep alive xs).alive es ws silent,
)
