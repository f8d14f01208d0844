-- ===== src/Peer/Candidates/Delivered.antt =====
-- src/services/peer-connection.ts: which ICE candidates reach the connection.
use mathlib.Core.List.Perm
use mathlib.Core.Path.{subst}
use mathlib.Core.List.{Perm, perm_middle, append-nil, append_assoc}
use lo_lprox_chat.Common.{
  ℕ, ◌≡◌, refl, sym, ap, ◌∙◌, Bool, true, false, Option, none, some, List, [], ◌∷◌, ◌++◌, arith,
  if_holds,
}
use lo_lprox_chat.Peer.Candidates.{
  Candidates, no_candidates, CandidateEvent, comes, describes, flushes_next, fails_next,
  add_ice_candidate, start_flush, flush_next, fail_next, on_candidate_event, run,
}

-- The candidates that came, in order: what the queue is to hand on.
abbrev pub received : List CandidateEvent → List ℕ
received [] = []
received (comes c ∷ events) = c ∷ received events
received (describes ∷ events) = received events
received (flushes_next ∷ events) = received events
received (fails_next ∷ events) = received events

-- No description is set while the loop of another runs.
abbrev pub IsOrderly : Candidates → List CandidateEvent → Type 0
IsOrderly s [] = Unit
IsOrderly s (comes c ∷ events) = IsOrderly (add_ice_candidate s c) events
IsOrderly s (describes ∷ events) = (s.flushing ≡ none) × IsOrderly (start_flush s) events
IsOrderly s (flushes_next ∷ events) = IsOrderly (flush_next s s.flushing) events
IsOrderly s (fails_next ∷ events) = IsOrderly (fail_next s s.flushing) events

-- The connection refuses no candidate of a queue.
abbrev pub AllTaken : List CandidateEvent → Type 0
AllTaken [] = Unit
AllTaken (comes c ∷ events) = AllTaken events
AllTaken (describes ∷ events) = AllTaken events
AllTaken (flushes_next ∷ events) = AllTaken events
AllTaken (fails_next ∷ events) = ⊥

abbrev rest_of : Option (List ℕ) → List ℕ
rest_of none = []
rest_of (some rest) = rest

-- What is held of the candidates `all`: all of them wait, in order, or they are handed on but for
-- what the loop still has.
abbrev IsHeld : List ℕ → Bool → List ℕ → Option (List ℕ) → List ℕ → Type 0
IsHeld all false pending flushing delivered = (delivered ≡ []) × (pending ≡ all) × (flushing ≡ none)
IsHeld all true pending flushing delivered =
    Perm (delivered ++ rest_of flushing) all × (flushing ≡ none → pending ≡ [])

abbrev Holds : List ℕ → Candidates → Type 0
Holds all s = IsHeld all s.described s.pending s.flushing s.delivered

-- A last element may stand before a tail.
last-perm : (xs ys : List ℕ) (c : ℕ) → Perm ((xs ++ (c ∷ [])) ++ ys) ((xs ++ ys) ++ (c ∷ []))
last-perm xs ys c =
    Perm.trans (rw (append_assoc xs (c ∷ []) ys) (perm_middle {a = c} xs ys))
      (Perm.symm (rw (append-nil (xs ++ ys)) at (perm_middle {a = c} (xs ++ ys) [])))

module _ (all pending delivered : List ℕ) (flushing : Option (List ℕ)) where
  described_held :
      (d : Bool)
      → d ≡ true
      → IsHeld all d pending flushing delivered
      → Perm (delivered ++ rest_of flushing) all × (flushing ≡ none → pending ≡ [])
  described_held true e h = h
  described_held false e h = absurd (ground arith)

  IsHeld-described :
      (d : Bool)
      → d ≡ true
      → Perm (delivered ++ rest_of flushing) all
      → (flushing ≡ none → pending ≡ [])
      → IsHeld all d pending flushing delivered
  IsHeld-described true e h k = (h, k)
  IsHeld-described false e h k = absurd (ground arith)

  waiting_held :
      (d : Bool)
      → d ≡ false
      → IsHeld all d pending flushing delivered
      → (delivered ≡ []) × (pending ≡ all) × (flushing ≡ none)
  waiting_held false e h = h
  waiting_held true e h = absurd (ground arith)

  IsHeld-waiting :
      (d : Bool)
      → d ≡ false
      → delivered ≡ []
      → pending ≡ all
      → flushing ≡ none
      → IsHeld all d pending flushing delivered
  IsHeld-waiting false e h k l = (h, k, l)
  IsHeld-waiting true e h k l = absurd (ground arith)

comes-Holds :
    (all : List ℕ) (s : Candidates) (c : ℕ)
    → Holds all s
    → Holds (all ++ (c ∷ [])) (add_ice_candidate s c)
unfolding add_ice_candidate
comes-Holds all s c h =
    if_holds (Holds (all ++ (c ∷ []))) s.described
      (record s { delivered = s.delivered ++ (c ∷ []) })
      (record s { pending = s.pending ++ (c ∷ []) })
      (λ d.
        let (old, none_waits) =
          described_held all s.pending s.delivered s.flushing s.described d h in
        IsHeld-described (all ++ (c ∷ [])) s.pending (s.delivered ++ (c ∷ [])) s.flushing
          s.described d
          (Perm.trans (last-perm s.delivered (rest_of s.flushing) c)
            (Perm.append_right (c ∷ []) old))
          none_waits)
      (λ d.
        let (none_yet, waits, idle) =
          waiting_held all s.pending s.delivered s.flushing s.described d h in
        IsHeld-waiting (all ++ (c ∷ [])) (s.pending ++ (c ∷ [])) s.delivered s.flushing s.described
          d none_yet (ap (λ l. l ++ (c ∷ [])) waits) idle)

describes-held :
    (all pending delivered : List ℕ) (d : Bool) (flushing : Option (List ℕ))
    → flushing ≡ none
    → IsHeld all d pending flushing delivered
    → Perm (delivered ++ pending) all
describes-held all pending delivered false flushing e h = rw (h.0, h.1) (Perm.refl all)
describes-held all pending delivered true flushing e h =
    rw (h.1 e) (subst (λ o. Perm (delivered ++ rest_of o) all) e h.0)

start_flush-Holds :
    (all : List ℕ) (s : Candidates) → s.flushing ≡ none → Holds all s → Holds all (start_flush s)
unfolding start_flush
start_flush-Holds all s e h =
    (describes-held all s.pending s.delivered s.described s.flushing e h, λ q. ground arith)

flush_next-held :
    (all : List ℕ) (s : Candidates) (d : Bool) (o : Option (List ℕ))
    → s.described ≡ d
    → s.flushing ≡ o
    → IsHeld all d s.pending o s.delivered
    → Holds all (flush_next s o)
unfolding flush_next
flush_next-held all s d none e f h =
    subst (λ o. IsHeld all s.described s.pending o s.delivered) (sym f)
      (subst (λ b. IsHeld all b s.pending none s.delivered) (sym e) h)
flush_next-held all s false (some rest) e f h = absurd (ground (arith, h.2))
flush_next-held all s true (some []) e f h =
    IsHeld-described all [] s.delivered none s.described e h.0 (λ q. refl)
flush_next-held all s true (some (c ∷ rest)) e f h =
    IsHeld-described all s.pending (s.delivered ++ (c ∷ [])) (some rest) s.described e
      (rw (append_assoc s.delivered (c ∷ []) rest) h.0) (λ q. ground arith)

run-Holds :
    (all : List ℕ) (s : Candidates) (events : List CandidateEvent)
    → Holds all s
    → IsOrderly s events
    → AllTaken events
    → Holds (all ++ received events) (run s events)
unfolding run on_candidate_event
run-Holds all s [] h orderly taken = rw (append-nil all) h
run-Holds all s (comes c ∷ events) h orderly taken =
    subst (λ l. Holds l (run (add_ice_candidate s c) events))
      (append_assoc all (c ∷ []) (received events))
      (run-Holds (all ++ (c ∷ [])) (add_ice_candidate s c) events (comes-Holds all s c h) orderly
        taken)
run-Holds all s (describes ∷ events) h orderly taken =
    run-Holds all (start_flush s) events (start_flush-Holds all s orderly.0 h) orderly.1 taken
run-Holds all s (flushes_next ∷ events) h orderly taken =
    run-Holds all (flush_next s s.flushing) events
      (flush_next-held all s s.described s.flushing refl refl h) orderly taken
run-Holds all s (fails_next ∷ events) h orderly taken = absurd taken

-- No description is set any more.
abbrev IsDescribed : List CandidateEvent → Type 0
IsDescribed [] = Unit
IsDescribed (describes ∷ events) = ⊥
IsDescribed (comes c ∷ events) = IsDescribed events
IsDescribed (flushes_next ∷ events) = IsDescribed events
IsDescribed (fails_next ∷ events) = IsDescribed events

add_described :
    (s : Candidates) (c : ℕ)
    → s.described ≡ true
    → add_ice_candidate s c ≡ record s { delivered = s.delivered ++ (c ∷ []) }
unfolding add_ice_candidate
add_described s c d =
    if_holds (λ t. t ≡ record s { delivered = s.delivered ++ (c ∷ []) }) s.described
      (record s { delivered = s.delivered ++ (c ∷ []) })
      (record s { pending = s.pending ++ (c ∷ []) }) (λ e. refl)
      (λ e. absurd (ground (arith, d, e)))

abbrev LeavesWaiting : Candidates → List CandidateEvent → Candidates → Type 0
LeavesWaiting s events t =
    ((run t events).delivered ≡ s.delivered ++ received events)
    × ((run t events).pending ≡ s.pending)

-- Without a loop, only what comes is handed on, and what waits stays waiting.
run-idle :
    (s : Candidates) (events : List CandidateEvent)
    → s.described ≡ true
    → s.flushing ≡ none
    → IsDescribed events
    → ((run s events).delivered ≡ s.delivered ++ received events)
      × ((run s events).pending ≡ s.pending)
unfolding run on_candidate_event flush_next fail_next
run-idle s [] d e once = (sym (append-nil s.delivered), refl)
run-idle s (comes c ∷ events) d e once =
    let t : Candidates = record s { delivered = s.delivered ++ (c ∷ []) } in
    let (got, waits) = run-idle t events d e once in
    let added : add_ice_candidate s c ≡ t = add_described s c d in
    (
      ap (λ (t : Candidates). (run t events).delivered) added
          ∙ got
          ∙ append_assoc s.delivered (c ∷ []) (received events),
      ap (λ (t : Candidates). (run t events).pending) added ∙ waits,
    )
run-idle s (describes ∷ events) d e once = absurd once
run-idle s (flushes_next ∷ events) d e once =
    subst (LeavesWaiting s events) (sym (ap (flush_next s) e)) (run-idle s events d e once)
run-idle s (fails_next ∷ events) d e once =
    subst (LeavesWaiting s events) (sym (ap (fail_next s) e)) (run-idle s events d e once)

-- Once the connection refuses a candidate of the queue, the candidates behind it are never handed on,
-- unless another description is set: they wait for ever.
pub fails-lost :
    (s : Candidates) (c : ℕ) (rest : List ℕ) (events : List CandidateEvent)
    → s.described ≡ true
    → s.flushing ≡ some (c ∷ rest)
    → IsDescribed events
    → ((run s (fails_next ∷ events)).delivered ≡ (s.delivered ++ (c ∷ [])) ++ received events)
      × ((run s (fails_next ∷ events)).pending ≡ s.pending)
unfolding run on_candidate_event fail_next
fails-lost s c rest events d e once =
    let left : Candidates = record s { delivered = s.delivered ++ (c ∷ []); flushing = none } in
    subst (LeavesWaiting left events) (sym (ap (fail_next s) e)) (run-idle left events d refl once)

-- Before the peer is described, all candidates wait in the order they came.
pub run-waits :
    (events : List CandidateEvent)
    → IsOrderly no_candidates events
    → AllTaken events
    → (run no_candidates events).described ≡ false
    → ((run no_candidates events).delivered ≡ [])
      × ((run no_candidates events).pending ≡ received events)
run-waits events orderly taken d =
    let s : Candidates = run no_candidates events in
    let (none_yet, waits, idle) =
      waiting_held (received events) s.pending s.delivered s.flushing s.described d
        (run-Holds [] no_candidates events (refl, refl, refl) orderly taken) in
    (none_yet, waits)

-- However candidates, descriptions and the turns of the loop are interleaved, as long as no
-- description is set while the loop of another runs and the connection refuses no candidate of a
-- queue: once a peer is described and no loop runs, the connection has got each candidate exactly
-- as often as it came, and none waits.
pub run-delivers :
    (events : List CandidateEvent)
    → IsOrderly no_candidates events
    → AllTaken events
    → (run no_candidates events).described ≡ true
    → (run no_candidates events).flushing ≡ none
    → Perm (run no_candidates events).delivered (received events)
      × ((run no_candidates events).pending ≡ [])
run-delivers events orderly taken d e =
    let s : Candidates = run no_candidates events in
    let (got, waits) =
      described_held (received events) s.pending s.delivered s.flushing s.described d
        (run-Holds [] no_candidates events (refl, refl, refl) orderly taken) in
    (
      rw (append-nil s.delivered) at
          (subst (λ o. Perm (s.delivered ++ rest_of o) (received events)) e got),
      waits e,
    )
