-- ===== src/Peer/Candidates.antt =====
-- src/services/peer-connection.ts: the ICE candidates of a peer, which wait for its description.
pub mod Delivered
use lo_lprox_chat.Common.{
  ℕ, Bool, true, false, Option, none, some, List, [], ◌∷◌, ◌++◌, if◌then◌else◌,
}

-- Candidates are known by numbers. `flushing` is what is left of the loop of
-- `flushPendingCandidates` while it runs, `delivered` what `pc.addIceCandidate` was called with. That
-- may refuse a candidate: a call of `addIceCandidate` then throws to its caller and changes nothing
-- more here; in the loop see `fail_next`.
pub record Candidates : Type 0 where
  pub described : Bool
  pub pending : List ℕ
  pub flushing : Option (List ℕ)
  pub delivered : List ℕ

abbrev pub no_candidates : Candidates
no_candidates = record { described = false; pending = []; flushing = none; delivered = [] }

-- A call of `addIceCandidate`, a remote description that is set (by `handleOffer` or
-- `handleAnswer`), and the next turn of the loop, where the candidate is taken or refused.
pub data CandidateEvent : Type 0 where
  comes : ℕ → CandidateEvent
  describes flushes_next fails_next : CandidateEvent

unfoldable pub add_ice_candidate : Candidates → ℕ → Candidates
add_ice_candidate s c =
    if s.described
    then record s { delivered = s.delivered ++ (c ∷ []) }
    else record s { pending = s.pending ++ (c ∷ []) }

-- `hasRemoteDescription = true`, and the loop starts.
unfoldable pub start_flush : Candidates → Candidates
start_flush s = record s { described = true; flushing = some s.pending }

unfoldable pub flush_next : Candidates → Option (List ℕ) → Candidates
flush_next s none = s
flush_next s (some []) = record s { pending = []; flushing = none }
flush_next s (some (c ∷ rest)) = record s {
  delivered = s.delivered ++ (c ∷ []);
  flushing = some rest;
}

-- The refused candidate makes `flushPendingCandidates` throw: the loop is left, and what waits is not
-- cleared. The caller (`handleSignal` of audio.ts) logs the error.
unfoldable pub fail_next : Candidates → Option (List ℕ) → Candidates
fail_next s none = s
fail_next s (some []) = s
fail_next s (some (c ∷ rest)) = record s { delivered = s.delivered ++ (c ∷ []); flushing = none }

unfoldable pub on_candidate_event : Candidates → CandidateEvent → Candidates
unfolding add_ice_candidate start_flush flush_next fail_next
on_candidate_event s (comes c) = add_ice_candidate s c
on_candidate_event s describes = start_flush s
on_candidate_event s flushes_next = flush_next s s.flushing
on_candidate_event s fails_next = fail_next s s.flushing

unfoldable pub run : Candidates → List CandidateEvent → Candidates
unfolding on_candidate_event
run s [] = s
run s (e ∷ events) = run (on_candidate_event s e) events
