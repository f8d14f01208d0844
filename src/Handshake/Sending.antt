-- ===== src/Handshake/Sending.antt =====
-- Sending to several sockets (server/src/ws-handler.ts).
use lo_lprox_chat.Common.{
  ℕ, ◌≡◌, refl, Bool, true, List, [], ◌∷◌, All, In, All-append, inl, inr, Bool-cases, map,
}
use lo_lprox_chat.Client.{Client}
use lo_lprox_chat.Rooms.{remove_first}
use lo_lprox_chat.Messages.{Effect, ServerMessage, sends}
use lo_lprox_chat.Handshake.{send, broadcast}

module _ (is_open : ℕ → Bool) (P : Effect → Type 0) where
  -- A message is sent only to a socket that is open.
  pub send-All :
      (ws : ℕ) (msg : ServerMessage)
      → (is_open ws ≡ true → P (sends ws msg))
      → All P (send is_open ws msg)
  unfolding send
  send-All ws msg h = elim (Bool-cases (is_open ws)) [ inl e ↦ rw e (h e, tt) | inr e ↦ rw e tt ]

  pub broadcast-All :
      (msg : ServerMessage) (cs : List Client)
      → ((c : Client) → In c cs → is_open c.ws ≡ true → P (sends c.ws msg))
      → All P (broadcast is_open msg cs)
  unfolding broadcast
  broadcast-All msg [] h = tt
  broadcast-All msg (c ∷ cs) h =
      All-append P (send is_open c.ws msg) (broadcast is_open msg cs)
        (send-All c.ws msg (h c (inl refl))) (broadcast-All msg cs (λ d m. h d (inr m)))

pub In-map-remove_first :
    (f : ℕ → Client) (p : ℕ → Bool) (xs : List ℕ) (c : Client)
    → In c (map f (remove_first p xs))
    → In c (map f xs)
unfolding remove_first
In-map-remove_first f p [] c m = m
In-map-remove_first f p (x ∷ xs) c m = elim (Bool-cases (p x)) [
  | inl e ↦ inr (rw e at m)
  | inr e ↦ elim (let k : In c (map f (x ∷ remove_first p xs)) = rw e at m in k) [
    | inl q ↦ inl q
    | inr k ↦ inr (In-map-remove_first f p xs c k)
  ]
]
