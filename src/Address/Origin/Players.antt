-- ===== src/Address/Origin/Players.antt =====
-- The keys of the limit per player (`playerKey` of server/src/rate-limit.ts) do not collide.
use lo_lprox_chat.Common.{◌≡◌, refl, sym, ◌∙◌, ap, false, Option, none, some, [], ◌∷◌, arith}
use lo_lprox_chat.Json.{Json}
use lo_lprox_chat.Address.Chars.{Chars, includes, cut_at}
use lo_lprox_chat.Address.Origin.{key_name, with_name, player_key}

-- A key is cut at its first NUL.
cut_at-with_name :
    (ip : Chars) (name : Option Chars)
    → includes 0 ip ≡ false
    → cut_at 0 (with_name ip name) ≡ (ip, name)
unfolding cut_at includes
cut_at-with_name [] none h = refl
cut_at-with_name [] (some name) h = refl
cut_at-with_name (c ∷ ip) none h = ground (arith, cut_at-with_name ip none)
cut_at-with_name (c ∷ ip) (some name) h = ground (arith, cut_at-with_name ip (some name))

-- Where addresses have no NUL, one key is of one address and one name, as far as names go into keys.
pub player_key_inj :
    (ip ip' : Chars) (name name' : Json)
    → includes 0 ip ≡ false
    → includes 0 ip' ≡ false
    → player_key ip name ≡ player_key ip' name'
    → (ip ≡ ip') × (key_name name ≡ key_name name')
unfolding player_key
player_key_inj ip ip' name name' h h' e =
    let pair : (ip, key_name name) ≡ (ip', key_name name') =
      sym (cut_at-with_name ip (key_name name) h)
      ∙ ap (cut_at 0) e
      ∙ cut_at-with_name ip' (key_name name') h' in
    (ap (λ p. p.0) pair, ap (λ p. p.1) pair)
