-- ===== src/Address/Chars.antt =====
-- The string operations that server/src/rate-limit.ts makes on addresses and headers. A text is the
-- list of its UTF-16 units; `to_lower` is that of ASCII.
use lo_lprox_chat.Common.{
  ℕ, ◌+◌, Bool, true, false, ◌&&◌, ◌||◌, Option, none, some, List, [], ◌∷◌, map, nat_beq,
  nat_beq_iff, Eq, arith, ◌≡◌, refl, ◌↔◌, if◌then◌else◌,
}
use lo_lprox_chat.Text.{within}

abbrev pub Chars : Type 0
Chars = List ℕ

-- White space and line terminators.
abbrev pub is_space : ℕ → Bool
is_space c =
    within 9 13 c
    || nat_beq c 32
    || nat_beq c 0xa0
    || nat_beq c 0x1680
    || within 0x2000 0x200a c
    || within 0x2028 0x2029 c
    || nat_beq c 0x202f
    || nat_beq c 0x205f
    || nat_beq c 0x3000
    || nat_beq c 0xfeff

unfoldable pub trim_start : Chars → Chars
trim_start [] = []
trim_start (c ∷ cs) = if is_space c then trim_start cs else c ∷ cs

-- A character before a trimmed rest, which is white space only if something comes after it.
abbrev pub trim_before : ℕ → Chars → Chars
trim_before c [] = if is_space c then [] else c ∷ []
trim_before c (d ∷ ds) = c ∷ d ∷ ds

unfoldable pub trim_end : Chars → Chars
trim_end [] = []
trim_end (c ∷ cs) = trim_before c (trim_end cs)

unfoldable pub trim : Chars → Chars
unfolding trim_start trim_end
trim cs = trim_end (trim_start cs)

abbrev pub lower_char : ℕ → ℕ
lower_char c = if within 0x41 0x5a c then c + 32 else c

unfoldable pub to_lower : Chars → Chars
to_lower = map lower_char

-- `text.includes(c)`.
unfoldable pub includes : ℕ → Chars → Bool
includes c [] = false
includes c (d ∷ ds) = nat_beq d c || includes c ds

-- `text.split(c)`: one piece more than there are separators.
abbrev pub cons_piece : ℕ → List Chars → List Chars
cons_piece d [] = (d ∷ []) ∷ []
cons_piece d (p ∷ ps) = (d ∷ p) ∷ ps

unfoldable pub split_on : ℕ → Chars → List Chars
split_on c [] = [] ∷ []
split_on c (d ∷ ds) =
    let rest = split_on c ds in if nat_beq d c then [] ∷ rest else cons_piece d rest

-- The text before the first `c`, and what comes after it, if there is one.
unfoldable pub cut_at : ℕ → Chars → Chars × Option Chars
cut_at c [] = ([], none)
cut_at c (d ∷ ds) =
    let rest = cut_at c ds in if nat_beq d c then ([], some ds) else (d ∷ rest.0, rest.1)

-- The rest after a prefix.
unfoldable pub after_prefix : Chars → Chars → Option Chars
after_prefix [] cs = some cs
after_prefix (p ∷ ps) [] = none
after_prefix (p ∷ ps) (c ∷ cs) = if nat_beq p c then after_prefix ps cs else none

unfoldable pub every_digit : Chars → Bool
every_digit [] = true
every_digit (c ∷ cs) = within 0x30 0x39 c && every_digit cs

abbrev pub is_empty {ℓ} : {A : Type ℓ} → List A → Bool
is_empty [] = true
is_empty (_ ∷ _) = false

unfoldable pub chars_beq : Chars → Chars → Bool
chars_beq [] [] = true
chars_beq (c ∷ cs) (d ∷ ds) = nat_beq c d && chars_beq cs ds
chars_beq _ _ = false

chars_beq-same : (cs : Chars) → chars_beq cs cs ≡ true
unfolding chars_beq
chars_beq-same [] = refl
chars_beq-same (c ∷ cs) = ground (arith, nat_beq_iff c c, chars_beq-same cs)

chars_beq_same : (cs ds : Chars) → chars_beq cs ds ≡ true → cs ≡ ds
unfolding chars_beq
chars_beq_same [] [] e = refl
chars_beq_same (c ∷ cs) (d ∷ ds) e = ground (arith, nat_beq_iff c d, chars_beq_same cs ds)
chars_beq_same [] (d ∷ ds) e = cc
chars_beq_same (c ∷ cs) [] e = cc

pub chars_beq_iff : (cs ds : Chars) → (chars_beq cs ds ≡ true) ↔ (cs ≡ ds)
chars_beq_iff cs ds = (chars_beq_same cs ds, λ e. rw e (chars_beq-same ds))

-- `===` on texts.
instance abbrev pub chars_eq : Eq Chars
unfolding chars_beq
chars_eq = record { same = chars_beq; same_iff = chars_beq_iff }
