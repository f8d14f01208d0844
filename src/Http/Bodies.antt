-- ===== src/Http/Bodies.antt =====
-- The bodies that server/src/index.ts collects chunk by chunk.
use mathlib.Core.List.{append-nil, append_assoc}
use lo_lprox_chat.Common.{
  ℕ, ◌+◌, ◌≡◌, ◌≤◌, ◌∙◌, refl, ap, List, ◌∷◌, ◌++◌, length, length-append, ltb, if◌then◌else◌, true,
  none, some, [], arith, string_eq, Bool-cases, inl, inr,
}
use lo_lprox_chat.Limits.Rejections.{reason_eq}
use lo_lprox_chat.Address.Chars.{Chars, chars_eq}
use lo_lprox_chat.Http.{body_bytes, collect}

-- The length of a body, and its text.
abbrev pub body_length : List Chars → ℕ
body_length [] = 0
body_length (chunk ∷ chunks) = length chunk + body_length chunks

abbrev pub body_text : List Chars → Chars
body_text [] = []
body_text (chunk ∷ chunks) = chunk ++ body_text chunks

-- Chunk by chunk, a body is too large exactly if it is as a whole.
collect_lem :
    (body : Chars) (chunks : List Chars)
    → length body ≤ body_bytes
    → collect body chunks ≡ (
        if ltb body_bytes (length body + body_length chunks)
        then none
        else some (body ++ body_text chunks))
unfolding collect
collect_lem body [] h = rw (append-nil body) (ground (arith, h))
collect_lem body (chunk ∷ chunks) h =
    let longer = length-append body chunk in
    elim (Bool-cases (ltb body_bytes (length (body ++ chunk)))) [
      | inl over ↦
          let whole : ltb body_bytes (length body + body_length (chunk ∷ chunks)) ≡ true =
            ground (arith, over, longer) in
          rw (over, whole) refl
      | inr fits ↦
          let rest = collect_lem (body ++ chunk) chunks (ground (arith, fits)) in
          let same : length (body ++ chunk) + body_length chunks
              ≡ length body + body_length (chunk ∷ chunks) =
            omega (arith, longer) in
          rw fits (rest ∙ rw (same, append_assoc body chunk (body_text chunks)) refl)
    ]

pub collect_whole :
    (chunks : List Chars)
    → collect [] chunks
      ≡ (if ltb body_bytes (body_length chunks) then none else some (body_text chunks))
collect_whole chunks =
    let all : 0 + body_length chunks ≡ body_length chunks = omega arith in
    collect_lem [] chunks (omega arith)
    ∙ ap (λ n. if ltb body_bytes n then none else some (body_text chunks)) all
