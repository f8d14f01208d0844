-- ===== src/Text.antt =====
-- JavaScript strings as native texts: their code points, and their length in UTF-16 units.
use Prim.Native.Char.{code}
use Prim.Native.String.{String}
use lo_lprox_chat.Common.{ℕ, ◌+◌, Bool, true, ◌&&◌, List, [], ◌∷◌, leb, ltb, if◌then◌else◌}

abbrev pub codes : String → List ℕ
codes String.[] = []
codes (String.◌∷◌ c s) = code c ∷ codes s

-- A code point beyond the basic plane is two units.
abbrev pub units : List ℕ → ℕ
units [] = 0
units (c ∷ cs) = (if ltb c 0x10000 then 1 else 2) + units cs

abbrev pub within : ℕ → ℕ → ℕ → Bool
within lo hi c = leb lo c && leb c hi

unfoldable pub every : (ℕ → Bool) → List ℕ → Bool
every p [] = true
every p (c ∷ cs) = p c && every p cs
