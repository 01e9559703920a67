-- ===== src/Base/Text.antt =====
-- Texts. Identifiers, addresses and messages are native strings; where the program looks inside a
-- text (user agents, a WebGL renderer) it is read as the list of its code points.
-- `strings.ToLower` and `strings.ToUpper` are written out for ASCII; their Unicode tables for other
-- code points are arguments.
use Prim.Native.Nat.{ℕ, ◌+◌}
use Prim.Native.Char.{Char, code}
use Prim.Native.String.{String}
use mathlib.Core.Bool.{Bool, true, false, ◌&&◌, ◌||◌}
use mathlib.Core.List.{List, [], ◌∷◌, map}
use human_guard.Base.Tests.{ltb, leb, eqb, if◌then◌else◌}

abbrev pub codes : String → List ℕ
codes String.[] = []
codes (String.◌∷◌ first rest) = code first ∷ codes rest

-- `strings.HasPrefix`.
abbrev pub has_prefix : List ℕ → List ℕ → Bool
has_prefix s [] = true
has_prefix [] (c ∷ t) = false
has_prefix (d ∷ s) (c ∷ t) = eqb d c && has_prefix s t

-- `strings.Contains`.
abbrev pub contains : List ℕ → List ℕ → Bool
contains [] t = has_prefix [] t
contains (d ∷ s) t = has_prefix (d ∷ s) t || contains s t

-- `strings.ToLower` on one code point.
abbrev pub lower_code : (ℕ → ℕ) → ℕ → ℕ
lower_code table c = if leb b'A' c && leb c b'Z' then c + 32 else if ltb c 128 then c else table c

abbrev pub to_lower : (ℕ → ℕ) → List ℕ → List ℕ
to_lower table = map (lower_code table)

-- The bytes that a code point takes in UTF-8, and Go's `len` of a text.
abbrev pub utf8_len : ℕ → ℕ
utf8_len c = if ltb c 128 then 1 else if ltb c 2048 then 2 else if ltb c 65536 then 3 else 4

abbrev pub byte_len : List ℕ → ℕ
byte_len [] = 0
byte_len (c ∷ s) = utf8_len c + byte_len s

-- The letters of ASCII, small and capital.
abbrev letters : List (Char × Char)
letters =
    ("a", "A")
    ∷ ("b", "B")
    ∷ ("c", "C")
    ∷ ("d", "D")
    ∷ ("e", "E")
    ∷ ("f", "F")
    ∷ ("g", "G")
    ∷ ("h", "H")
    ∷ ("i", "I")
    ∷ ("j", "J")
    ∷ ("k", "K")
    ∷ ("l", "L")
    ∷ ("m", "M")
    ∷ ("n", "N")
    ∷ ("o", "O")
    ∷ ("p", "P")
    ∷ ("q", "Q")
    ∷ ("r", "R")
    ∷ ("s", "S")
    ∷ ("t", "T")
    ∷ ("u", "U")
    ∷ ("v", "V")
    ∷ ("w", "W")
    ∷ ("x", "X")
    ∷ ("y", "Y")
    ∷ ("z", "Z")
    ∷ []

abbrev small_of : Char → List (Char × Char) → Char
small_of c [] = c
small_of c ((small, capital) ∷ l) = if eqb (code c) (code capital) then small else small_of c l

abbrev capital_of : Char → List (Char × Char) → Char
capital_of c [] = c
capital_of c ((small, capital) ∷ l) = if eqb (code c) (code small) then capital else capital_of c l

-- `strings.ToLower` and `strings.ToUpper` on a text.
unfoldable pub lower_text : (Char → Char) → String → String
lower_text table String.[] = ""
lower_text table (String.◌∷◌ c s) =
    String.◌∷◌ (if ltb (code c) 128 then small_of c letters else table c) (lower_text table s)

unfoldable pub upper_text : (Char → Char) → String → String
upper_text table String.[] = ""
upper_text table (String.◌∷◌ c s) =
    String.◌∷◌ (if ltb (code c) 128 then capital_of c letters else table c) (upper_text table s)
