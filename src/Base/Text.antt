-- ===== src/Base/Text.antt =====
-- Texts as lists of their characters' codes.
use Prim.Native.Char.{code}
use Prim.Native.String.{String}
use cs61_f18_psets.Base.{ℕ, List, [], ◌∷◌}

-- The code points of a text: its bytes, if it is ASCII.
abbrev pub codes : String → List ℕ
codes String.[] = []
codes (String.◌∷◌ c s) = code c ∷ codes s
