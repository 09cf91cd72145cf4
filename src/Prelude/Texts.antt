-- ===== src/Prelude/Texts.antt =====
-- Go's strings.Join, and the texts that a format string puts together.
use Prim.Native.String.{String}
use Prim.Native.String
use mathlib.Core.List.{List, [], ◌∷◌}

abbrev pub join : String → List String → String
join separator [] = ""
join separator (x ∷ []) = x
join separator (x ∷ y ∷ xs) = String.◌++◌ x (String.◌++◌ separator (join separator (y ∷ xs)))

-- The parts of a formatted text, in order.
abbrev pub concat : List String → String
concat xs = join "" xs
