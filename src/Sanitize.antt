-- ===== src/Sanitize.antt =====
-- internal/sanitize/sanitize.go. A Go string stands as what `range` decodes of it: code points, and the
-- bytes that are no part of one. A map stands as its entries in the order of the visit.
pub mod Printable
use flowctl.Prelude.{
  ℕ, Bool, true, false, not, ◌&&◌, ◌||◌, List, [], ◌∷◌, map, Option, none, some, ltb, leb, ◌==◌,
  if◌then◌else◌, all,
}

pub data Piece : Type 0 where
  rune invalid : ℕ → Piece

abbrev pub Text : Type 0
Text = List Piece

-- utf8.RuneError.
abbrev pub rune_error : ℕ
rune_error = 65533

-- The rune that `range` answers.
abbrev pub value : Piece → ℕ
value (rune r) = r
value (invalid b) = rune_error

abbrev is_rune : Piece → Bool
is_rune (rune r) = true
is_rune (invalid b) = false

-- utf8.ValidString.
abbrev valid_string : Text → Bool
valid_string s = all is_rune s

unfoldable pub is_control : ℕ → Bool
is_control r = ltb r 32 || (r == 127 || (leb 128 r && leb r 159))

unfoldable pub is_space : ℕ → Bool
is_space r = r == 10 || r == 9

-- The loop of isClean.
unfoldable pub no_control : Bool → Text → Bool
unfolding is_control is_space
no_control allow_whitespace [] = true
no_control allow_whitespace (p ∷ s) =
    let rest = no_control allow_whitespace s in
    if allow_whitespace && is_space (value p)
    then rest
    else if is_control (value p)
    then false
    else rest

unfoldable pub is_clean : Text → Bool → Bool
unfolding no_control
is_clean s allow_whitespace = if not (valid_string s) then false else no_control allow_whitespace s

-- The loop of String.
unfoldable pub rewrite_string : Text → Text
unfolding is_control is_space
rewrite_string [] = []
rewrite_string (p ∷ s) =
    let rest = rewrite_string s in
    if value p == rune_error
    then rune rune_error ∷ rest
    else if is_space (value p)
    then rune (value p) ∷ rest
    else if is_control (value p)
    then rest
    else rune (value p) ∷ rest

unfoldable pub string : Text → Text
unfolding is_clean rewrite_string
string s = if is_clean s true then s else rewrite_string s

-- The loop of Line.
unfoldable pub rewrite_line : Text → Text
unfolding is_control
rewrite_line [] = []
rewrite_line (p ∷ s) =
    let rest = rewrite_line s in
    if value p == rune_error
    then rune rune_error ∷ rest
    else if is_control (value p)
    then rest
    else rune (value p) ∷ rest

unfoldable pub line : Text → Text
unfolding is_clean rewrite_line
line s = if is_clean s false then s else rewrite_line s

unfoldable pub strings : List Text → List Text
unfolding line
strings lines = map line lines

abbrev same_piece : Piece → Piece → Bool
same_piece (rune r) (rune q) = r == q
same_piece (invalid b) (invalid c) = b == c
same_piece _ _ = false

unfoldable pub same_text : Text → Text → Bool
same_text [] [] = true
same_text (p ∷ s) (q ∷ t) = same_piece p q && same_text s t
same_text _ _ = false

-- `out[key] = v`.
unfoldable pub set_entry : Text → Text → List (Text × Text) → List (Text × Text)
unfolding same_text
set_entry key v [] = (key, v) ∷ []
set_entry key v ((name, old) ∷ entries) =
    if same_text name key then (key, v) ∷ entries else (name, old) ∷ set_entry key v entries

-- The loop of Map, with the entries that it has written.
unfoldable pub map_entries : List (Text × Text) → List (Text × Text) → List (Text × Text)
unfolding set_entry line
map_entries out [] = out
map_entries out ((k, v) ∷ entries) = map_entries (set_entry (line k) (line v) out) entries

unfoldable pub map_texts : Option (List (Text × Text)) → Option (List (Text × Text))
unfolding map_entries
map_texts none = none
map_texts (some entries) = some (map_entries [] entries)
