-- ===== src/Tests/Sanitize.antt =====
-- The theorems on internal/sanitize/sanitize.go, at texts with an escape sequence, a newline and a byte
-- that is no part of a character.
use flowctl.Prelude.{◌≡◌, refl, true, false, [], ◌∷◌, some}
use flowctl.Sanitize.{rune, invalid, Text, string, line, map_texts}
use flowctl.Sanitize.Printable.{printed, string-line-printed, string-line_again}

-- ESC, `]`, `a`, newline, 0x9f as a byte.
abbrev escape : Text
escape = rune 27 ∷ rune 93 ∷ rune 97 ∷ rune 10 ∷ invalid 159 ∷ []

string_run : string escape ≡ rune 93 ∷ rune 97 ∷ rune 10 ∷ rune 65533 ∷ []
unfolding string
string_run = refl

line_run : line escape ≡ rune 93 ∷ rune 97 ∷ rune 65533 ∷ []
unfolding line
line_run = refl

-- Two keys that Line makes equal leave one entry.
map_run :
    map_texts (some ((rune 97 ∷ [], rune 49 ∷ []) ∷ (rune 97 ∷ rune 7 ∷ [], rune 50 ∷ []) ∷ []))
    ≡ some ((rune 97 ∷ [], rune 50 ∷ []) ∷ [])
unfolding map_texts
map_run = refl

string-line-printed_example :
    (string escape ≡ printed true escape) × (line escape ≡ printed false escape)
string-line-printed_example = string-line-printed escape

string-line_again_example :
    (string (string escape) ≡ string escape)
    × (line (line escape) ≡ line escape)
    × (line (string escape) ≡ line escape)
string-line_again_example = string-line_again escape
