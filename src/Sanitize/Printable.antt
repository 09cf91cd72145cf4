-- ===== src/Sanitize/Printable.antt =====
-- What internal/sanitize/sanitize.go lets through to a terminal.
use flowctl.Prelude.{
  ◌≡◌, refl, Bool, true, false, not, ◌&&◌, ◌||◌, List, [], ◌∷◌, map, some, arith, select, All,
  Bool-cases, inl, inr,
}
use flowctl.Sanitize.{
  Piece, rune, invalid, Text, value, is_control, is_space, no_control, is_clean, rewrite_string,
  string, rewrite_line, line, strings, same_text, set_entry, map_entries, map_texts,
}

-- What may be printed: all but the control characters, with or without newline and tab.
unfoldable pub printable : Bool → Piece → Bool
unfolding is_control is_space
printable allow_whitespace p =
    not (is_control (value p)) || (allow_whitespace && is_space (value p))

-- The description of both functions that the code does not follow.
abbrev pub printed : Bool → Text → Text
printed allow_whitespace s = map (λ p. rune (value p)) (select (printable allow_whitespace) s)

rewrite_string-printed : (s : Text) → rewrite_string s ≡ printed true s
unfolding rewrite_string printable is_control is_space
rewrite_string-printed [] = refl
rewrite_string-printed (p ∷ s) = ground (arith, rewrite_string-printed s)

rewrite_line-printed : (s : Text) → rewrite_line s ≡ printed false s
unfolding rewrite_line printable is_control is_space
rewrite_line-printed [] = refl
rewrite_line-printed (p ∷ s) = ground (arith, rewrite_line-printed s)

clean-printed : (allow : Bool) (s : Text) → is_clean s allow ≡ true → s ≡ printed allow s
unfolding is_clean no_control printable is_control is_space
clean-printed allow [] h = refl
clean-printed allow (rune r ∷ s) h = ground (arith, h, clean-printed allow s)
clean-printed allow (invalid b ∷ s) h = ground (arith, h)

-- String answers the characters of its text that are no control characters, or are a newline or a tab,
-- in their order; Line answers those that are no control characters. In both, each byte that is no part
-- of a character becomes U+FFFD. This holds on the path that answers the text itself, too.
pub string-line-printed : (s : Text) → (string s ≡ printed true s) × (line s ≡ printed false s)
unfolding string line
string-line-printed s = (
  elim (Bool-cases (is_clean s true)) [
    | inl clean ↦ rw (clean, string) (clean-printed true s clean)
    | inr dirty ↦ rw (dirty, string) (rewrite_string-printed s)
  ],
  elim (Bool-cases (is_clean s false)) [
    | inl clean ↦ rw (clean, line) (clean-printed false s clean)
    | inr dirty ↦ rw (dirty, line) (rewrite_line-printed s)
  ],
)

-- What is printable in the wider sense stays so on a second pass.
printed_again :
    (wide narrow : Bool) (s : Text)
    → ((p : Piece) → printable narrow p ≡ true → printable wide p ≡ true)
    → printed narrow (printed wide s) ≡ printed narrow s
unfolding printable
printed_again wide narrow [] h = refl
printed_again wide narrow (p ∷ s) h = ground (arith, printed_again wide narrow s h, h p)

printable_widen : (p : Piece) → printable false p ≡ true → printable true p ≡ true
unfolding printable
printable_widen p h = ground (arith, h)

-- Text that String or Line has cleaned is as it was after the same function again, and Line answers the
-- same whether or not String went before.
pub string-line_again :
    (s : Text)
    → (string (string s) ≡ string s) × (line (line s) ≡ line s) × (line (string s) ≡ line s)
string-line_again s = (
  rw ((string-line-printed (string s)).0, (string-line-printed s).0)
      (printed_again true true s (λ p h. h)),
  rw ((string-line-printed (line s)).1, (string-line-printed s).1)
      (printed_again false false s (λ p h. h)),
  rw ((string-line-printed (string s)).1, (string-line-printed s).0, (string-line-printed s).1)
      (printed_again true false s printable_widen),
)

abbrev pub IsPrintable : Bool → Text → Type 0
IsPrintable allow_whitespace s = All (λ p. printable allow_whitespace p ≡ true) s

printed-IsPrintable : (allow : Bool) (s : Text) → IsPrintable allow (printed allow s)
unfolding printable
printed-IsPrintable allow [] = tt
printed-IsPrintable allow (p ∷ s) = elim (Bool-cases (printable allow p)) [
  | inl keep ↦ rw keep (keep, printed-IsPrintable allow s)
  | inr drop ↦ rw drop (printed-IsPrintable allow s)
]

line-IsPrintable : (s : Text) → IsPrintable false (line s)
line-IsPrintable s = rw ((string-line-printed s).1) (printed-IsPrintable false s)

strings-IsPrintable : (lines : List Text) → All (IsPrintable false) (strings lines)
unfolding strings
strings-IsPrintable [] = tt
strings-IsPrintable (s ∷ lines) = (line-IsPrintable s, strings-IsPrintable lines)

abbrev pub IsPrintableEntry : Text × Text → Type 0
IsPrintableEntry (k, v) = IsPrintable false k × IsPrintable false v

set_entry-IsPrintable :
    (k v : Text) (m : List (Text × Text))
    → IsPrintable false k
    → IsPrintable false v
    → All IsPrintableEntry m
    → All IsPrintableEntry (set_entry k v m)
unfolding set_entry
set_entry-IsPrintable k v [] hk hv h = ((hk, hv), tt)
set_entry-IsPrintable k v ((name, old) ∷ m) hk hv (e, h) = elim (Bool-cases (same_text name k)) [
  | inl same ↦ rw (same, set_entry) ((hk, hv), h)
  | inr other ↦ rw (other, set_entry) (e, set_entry-IsPrintable k v m hk hv h)
]

map_entries-IsPrintable :
    (out m : List (Text × Text))
    → All IsPrintableEntry out
    → All IsPrintableEntry (map_entries out m)
unfolding map_entries
map_entries-IsPrintable out [] h = h
map_entries-IsPrintable out ((k, v) ∷ m) h =
    map_entries-IsPrintable (set_entry (line k) (line v) out) m
      (set_entry-IsPrintable (line k) (line v) out (line-IsPrintable k) (line-IsPrintable v) h)

-- No control character is left in a text that Line answers, in an element of what Strings answers, or in
-- a key or a value of what Map answers, and none but newlines and tabs in what String answers.
outputs-IsPrintable :
    (s : Text) (lines : List Text) (entries : List (Text × Text))
    → IsPrintable true (string s)
      × IsPrintable false (line s)
      × All (IsPrintable false) (strings lines)
      × ((out : List (Text × Text)) × (map_texts (some entries) ≡ some out)
          × All IsPrintableEntry out)
unfolding map_texts
outputs-IsPrintable s lines entries = (
  rw ((string-line-printed s).0) (printed-IsPrintable true s),
  line-IsPrintable s,
  strings-IsPrintable lines,
  (map_entries [] entries, refl, map_entries-IsPrintable [] entries tt),
)
