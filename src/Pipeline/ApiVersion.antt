-- ===== src/Pipeline/ApiVersion.antt =====
-- internal/apiversion/apiversion.go: Validate and ValidateKind. The expression `^flowctl/v([0-9]+)$` is
-- read as its prefix, by `strip`, and then one digit or more to the end of the text.
use Prim.Native.Char.{Char, code}
use Prim.Native.String
use text.Mathlib.TextEquality.{Char-path}
use text.Mathlib.TextLemmas.{nil-append, cons-append, append-eq-nil_iff}
use flowctl.Prelude.{
  ℕ, ◌+◌, ◌-◌, ◌*◌, ◌<◌, String, ◌≡◌, refl, sym, ◌∙◌, ◌↔◌, Bool, true, false, ◌&&◌, Option, none,
  some, str_eq, eq_iff, arith, ltb, leb, ◌==◌, if◌then◌else◌, inl, inr, Bool-cases, Option-cases,
}

pub data VersionError : Type 0 where
  required invalid unreadable newer unreleased wrong_kind : VersionError

unfoldable pub strip : String → String → Option String
strip String.[] s = some s
strip (String.◌∷◌ c p) String.[] = none
strip (String.◌∷◌ c p) (String.◌∷◌ d s) =
    let rest = strip p s in if code c == code d then rest else none

abbrev pub is_digit : Char → Bool
is_digit c = leb 48 (code c) && leb (code c) 57

unfoldable pub all_digits : String → Bool
all_digits String.[] = true
all_digits (String.◌∷◌ c s) = is_digit c && all_digits s

-- The group of the expression, if the text matches.
unfoldable pub version_digits : String → Option String
unfolding strip all_digits
version_digits v = elim (strip "flowctl/v" v) [
  | none ↦ none
  | some digits ↦ if str_eq digits "" then none else if all_digits digits then some digits else none
]

-- The value of a text of digits, after a value read before it.
unfoldable pub decimal : ℕ → String → ℕ
decimal n String.[] = n
decimal n (String.◌∷◌ c s) = decimal (n * 10 + (code c - 48)) s

-- The greatest int.
abbrev pub max_int : ℕ
max_int = 9_223_372_036_854_775_807

-- strconv.Atoi fails on a value that is no int.
unfoldable pub validate : String → Option VersionError
unfolding version_digits decimal
validate v = if str_eq v "" then some required else elim (version_digits v) [
  | none ↦ some invalid
  | some digits ↦
      if ltb max_int (decimal 0 digits)
      then some unreadable
      else if ltb 1 (decimal 0 digits)
      then some newer
      else if ltb (decimal 0 digits) 1
      then some unreleased
      else none
]

unfoldable pub validate_kind : String → Option VersionError
validate_kind kind = if str_eq kind "Pipeline" then none else some wrong_kind

strip-append : (p s r : String) → strip p s ≡ some r → s ≡ String.◌++◌ p r
unfolding strip
strip-append String.[] s r h = cc (nil-append r)
strip-append (String.◌∷◌ c p) String.[] r h = cc
strip-append (String.◌∷◌ c p) (String.◌∷◌ d s) r h = elim (Bool-cases (code c == code d)) [
  | inl same ↦
      let e = strip-append p s r (rw (same, strip) at h) in
      rw (Char-path c d (ground arith), e) (sym (cons-append d p r))
  | inr other ↦ absurd (ground arith)
]

strip_append : (p r : String) → strip p (String.◌++◌ p r) ≡ some r
unfolding strip
strip_append String.[] r = rw (nil-append r) refl
strip_append (String.◌∷◌ c p) r = rw (cons-append c p r) (ground (arith, strip_append p r))

-- A text of the expression's form: the prefix, and one digit or more.
abbrev pub IsVersion : String → String → Type 0
IsVersion v digits =
    (v ≡ String.◌++◌ "flowctl/v" digits) × (str_eq digits "" ≡ false) × (all_digits digits ≡ true)

version_digits-IsVersion : (v digits : String) → version_digits v ≡ some digits → IsVersion v digits
unfolding version_digits
version_digits-IsVersion v digits h = elim (Option-cases (strip "flowctl/v" v)) [
  | inl other ↦ absurd (ground arith)
  | inr (rest, found) ↦
      (strip-append "flowctl/v" v digits (ground arith), ground arith, ground arith)
]

version_digits_of_IsVersion :
    (v digits : String) → IsVersion v digits → version_digits v ≡ some digits
unfolding version_digits
version_digits_of_IsVersion v digits (form, filled, all) =
    ground (arith, strip_append "flowctl/v" digits)

nonempty_of_IsVersion : (v digits : String) → IsVersion v digits → str_eq v "" ≡ false
nonempty_of_IsVersion v digits (form, filled, all) = elim (Bool-cases (str_eq v "")) [
  | inl empty ↦
      let none_left = (append-eq-nil_iff.0 (sym form ∙ (eq_iff v "").0 empty)).0 in
      absurd (ground (arith, eq_iff "flowctl/v" "", none_left))
  | inr kept ↦ kept
]

-- A version is accepted exactly if it is "flowctl/v" and one digit or more, whose value is one.
pub validate_iff :
    (v : String)
    → (validate v ≡ none) ↔ ((digits : String) × IsVersion v digits × (decimal 0 digits ≡ 1))
unfolding validate
validate_iff v = (
  λ h. elim (Option-cases (version_digits v)) [
    | inl other ↦ absurd (ground arith)
    | inr (digits, found) ↦ (digits, version_digits-IsVersion v digits found, ground arith)
  ],
  λ (digits, form, one).
      ground
        (arith, version_digits_of_IsVersion v digits form, nonempty_of_IsVersion v digits form),
)

-- A version whose value is no int is refused as unreadable.
validate_overflow :
    (v digits : String)
    → IsVersion v digits
    → max_int < decimal 0 digits
    → validate v ≡ some unreadable
unfolding validate
validate_overflow v digits form large =
    ground (arith, version_digits_of_IsVersion v digits form, nonempty_of_IsVersion v digits form)
