-- ===== src/ComponentRegistry/Reference.antt =====
-- internal/registry/reference.go: the parsing and the printing of an image reference. The separators are
-- ASCII, so a text is read by its characters; a tag or a digest with another character is refused
-- whatever its length in bytes is.
pub mod Splits
pub mod RoundTrip
pub mod Reads
use Prim.Native.Char.{Char, code}
use Prim.Native.String
use flowctl.Prelude.{
  ℕ, zero, suc, String, Bool, true, false, ◌&&◌, ◌||◌, not, Option, none, some, List, [], ◌∷◌,
  str_eq, if◌then◌else◌, ltb, leb, ◌==◌, is_some,
}
use flowctl.Prelude.Texts.{concat}

pub record ImageReference : Type 0 where
  pub registry : String
  pub repository : String
  pub tag : String
  pub digest : String
  pub raw : String

pub data ReferenceError : Type 0 where
  empty_reference invalid_digest empty_registry empty_repository no_version invalid_tag :
      ReferenceError

pub data Parsed : Type 0 where
  parsed : ImageReference → Parsed
  refused : ReferenceError → Parsed

-- The texts before and after the first occurrence of a character: strings.SplitN with 2.
unfoldable pub split_first : ℕ → String → Option (String × String)
split_first c String.[] = none
split_first c (String.◌∷◌ d s) =
    let rest = split_first c s in
    if code d == c
    then some ("", s)
    else elim rest [ none ↦ none | some (front, back) ↦ some (String.◌∷◌ d front, back) ]

-- Those before and after the last one: strings.LastIndex.
unfoldable pub split_last : ℕ → String → Option (String × String)
split_last c String.[] = none
split_last c (String.◌∷◌ d s) = elim (split_last c s) [
  | some (front, back) ↦ some (String.◌∷◌ d front, back)
  | none ↦ if code d == c then some ("", s) else none
]

unfoldable pub contains : ℕ → String → Bool
contains c String.[] = false
contains c (String.◌∷◌ d s) = code d == c || contains c s

unfoldable pub all_chars : (ℕ → Bool) → String → Bool
all_chars p String.[] = true
all_chars p (String.◌∷◌ d s) = p (code d) && all_chars p s

unfoldable pub count_chars : String → ℕ
count_chars String.[] = 0
count_chars (String.◌∷◌ d s) = suc (count_chars s)

unfoldable pub is_registry_host : String → Bool
unfolding contains
is_registry_host s = contains b'.' s || contains b':' s || str_eq s "localhost"

abbrev pub between : ℕ → ℕ → ℕ → Bool
between low high c = leb low c && leb c high

abbrev pub is_word : ℕ → Bool
is_word c = between b'a' b'z' c || between b'A' b'Z' c || between b'0' b'9' c || c == b'_'

abbrev pub is_tag_char : ℕ → Bool
is_tag_char c = is_word c || c == b'.' || c == b'-'

-- `^[a-zA-Z0-9_][a-zA-Z0-9_.-]*$`
unfoldable pub matches_tag : String → Bool
unfolding all_chars
matches_tag String.[] = false
matches_tag (String.◌∷◌ d s) = is_word (code d) && all_chars is_tag_char s

unfoldable pub is_valid_tag : String → Bool
unfolding matches_tag count_chars
is_valid_tag tag = str_eq tag "" || (leb (count_chars tag) 128 && matches_tag tag)

abbrev pub is_hex : ℕ → Bool
is_hex c = between b'a' b'f' c || between b'0' b'9' c

unfoldable pub is_valid_digest : String → Bool
unfolding split_first all_chars count_chars
is_valid_digest digest = elim (split_first b':' digest) [
  | none ↦ false
  | some (algorithm, hex) ↦
      (str_eq algorithm "sha256" || str_eq algorithm "sha512")
      && (all_chars is_hex hex && leb 32 (count_chars hex))
]

-- The method Validate of ImageReference.
unfoldable pub reference_error : ImageReference → Option ReferenceError
unfolding is_valid_tag
reference_error r =
    if str_eq r.registry ""
    then some empty_registry
    else if str_eq r.repository ""
    then some empty_repository
    else if str_eq r.tag "" && str_eq r.digest ""
    then some no_version
    else if not (is_valid_tag r.tag) && not (str_eq r.tag "")
    then some invalid_tag
    else none

-- The registry and the repository of a name.
unfoldable pub registry_and_repository : String → String × String
unfolding split_first is_registry_host
registry_and_repository path = elim (split_first b'/' path) [
  | none ↦ ("docker.io", String.◌++◌ "library/" path)
  | some (host, rest) ↦ if is_registry_host host then (host, rest) else ("docker.io", path)
]

abbrev pub checked : ImageReference → Parsed
checked r = elim (reference_error r) [ none ↦ parsed r | some e ↦ refused e ]

-- The last part of the parsing: the path is split, the default tag is set, the result is checked.
unfoldable pub parse_path : (raw digest path tag : String) → Parsed
unfolding registry_and_repository reference_error
parse_path raw digest path tag =
    let (registry, repository) = registry_and_repository path in
    checked (record {
      registry = registry;
      repository = repository;
      tag = if str_eq tag "" && str_eq digest "" then "latest" else tag;
      digest = digest;
      raw = raw;
    })

-- The part after the digest: a colon separates the tag, unless a slash follows it.
unfoldable pub parse_tagged : (raw digest name : String) → Parsed
unfolding split_last contains parse_path
parse_tagged raw digest name = elim (split_last b':' name) [
  | none ↦ parse_path raw digest name ""
  | some (front, possible_tag) ↦
      if contains b'/' possible_tag
      then parse_path raw digest name ""
      else parse_path raw digest front possible_tag
]

unfoldable pub parse_image_reference : String → Parsed
unfolding split_first is_valid_digest parse_tagged
parse_image_reference ref =
    if str_eq ref "" then refused empty_reference else elim (split_first b'@' ref) [
      | none ↦ parse_tagged ref "" ref
      | some (name, digest) ↦
          if is_valid_digest digest then parse_tagged ref digest name else refused invalid_digest
    ]

unfoldable pub without_tag : ImageReference → String
without_tag r = String.◌++◌ r.registry (String.◌++◌ "/" r.repository)

-- The method String of ImageReference.
unfoldable pub print_reference : ImageReference → String
unfolding without_tag
print_reference r =
    if not (str_eq r.digest "")
    then String.◌++◌ (without_tag r) (String.◌++◌ "@" r.digest)
    else if not (str_eq r.tag "")
    then String.◌++◌ (without_tag r) (String.◌++◌ ":" r.tag)
    else without_tag r
