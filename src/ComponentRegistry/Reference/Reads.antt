-- ===== src/ComponentRegistry/Reference/Reads.antt =====
-- What ParseImageReference of internal/registry/reference.go reads from a reference without a digest.
use Prim.Native.Char.{Char}
use Prim.Native.String
use flowctl.Prelude.{
  ℕ, String, ◌≡◌, ◌≢◌, refl, sym, ap, ◌∙◌, true, false, ◌&&◌, none, arith, str_eq, eq_iff,
  if◌then◌else◌, Option-cases, inl, inr, Bool-cases,
}
use flowctl.ComponentRegistry.Reference.{
  ImageReference, parsed, split_first, split_last, contains, is_registry_host, is_valid_tag,
  reference_error, registry_and_repository, checked, parse_path, parse_tagged,
  parse_image_reference, print_reference,
}
use flowctl.ComponentRegistry.Reference.Splits.{
  contains-append, split_first-IsFirst, split_first-none, split_last-whole,
}
use flowctl.ComponentRegistry.Reference.RoundTrip.{IsCanonical, parse-print}

-- A part of a text without a character has it neither.
parts_clear :
    (c : ℕ) (s front back : String) (d : Char)
    → s ≡ String.◌++◌ front (String.◌∷◌ d back)
    → contains c s ≡ false
    → (contains c front ≡ false) × (contains c back ≡ false)
unfolding contains
parts_clear c s front back d e h =
    let h' = ap (contains c) (sym e) ∙ h in
    ground (arith, contains-append c front (String.◌∷◌ d back))

-- The registry of a name is a host without a slash, and nothing brings in an "@".
named_registry :
    (path : String)
    → contains b'@' path ≡ false
    → (is_registry_host (registry_and_repository path).0 ≡ true)
      × (contains b'/' (registry_and_repository path).0 ≡ false)
      × (contains b'@' (registry_and_repository path).0 ≡ false)
      × (contains b'@' (registry_and_repository path).1 ≡ false)
unfolding registry_and_repository contains
named_registry path h = elim (Option-cases (split_first b'/' path)) [
  | inl missing ↦
      rw (missing, registry_and_repository)
        (refl, refl, refl, contains-append b'@' "library/" path ∙ h)
  | inr ((host, rest), found) ↦
      let (clear, (d, same, whole)) = rw found at (split_first-IsFirst b'/' path) in
      let (front, back) = parts_clear b'@' path host rest d whole h in
      elim (Bool-cases (is_registry_host host)) [
        | inl named ↦ rw (found, named, registry_and_repository) (named, clear, front, back)
        | inr plain ↦ rw (found, plain, registry_and_repository) (refl, refl, refl, h)
      ]
]

checked-parsed :
    (q r : ImageReference) → checked q ≡ parsed r → (q ≡ r) × (reference_error q ≡ none)
checked-parsed q r h = elim (Option-cases (reference_error q)) [
  | inl fine ↦ (cc (rw (checked, fine) at h), fine)
  | inr (e, bad) ↦ absurd (cc (rw (checked, bad) at h))
]

check_repository : (r : ImageReference) → reference_error r ≡ none → r.repository ≢ ""
unfolding reference_error
check_repository r h = ground (arith, eq_iff r.repository "")

check_tag :
    (r : ImageReference)
    → reference_error r ≡ none
    → r.digest ≡ ""
    → (r.tag ≢ "") × (is_valid_tag r.tag ≡ true)
unfolding reference_error
check_tag r h plain = ground (arith, eq_iff r.tag "", eq_iff r.digest "")

parse_path_reads :
    (raw path tag : String) (r : ImageReference)
    → contains b'@' path ≡ false
    → parse_path raw "" path tag ≡ parsed r
    → IsCanonical r
unfolding parse_path
parse_path_reads raw path tag r clear h =
    let q : ImageReference = record {
      registry = (registry_and_repository path).0;
      repository = (registry_and_repository path).1;
      tag = if str_eq tag "" && str_eq "" "" then "latest" else tag;
      digest = "";
      raw = raw;
    } in
    let (e, check) = checked-parsed q r h in
    let (host, slash, at, at') = named_registry path clear in
    rw (← e) (record {
      registry_is_host = host;
      registry_has_no_slash = slash;
      registry_has_no_at = at;
      repository_is_named = check_repository q check;
      repository_has_no_at = at';
      version = let (named, valid) = check_tag q check refl in inl (refl, named, valid);
    })

parse_tagged_reads :
    (raw name : String) (r : ImageReference)
    → contains b'@' name ≡ false
    → parse_tagged raw "" name ≡ parsed r
    → IsCanonical r
unfolding parse_tagged
parse_tagged_reads raw name r clear h = elim (Option-cases (split_last b':' name)) [
  | inl missing ↦ parse_path_reads raw name "" r clear (rw (missing, parse_tagged) at h)
  | inr ((front, tag), found) ↦
      let (d, whole) = split_last-whole b':' name front tag found in
      let parts = parts_clear b'@' name front tag d whole clear in
      elim (Bool-cases (contains b'/' tag)) [
        | inl port ↦ parse_path_reads raw name "" r clear (rw (found, port, parse_tagged) at h)
        | inr last ↦ parse_path_reads raw front tag r parts.0 (rw (found, last, parse_tagged) at h)
      ]
]

-- A reference without a digest that is accepted is printed as a text that reads as the same registry,
-- repository and tag.
pub reparse :
    (ref : String) (r : ImageReference)
    → contains b'@' ref ≡ false
    → parse_image_reference ref ≡ parsed r
    → parse_image_reference (print_reference r) ≡ parsed (record r { raw = print_reference r })
unfolding parse_image_reference
reparse ref r clear h = elim (Bool-cases (str_eq ref "")) [
  | inl empty ↦ absurd (cc (rw (empty, parse_image_reference) at h))
  | inr named ↦ parse-print r (
      parse_tagged_reads ref ref r clear
        (rw (named, split_first-none b'@' ref clear, parse_image_reference) at h))
]
