-- ===== src/ComponentRegistry/Reference/RoundTrip.antt =====
-- What ParseImageReference of internal/registry/reference.go reads from a printed reference.
use Prim.Native.Char.{Char, code}
use Prim.Native.String
use mathlib.Core.Path.{subst}
use text.Mathlib.TextLemmas.{nil-append, cons-append, cons-ne-nil, append-eq-nil_iff}
use flowctl.Prelude.{
  ℕ, String, ◌≡◌, ◌≢◌, ◌⊎◌, refl, sym, ap, ◌∙◌, Bool, true, false, ◌||◌, ◌&&◌, none, arith, ◌==◌,
  str_eq, eq_iff, if◌then◌else◌, Option-cases, inl, inr,
}
use flowctl.ComponentRegistry.Reference.{
  ImageReference, parsed, split_first, split_last, contains, all_chars, is_word, is_tag_char,
  is_registry_host, matches_tag, is_valid_tag, is_valid_digest, reference_error,
  registry_and_repository, checked, parse_path, parse_tagged, parse_image_reference, without_tag,
  print_reference,
}
use flowctl.ComponentRegistry.Reference.Splits.{
  contains-append, all_chars-contains, split_first-none, split_first-append, split_last-append,
  behind, split_last_append,
}

-- A reference that names its registry, with a tag, or else with a digest and no colon in the repository.
pub record IsCanonical (r : ImageReference) : Type 0 where
  pub registry_is_host : is_registry_host r.registry ≡ true
  pub registry_has_no_slash : contains b'/' r.registry ≡ false
  pub registry_has_no_at : contains b'@' r.registry ≡ false
  pub repository_is_named : r.repository ≢ ""
  pub repository_has_no_at : contains b'@' r.repository ≡ false
  pub version :
      (r.digest ≡ "") × (r.tag ≢ "") × (is_valid_tag r.tag ≡ true)
      ⊎ (r.tag ≡ "") × (is_valid_digest r.digest ≡ true) × (contains b':' r.repository ≡ false)

lead : (d : Char) (s : String) → String.◌++◌ (String.◌∷◌ d "") s ≡ String.◌∷◌ d s
lead d s = cons-append d "" s ∙ ap (String.◌∷◌ d) (nil-append s)

either_true : (a b c : Bool) → a ≡ true → (a || b || c) ≡ true
either_true a b c h = ground arith

both_true : (a b : Bool) → (a && b) ≡ true → (a ≡ true) × (b ≡ true)
both_true a b h = ground arith

second_true : (a b : Bool) → a ≡ false → (a || b) ≡ true → b ≡ true
second_true a b h k = ground arith

str_eq-ne : (s t : String) → s ≢ t → str_eq s t ≡ false
str_eq-ne s t h = ground (arith, eq_iff s t)

-- A valid tag has none of the separators.
valid_tag_is_plain :
    (c : ℕ) (tag : String)
    → is_tag_char c ≡ false
    → is_valid_tag tag ≡ true
    → contains c tag ≡ false
unfolding is_valid_tag matches_tag contains
valid_tag_is_plain c String.[] h k = refl
valid_tag_is_plain c (String.◌∷◌ d s) h k =
    let rule = second_true (str_eq (String.◌∷◌ d s) "") _ (str_eq-ne _ "" (cons-ne-nil d s)) k in
    let (first, rest) = both_true _ _ (both_true _ _ rule).1 in
    all_chars-contains c is_tag_char (String.◌∷◌ d s) h
      (rw (all_chars, either_true (is_word (code d)) (code d == b'.') (code d == b'-') first) rest)

host_is_named : (s : String) → is_registry_host s ≡ true → s ≢ ""
unfolding is_registry_host contains
host_is_named String.[] h e = cc
host_is_named (String.◌∷◌ d s) h e = cc

registry_and_repository_lem :
    (registry repository : String)
    → is_registry_host registry ≡ true
    → contains b'/' registry ≡ false
    → registry_and_repository (String.◌++◌ registry (String.◌++◌ "/" repository))
      ≡ (registry, repository)
unfolding registry_and_repository
registry_and_repository_lem registry repository host clear =
    rw (lead "/" repository, registry_and_repository)
      (rw (split_first-append b'/' registry repository "/" refl clear, host) refl)

parse_path-without_tag :
    (raw digest tag : String) (r : ImageReference)
    → is_registry_host r.registry ≡ true
    → contains b'/' r.registry ≡ false
    → parse_path raw digest (without_tag r) tag
      ≡ checked (record {
        registry = r.registry;
        repository = r.repository;
        tag = if str_eq tag "" && str_eq digest "" then "latest" else tag;
        digest = digest;
        raw = raw;
      })
unfolding parse_path without_tag
parse_path-without_tag raw digest tag r host clear =
    rw (registry_and_repository_lem r.registry r.repository host clear) refl

digest_is_named : (s : String) → is_valid_digest s ≡ true → s ≢ ""
unfolding is_valid_digest
digest_is_named s h e = cc (rw e at h)

canonical_is_versioned :
    (r : ImageReference) → IsCanonical r → (str_eq r.tag "" && str_eq r.digest "") ≡ false
canonical_is_versioned r h = elim h.version [
  | inl (plain, named, valid) ↦ rw (str_eq-ne r.tag "" named) refl
  | inr (untagged, valid, clear) ↦
      rw (str_eq-ne r.digest "" (digest_is_named r.digest valid)) (ground arith)
]

canonical_tag_is_valid : (r : ImageReference) → IsCanonical r → is_valid_tag r.tag ≡ true
unfolding is_valid_tag
canonical_tag_is_valid r h = elim h.version [
  | inl (plain, named, valid) ↦ valid
  | inr (untagged, valid, clear) ↦ rw untagged refl
]

slash_after : (back rest : String) → contains b'/' (String.◌++◌ back (String.◌++◌ "/" rest)) ≡ true
unfolding contains
slash_after back rest =
    rw (contains-append b'/' back (String.◌++◌ "/" rest), contains-append b'/' "/" rest)
      (ground arith)

module _ (r : ImageReference) (h : IsCanonical r) where
  canonical_check : (raw : String) → reference_error (record r { raw = raw }) ≡ none
  unfolding reference_error
  canonical_check raw =
      let valid = canonical_tag_is_valid r h in
      rw
        (
          str_eq-ne r.registry "" (host_is_named r.registry h.registry_is_host),
          str_eq-ne r.repository "" h.repository_is_named,
          canonical_is_versioned r h,
        )
        (rw valid refl)

  parse_path_canonical :
      (raw : String)
      → parse_path raw r.digest (without_tag r) r.tag ≡ parsed (record r { raw = raw })
  parse_path_canonical raw =
      rw
        (
          parse_path-without_tag raw r.digest r.tag r h.registry_is_host h.registry_has_no_slash,
          canonical_is_versioned r h,
        )
        (rw (checked, canonical_check raw) refl)

  without_tag_has_no_at : contains b'@' (without_tag r) ≡ false
  unfolding without_tag contains
  without_tag_has_no_at =
      rw
        (
          contains-append b'@' r.registry (String.◌++◌ "/" r.repository),
          contains-append b'@' "/" r.repository,
          h.registry_has_no_at,
          h.repository_has_no_at,
        )
        refl

  without_tag_is_named : (s : String) → String.◌++◌ (without_tag r) s ≢ ""
  unfolding without_tag
  without_tag_is_named s e =
      host_is_named r.registry h.registry_is_host (append-eq-nil_iff.0 (append-eq-nil_iff.0 e).0).0

  -- The tag is read back.
  parse_tagged_tag :
      (raw : String)
      → r.digest ≡ ""
      → is_valid_tag r.tag ≡ true
      → parse_tagged raw "" (String.◌++◌ (without_tag r) (String.◌∷◌ ":" r.tag))
        ≡ parsed (record r { raw = raw })
  unfolding parse_tagged
  parse_tagged_tag raw plain valid =
      rw
        (
          parse_tagged,
          split_last-append b':' (without_tag r) r.tag ":" refl
              (valid_tag_is_plain b':' r.tag refl valid),
          valid_tag_is_plain b'/' r.tag refl valid,
        )
        (subst (λ d. parse_path raw d (without_tag r) r.tag ≡ parsed (record r { raw = raw })) plain
          (parse_path_canonical raw))

  split_last-without_tag :
      contains b':' r.repository ≡ false
      → split_last b':' (without_tag r)
        ≡ behind b':' (split_last b':' r.registry) (String.◌++◌ "/" r.repository)
  unfolding without_tag contains
  split_last-without_tag clear =
      split_last_append b':' r.registry (String.◌++◌ "/" r.repository)
        (contains-append b':' "/" r.repository ∙ clear)

  -- The colon of a port is no tag's, since a slash comes after it.
  parse_tagged_name :
      (raw : String)
      → r.tag ≡ ""
      → contains b':' r.repository ≡ false
      → parse_tagged raw r.digest (without_tag r) ≡ parsed (record r { raw = raw })
  unfolding parse_tagged
  parse_tagged_name raw untagged clear =
      let whole : parse_path raw r.digest (without_tag r) "" ≡ parsed (record r { raw = raw }) =
        subst (λ t. parse_path raw r.digest (without_tag r) t ≡ parsed (record r { raw = raw }))
          untagged (parse_path_canonical raw) in
      rw (parse_tagged, split_last-without_tag clear)
        (elim (Option-cases (split_last b':' r.registry)) [
          | inl missing ↦ rw missing whole
          | inr ((front, back), found) ↦ rw (found, slash_after back r.repository) whole
        ])

tagged_has_no_at :
    (r : ImageReference) (h : IsCanonical r)
    → is_valid_tag r.tag ≡ true
    → contains b'@' (String.◌++◌ (without_tag r) (String.◌∷◌ ":" r.tag)) ≡ false
unfolding contains
tagged_has_no_at r h valid =
    rw
      (
        contains-append b'@' (without_tag r) (String.◌∷◌ ":" r.tag),
        without_tag_has_no_at r h,
        valid_tag_is_plain b'@' r.tag refl valid,
      )
      refl

-- What starts with a registry, and has its first "@" before the digest.
parse_digested :
    (r : ImageReference) (h : IsCanonical r)
    → r.tag ≡ ""
    → is_valid_digest r.digest ≡ true
    → contains b':' r.repository ≡ false
    → (raw : String) → raw ≡ String.◌++◌ (without_tag r) (String.◌∷◌ "@" r.digest)
    → parse_image_reference raw ≡ parsed (record r { raw = raw })
unfolding parse_image_reference
parse_digested r h untagged valid clear raw e =
    rw
      (
        parse_image_reference,
        str_eq-ne raw "" (λ empty. without_tag_is_named r h _ (sym e ∙ empty)),
        ap (split_first b'@') e
            ∙ split_first-append b'@' (without_tag r) r.digest "@" refl (without_tag_has_no_at r h),
        valid,
      )
      (parse_tagged_name r h raw untagged clear)

parse_plain :
    (r : ImageReference) (h : IsCanonical r)
    → r.digest ≡ ""
    → is_valid_tag r.tag ≡ true
    → (raw : String) → raw ≡ String.◌++◌ (without_tag r) (String.◌∷◌ ":" r.tag)
    → parse_image_reference raw ≡ parsed (record r { raw = raw })
unfolding parse_image_reference
parse_plain r h plain valid raw e =
    rw
      (
        parse_image_reference,
        str_eq-ne raw "" (λ empty. without_tag_is_named r h _ (sym e ∙ empty)),
        split_first-none b'@' raw (ap (contains b'@') e ∙ tagged_has_no_at r h valid),
      )
      (ap (parse_tagged raw "") e ∙ parse_tagged_tag r h raw plain valid)

-- A reference that names a host as its registry, and has a valid tag or else a valid digest, is read back
-- from its print, if none of its parts before the version has an "@", its registry no slash, and its
-- repository a name, and no colon before a digest.
pub parse-print :
    (r : ImageReference)
    → IsCanonical r
    → parse_image_reference (print_reference r) ≡ parsed (record r { raw = print_reference r })
unfolding print_reference
parse-print r h = elim h.version [
  | inl (plain, named, valid) ↦
      parse_plain r h plain valid (print_reference r)
        (rw (plain, str_eq-ne r.tag "" named, lead ":" r.tag) refl)
  | inr (untagged, valid, clear) ↦
      parse_digested r h untagged valid clear (print_reference r)
        (rw (str_eq-ne r.digest "" (digest_is_named r.digest valid), lead "@" r.digest) refl)
]
