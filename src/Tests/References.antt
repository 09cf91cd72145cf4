-- ===== src/Tests/References.antt =====
-- Examples for image references.
use flowctl.Prelude.{◌≡◌, refl, inr, false}
use flowctl.ComponentRegistry.Reference.{
  ImageReference, parsed, refused, invalid_tag, invalid_digest, parse_image_reference,
  print_reference, contains, is_registry_host, is_valid_digest,
}
use flowctl.ComponentRegistry.Reference.RoundTrip.{IsCanonical, parse-print}
use flowctl.ComponentRegistry.Reference.Reads.{reparse}

abbrev nginx : ImageReference
nginx = record {
  registry = "docker.io";
  repository = "library/nginx";
  tag = "v1.21";
  digest = "";
  raw = "nginx:v1.21";
}

abbrev pinned : ImageReference
pinned = record {
  registry = "localhost:5000";
  repository = "app";
  tag = "";
  digest = "sha256:0123456789abcdef0123456789abcdef";
  raw = "";
}

nginx_parsed : parse_image_reference "nginx:v1.21" ≡ parsed nginx
unfolding parse_image_reference
nginx_parsed = refl

nginx_printed : print_reference nginx ≡ "docker.io/library/nginx:v1.21"
unfolding print_reference
nginx_printed = refl

dotted_refused : parse_image_reference "nginx:.x" ≡ refused invalid_tag
unfolding parse_image_reference
dotted_refused = refl

short_refused : parse_image_reference "a@sha256:abc" ≡ refused invalid_digest
unfolding parse_image_reference
short_refused = refl

nginx_is_plain : contains b'@' "nginx:v1.21" ≡ false
unfolding contains
nginx_is_plain = refl

pinned-IsCanonical : IsCanonical pinned
unfolding is_registry_host contains is_valid_digest
pinned-IsCanonical = record {
  registry_is_host = refl;
  registry_has_no_slash = refl;
  registry_has_no_at = refl;
  repository_is_named = λ e. cc e;
  repository_has_no_at = refl;
  version = inr (refl, refl, refl);
}

reparse_example :
    parse_image_reference (print_reference nginx)
    ≡ parsed (record nginx { raw = print_reference nginx })
reparse_example = reparse "nginx:v1.21" nginx nginx_is_plain nginx_parsed

parse-print_example :
    parse_image_reference (print_reference pinned)
    ≡ parsed (record pinned { raw = print_reference pinned })
parse-print_example = parse-print pinned pinned-IsCanonical
