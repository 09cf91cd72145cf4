-- ===== src/Validator/Sound.antt =====
-- What internal/validator/validator.go accepts, and what the loader then does.
use flowctl.Prelude.{String, ◌≡◌, ◌↔◌, Bool, true, List, [], arith, All}
use flowctl.Prelude.Map.{StringMap}
use flowctl.Pipeline.Model.{Pipeline}
use flowctl.Pipeline.Loader.{is_empty}
use flowctl.Validator.{all_errors, validate}
use flowctl.Validator.Accepted.{IsAccepted}
use flowctl.Validator.Errors.{
  both_iff, metadata_iff, driver_iff, component_iff, duplicates_iff, details_iff, command_lists_iff,
}
use flowctl.Validator.Ports.{all_components, validate_ports}
use flowctl.Validator.Ports.Once.{NamedOnce, conflict_errors-NamedOnce}

is_empty_iff {ℓ} : {A : Type ℓ} (xs : List A) → (is_empty xs ≡ true) ↔ (xs ≡ [])
is_empty_iff xs = ground arith

module _ (quote : String → String) (missing : String → Bool)
    (visit : StringMap (List String) → StringMap (List String))
    (visits : (P : String × List String → Type 0) (m : StringMap (List String))
      → All P (visit m) ↔ All P m)
    (p : Pipeline) where
  ports_iff :
      (validate_ports visit p.spec ≡ [])
      ↔ (NamedOnce "PORT" (all_components p.spec) × NamedOnce "HEALTH_PORT" (all_components p.spec))
  unfolding validate_ports
  ports_iff =
      both_iff _ _ (conflict_errors-NamedOnce visit visits _ _ "PORT" (all_components p.spec))
        (conflict_errors-NamedOnce visit visits _ _ "HEALTH_PORT" (all_components p.spec))

  all_errors-IsAccepted : (all_errors quote missing visit p ≡ []) ↔ IsAccepted p
  unfolding all_errors
  all_errors-IsAccepted =
      let front =
        both_iff _ _ (both_iff _ _ (metadata_iff p) (driver_iff quote p.spec.driver))
          (component_iff p.spec) in
      let middle =
        both_iff _ _ (both_iff _ _ front (duplicates_iff p.spec)) (details_iff quote p.spec) in
      let all = both_iff _ _ (both_iff _ _ middle ports_iff) (command_lists_iff p.spec) in
      (
        λ h.
            let ((((((m, d), (a, b)), u), (e, f, g)), (i, j)), k) = all.0 h in
            record {
              named = m;
              driver = d;
              has_source = a;
              has_sink = b;
              distinct = u;
              health = e;
              processors = f;
              sinks = g;
              ports = i;
              health_ports = j;
              launchable = k;
            },
        λ h. all.1 (
          (
            (
              (((h.named, h.driver), (h.has_source, h.has_sink)), h.distinct),
              (h.health, h.processors, h.sinks),
            ),
            (h.ports, h.health_ports),
          ),
          h.launchable,
        ),
      )

  -- In whatever order the ports are visited, Validate reports a pipeline as valid exactly if it has a name,
  -- a known driver or none, a source and a sink; the identifiers of its sources, processors and sinks are
  -- distinct; a source with a health check has a health port; processors and sinks have an input and no
  -- negative number of replicas, and each of their inputs is a source or, for a processor, a processor
  -- before it, for a sink, any processor; no two components name the same port or the same health port;
  -- and each component can be launched by a command, an image or a type.
  pub validate-IsAccepted : ((validate quote missing visit p).valid ≡ true) ↔ IsAccepted p
  unfolding validate
  validate-IsAccepted =
      let empty = is_empty_iff (all_errors quote missing visit p) in
      (λ h. all_errors-IsAccepted.0 (empty.0 h), λ h. empty.1 (all_errors-IsAccepted.1 h))
