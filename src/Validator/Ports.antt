-- ===== src/Validator/Ports.antt =====
-- internal/validator/validator.go: validatePorts.
pub mod Once
use flowctl.Prelude.{
  ℕ, zero, suc, ◌+◌, ◌≤◌, String, ◌≡◌, refl, ◌↔◌, Bool, true, false, Option, none, some, List, [],
  ◌∷◌, ◌++◌, str_eq, eq_iff, arith, ltb, if◌then◌else◌, length, All, Bool-cases, Option-cases, inl,
  inr,
}
use flowctl.Prelude.Map.{StringMap, lookup, insert}
use flowctl.Prelude.Texts.{concat, join}
use flowctl.Pipeline.Model.{Component, Spec}
use flowctl.Pipeline.Loader.{has_id}
use flowctl.Validator.Result.{ValidationError, error}

-- extractPort with one key; "" stands for no port.
unfoldable pub extract_port : String → StringMap String → String
unfolding lookup
extract_port key env = elim (lookup key env) [ none ↦ "" | some port ↦ port ]

abbrev users : String → StringMap (List String) → List String
users port ports = elim (lookup port ports) [ none ↦ [] | some ids ↦ ids ]

unfoldable pub add_port : String → String → StringMap (List String) → StringMap (List String)
unfolding insert lookup
add_port port id ports = insert port (users port ports ++ (id ∷ [])) ports

-- The loop over all components: the identifiers under each port.
unfoldable pub collect_ports :
    String → StringMap (List String) → List Component → StringMap (List String)
unfolding extract_port add_port
collect_ports key ports [] = ports
collect_ports key ports (c ∷ cs) =
    collect_ports key
      (let port = extract_port key c.env in
        if str_eq port "" then ports else add_port port c.id ports)
      cs

unfoldable pub conflict_errors : String → String → StringMap (List String) → List ValidationError
conflict_errors field title [] = []
conflict_errors field title ((port, ids) ∷ ports) =
    let rest = conflict_errors field title ports in
    if ltb 1 (length ids)
    then error field
        (concat (title ∷ ": " ∷ port ∷ " used by multiple components: " ∷ join ", " ids ∷ []))
        (if str_eq field "PORT"
          then "Assign unique ports to each component"
          else "Assign unique health ports to each component")
      ∷ rest
    else rest

abbrev pub all_components : Spec → List Component
all_components spec = spec.sources ++ spec.processors ++ spec.sinks

unfoldable pub validate_ports :
    (StringMap (List String) → StringMap (List String)) → Spec → List ValidationError
unfolding collect_ports conflict_errors
validate_ports visit spec =
    conflict_errors "PORT" "Port conflict" (visit (collect_ports "PORT" [] (all_components spec)))
    ++ conflict_errors "HEALTH_PORT" "Health port conflict"
        (visit (collect_ports "HEALTH_PORT" [] (all_components spec)))
