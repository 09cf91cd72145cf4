-- ===== src/Orchestrator/Environment.antt =====
-- buildEnvironment of internal/orchestrator/process.go. An entry "key=value" stands as its key and value.
use flowctl.Prelude.{
  ℕ, ◌+◌, ◌≡◌, refl, String, List, [], ◌∷◌, ◌++◌, Option, none, some, is_some, if◌then◌else◌,
  str_eq, eq_iff, arith, ap, Bool-cases, Option-cases, inl, inr,
}
use flowctl.Prelude.Map.{
  StringMap, lookup, insert, or_else, HasUniqueKeys, insert-HasUniqueKeys, lookup-insert,
}
use flowctl.Prelude.Decimal.{show_ℕ}

-- HEALTH_PORT is set for a component that does not have it, from the number of the processes.
unfoldable pub component_env : ℕ → StringMap String → StringMap String
component_env processes environment =
    if is_some (lookup "HEALTH_PORT" environment)
    then environment
    else insert "HEALTH_PORT" (show_ℕ (18080 + processes + 1)) environment

-- What flowctl sets itself, after all else.
unfoldable pub flowctl_env : String → String → List (String × String)
flowctl_env endpoint id =
    ("ENABLE_FLOWCTL", "true")
    ∷ ("FLOWCTL_ENDPOINT", endpoint)
    ∷ ("FLOWCTL_HEARTBEAT_INTERVAL", "10s")
    ∷ ("FLOWCTL_HEARTBEAT_INTERVAL_MS", "10000")
    ∷ ("FLOWCTL_SERVICE_ID", id)
    ∷ ("FLOWCTL_COMPONENT_ID", id)
    ∷ []

-- `order` is the order in which the map's entries are visited.
unfoldable pub build_environment :
    (order : StringMap String → StringMap String) (os : List (String × String)) (endpoint : String)
    (processes : ℕ) (id : String)
    → StringMap String
    → List (String × String)
unfolding component_env flowctl_env
build_environment order os endpoint processes id environment =
    os ++ (order (component_env processes environment) ++ flowctl_env endpoint id)

-- os/exec gives the process the last entry of a key.
abbrev pub later : Option String → Option String → Option String
later first none = first
later first (some v) = some v

unfoldable pub last_value : String → List (String × String) → Option String
last_value key [] = none
last_value key ((name, v) ∷ entries) =
    later (if str_eq name key then some v else none) (last_value key entries)

pub last_value-append :
    (key : String) (xs ys : List (String × String))
    → last_value key (xs ++ ys) ≡ later (last_value key xs) (last_value key ys)
unfolding last_value
last_value-append key [] ys = ground arith
last_value-append key ((name, v) ∷ xs) ys = ground (arith, last_value-append key xs ys)

-- Keys stand once in a visit, with the values that they have in the map.
abbrev pub VisitsOnce : (StringMap String → StringMap String) → Type 0
VisitsOnce order =
    (m : StringMap String)
    → HasUniqueKeys m
    → HasUniqueKeys (order m) × ((key : String) → lookup key (order m) ≡ lookup key m)

last_value-lookup :
    (key : String) (m : StringMap String) → HasUniqueKeys m → last_value key m ≡ lookup key m
unfolding last_value lookup
last_value-lookup key [] h = refl
last_value-lookup key ((name, v) ∷ m) (new, h) =
    ground (arith, eq_iff name key, last_value-lookup key m h, ap (λ k. lookup k m))

component_env-HasUniqueKeys :
    (n : ℕ) (m : StringMap String) → HasUniqueKeys m → HasUniqueKeys (component_env n m)
unfolding component_env
component_env-HasUniqueKeys n m h = elim (Bool-cases (is_some (lookup "HEALTH_PORT" m))) [
  | inl set ↦ rw (component_env, set) h
  | inr unset ↦ rw (component_env, unset) (insert-HasUniqueKeys "HEALTH_PORT" _ m h)
]

-- The default port, for the key that it is set under.
abbrev pub default_port : ℕ → String → Option String
default_port n key = if str_eq "HEALTH_PORT" key then some (show_ℕ (18080 + n + 1)) else none

lookup-component_env :
    (n : ℕ) (m : StringMap String) (key : String)
    → lookup key (component_env n m) ≡ or_else (lookup key m) (default_port n key)
unfolding component_env
lookup-component_env n m key = ground (
  arith,
  eq_iff "HEALTH_PORT" key,
  lookup-insert "HEALTH_PORT" key (show_ℕ (18080 + n + 1)) m,
  Option-cases (lookup key m),
  λ (e : "HEALTH_PORT" ≡ key). ap (λ k. lookup k m) e,
)

-- A variable of a component's process has the value that flowctl sets for it, or else the component's own
-- one, or else the default HEALTH_PORT, or else the environment's of flowctl itself, if the visit of the
-- component's map yields each key once.
pub environment_values :
    (order : StringMap String → StringMap String) (os : List (String × String)) (endpoint : String)
    (processes : ℕ) (id : String) (environment : StringMap String)
    → VisitsOnce order
    → HasUniqueKeys environment
    → (key : String)
    → last_value key (build_environment order os endpoint processes id environment)
      ≡ or_else (last_value key (flowctl_env endpoint id)) (
          or_else
            (lookup key environment)
            (or_else (default_port processes key) (last_value key os)))
unfolding build_environment
environment_values order os endpoint processes id environment visits unique key =
    let m = component_env processes environment in
    let (once, same) = visits m (component_env-HasUniqueKeys processes environment unique) in
    ground (
      arith,
      last_value-append key os (order m ++ flowctl_env endpoint id),
      last_value-append key (order m) (flowctl_env endpoint id),
      last_value-lookup key (order m) once,
      same key,
      lookup-component_env processes environment key,
    )
