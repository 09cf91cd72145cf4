-- ===== src/Pipeline/Resolve/Environment.antt =====
-- The environment of a component that was resolved (resolveComponent of internal/runner/loader.go).
use flowctl.Prelude.{
  String, ◌≡◌, refl, ap, ◌∙◌, true, Option, none, some, Option-cases, inl, inr, [], ◌∷◌, str_eq,
  arith, if◌then◌else◌,
}
use flowctl.Prelude.Map.{
  StringMap, lookup, insert, merge, or_else, read, lookup-insert, lookup-merge,
}
use flowctl.Pipeline.Model.{Component}
use flowctl.Pipeline.Resolve.{
  Metadata, Resolved, resolved, is_registry_reference, env_name, translate_entries,
  translate_config, merge_env, add_flowctl_env, with_resolved, resolve_component,
}

lookup-merge_env :
    (name : String) (config_env explicit_env : StringMap String)
    → lookup name (merge_env config_env explicit_env)
      ≡ or_else (lookup name explicit_env) (lookup name config_env)
unfolding merge_env lookup
lookup-merge_env name config_env explicit_env =
    ground
      (arith, lookup-merge name (merge [] config_env) explicit_env, lookup-merge name [] config_env)

lookup-add_flowctl_env :
    (name component_id endpoint : String) (env : StringMap String)
    → lookup name (add_flowctl_env env component_id endpoint) ≡ (
        if str_eq "FLOWCTL_COMPONENT_ID" name
        then some component_id
        else if str_eq "FLOWCTL_ENDPOINT" name
        then some endpoint
        else if str_eq "ENABLE_FLOWCTL" name
        then some "true"
        else lookup name env)
unfolding add_flowctl_env
lookup-add_flowctl_env name component_id endpoint env =
    rw
      (
        lookup-insert "FLOWCTL_COMPONENT_ID" name component_id
            (insert "FLOWCTL_ENDPOINT" endpoint (insert "ENABLE_FLOWCTL" "true" env)),
        lookup-insert "FLOWCTL_ENDPOINT" name endpoint (insert "ENABLE_FLOWCTL" "true" env),
        lookup-insert "ENABLE_FLOWCTL" name "true" env,
      )
      refl

resolve-found :
    {S : Type 0} (to_upper : String → String) (endpoint : String)
    (resolve : String → S → S × Option Resolved) (c : Component) (s : S) (r : Resolved)
    → is_registry_reference c.type ≡ true
    → (resolve c.type s).1 ≡ some r
    → (resolve_component to_upper endpoint resolve c s).1
      ≡ resolved (with_resolved to_upper endpoint c r)
unfolding resolve_component
resolve-found to_upper endpoint resolve c s r reference found =
    rw (reference, found, resolve_component) refl

-- The variable of a config entry: the one that the metadata names for it, or else its key in upper case.
abbrev pub variable_of : (String → String) → StringMap String → String → String
variable_of to_upper mapping key =
    if str_eq (read key mapping) "" then to_upper key else read key mapping

-- What the config has for a variable: the value of its last entry that has it.
unfoldable pub config_value :
    (String → String) → StringMap String → String → StringMap String → Option String
config_value to_upper mapping name [] = none
config_value to_upper mapping name ((key, value) ∷ config) =
    or_else (config_value to_upper mapping name config)
      (if str_eq (variable_of to_upper mapping key) name then some value else none)

env_name-variable :
    (to_upper : String → String) (mapping : StringMap String) (key : String)
    → env_name to_upper mapping key ≡ variable_of to_upper mapping key
unfolding env_name
env_name-variable to_upper mapping key = elim (Option-cases (lookup key mapping)) [
  | inl absent ↦ rw (env_name, variable_of, read, absent) refl
  | inr (name, there) ↦ rw (env_name, variable_of, read, there) refl
]

lookup-translate_entries :
    (to_upper : String → String) (mapping env : StringMap String) (name : String)
    (config : StringMap String)
    → lookup name (translate_entries to_upper mapping env config)
      ≡ or_else (config_value to_upper mapping name config) (lookup name env)
unfolding translate_entries config_value
lookup-translate_entries to_upper mapping env name [] = refl
lookup-translate_entries to_upper mapping env name ((key, value) ∷ config) =
    let variable = env_name to_upper mapping key in
    ground (
      arith,
      lookup-translate_entries to_upper mapping (insert variable value env) name config,
      lookup-insert variable name value env,
      ap (λ v. str_eq v name) (env_name-variable to_upper mapping key),
      Option-cases (config_value to_upper mapping name config),
    )

lookup-translate_config :
    (name : String) (to_upper : String → String) (metadata : Metadata) (config : StringMap String)
    → lookup name (translate_config to_upper metadata config)
      ≡ config_value to_upper metadata.env_mapping name config
unfolding translate_config lookup
lookup-translate_config name to_upper metadata config =
    lookup-translate_entries to_upper metadata.env_mapping [] name config
    ∙ ground (arith, Option-cases (config_value to_upper metadata.env_mapping name config))

-- A component whose type is a registry reference that the resolver finds runs the resolved binary, with
-- flowctl's own three variables in its environment; any other variable has the value that the component
-- gives it explicitly, or else that of the last entry of its config for the variable, which is the one that
-- the metadata names for the entry's key, or else the key in upper case.
pub resolve_component-env :
    {S : Type 0} (to_upper : String → String) (endpoint : String)
    (resolve : String → S → S × Option Resolved) (c : Component) (s : S) (r : Resolved)
    (name : String)
    → is_registry_reference c.type ≡ true
    → (resolve c.type s).1 ≡ some r
    → (c' : Component) × ((resolve_component to_upper endpoint resolve c s).1 ≡ resolved c')
      × (c'.id ≡ c.id)
      × (c'.command ≡ r.binary_path ∷ [])
      × (lookup name c'.env ≡ (
          if str_eq "FLOWCTL_COMPONENT_ID" name
          then some c.id
          else if str_eq "FLOWCTL_ENDPOINT" name
          then some endpoint
          else if str_eq "ENABLE_FLOWCTL" name
          then some "true"
          else or_else
              (lookup name c.env)
              (config_value to_upper r.metadata.env_mapping name c.config)))
unfolding with_resolved
resolve_component-env to_upper endpoint resolve c s r name reference found = (
  with_resolved to_upper endpoint c r,
  resolve-found to_upper endpoint resolve c s r reference found,
  refl,
  refl,
  rw
      (
        lookup-add_flowctl_env name c.id endpoint
            (merge_env (translate_config to_upper r.metadata c.config) c.env),
        lookup-merge_env name (translate_config to_upper r.metadata c.config) c.env,
        lookup-translate_config name to_upper r.metadata c.config,
      )
      refl,
)
