-- ===== src/Pipeline/Resolve.antt =====
-- The resolving of a component reference: resolveComponent of internal/runner/loader.go, with
-- internal/components/translator.go. The resolver, which downloads a component, and strings.ToUpper are
-- parameters. A `config` is the list in the order in which Go visits the map.
pub mod Environment
use flowctl.Prelude.{
  String, Bool, true, false, ◌&&◌, ◌||◌, not, Option, none, some, List, [], ◌∷◌, str_eq,
  if◌then◌else◌,
}
use flowctl.Prelude.Map.{StringMap, lookup, insert, merge}
use flowctl.Pipeline.Model.{Component, Spec}
use flowctl.Pipeline.Loader.{is_empty}
use text.Mathlib.Text.{starts_with}
use Prim.Native.String

unfoldable pub contains : String → String → Bool
contains String.[] part = starts_with String.[] part
contains (String.◌∷◌ c s) part =
    let rest = contains s part in starts_with (String.◌∷◌ c s) part || rest

unfoldable pub is_registry_reference : String → Bool
unfolding contains
is_registry_reference type =
    not (str_eq type "") && (not (starts_with type "/") && contains type "@")

-- The parts of a component's metadata that are read; a nil mapping has no entry.
pub record Metadata : Type 0 where
  pub env_mapping : StringMap String
  pub consumes : List String
  pub produces : List String

pub record Resolved : Type 0 where
  pub binary_path : String
  pub metadata : Metadata

pub data Resolution : Type 0 where
  resolved : Component → Resolution
  unresolved : String → Resolution

unfoldable pub env_name : (String → String) → StringMap String → String → String
unfolding lookup
env_name to_upper mapping key = elim (lookup key mapping) [
  | none ↦ to_upper key
  | some name ↦ if str_eq name "" then to_upper key else name
]

-- The loop of TranslateConfig, with what it has written.
unfoldable pub translate_entries :
    (String → String) → StringMap String → StringMap String → StringMap String → StringMap String
unfolding env_name insert
translate_entries to_upper mapping env [] = env
translate_entries to_upper mapping env ((key, value) ∷ config) =
    translate_entries to_upper mapping (insert (env_name to_upper mapping key) value env) config

unfoldable pub translate_config : (String → String) → Metadata → StringMap String → StringMap String
unfolding translate_entries
translate_config to_upper metadata config =
    translate_entries to_upper metadata.env_mapping [] config

unfoldable pub merge_env : StringMap String → StringMap String → StringMap String
unfolding merge
merge_env config_env explicit_env = merge (merge [] config_env) explicit_env

unfoldable pub add_flowctl_env : StringMap String → String → String → StringMap String
unfolding insert
add_flowctl_env env component_id endpoint =
    insert "FLOWCTL_COMPONENT_ID" component_id
      (insert "FLOWCTL_ENDPOINT" endpoint (insert "ENABLE_FLOWCTL" "true" env))

abbrev or_declared : List String → List String → List String
or_declared own declared = if is_empty own then declared else own

module _ (to_upper : String → String) (endpoint : String) where
  -- What a resolved reference makes of its component.
  unfoldable pub with_resolved : Component → Resolved → Component
  unfolding translate_config merge_env add_flowctl_env
  with_resolved c r = record c {
    command = r.binary_path ∷ [];
    input_event_types = or_declared c.input_event_types r.metadata.consumes;
    output_event_types = or_declared c.output_event_types r.metadata.produces;
    env =
        add_flowctl_env (merge_env (translate_config to_upper r.metadata c.config) c.env) c.id
          endpoint;
  }

  module _ {S : Type 0} (resolve : String → S → S × (Option Resolved)) where
    -- A component, and the resolver afterwards.
    unfoldable pub resolve_component : Component → S → S × Resolution
    unfolding is_registry_reference with_resolved
    resolve_component c s =
        if not (is_registry_reference c.type)
        then (s, resolved c)
        else let (s', found) = resolve c.type s in
          elim found [ none ↦ (s', unresolved c.id) | some r ↦ (s', resolved (with_resolved c r)) ]
