-- ===== src/Runner/Enrich.antt =====
-- enrichRegisteredComponents of internal/runner/pipeline_runner.go. Its calls of the control plane are the
-- handlers; the connection and the call's deadline are left out.
pub mod Rounds
pub mod Types
use flowctl.Prelude.{
  ℕ, String, Bool, true, false, ◌&&◌, ◌||◌, not, Option, none, some, List, [], ◌∷◌, ◌++◌, map,
  str_eq, if◌then◌else◌,
}
use flowctl.Proto.Enums.{ComponentType, type_number}
use flowctl.Proto.Messages.{ComponentInfo, RegisterRequest}
use flowctl.Storage.Interface.{ServiceStorage}
use flowctl.ControlPlane.State.{Server, ok, err, fault}
use flowctl.ControlPlane.Registry.{register_component, get_component_status}
use flowctl.Pipeline.Model.{Component, Spec}
use flowctl.Pipeline.Loader.{is_empty}

unfoldable pub component_type_for_role : String → ComponentType
component_type_for_role role =
    if str_eq role "source"
    then ComponentType.source
    else if str_eq role "processor"
    then ComponentType.processor
    else if str_eq role "sink"
    then ComponentType.consumer
    else ComponentType.unspecified

abbrev pub is_unspecified : ComponentType → Bool
is_unspecified ComponentType.unspecified = true
is_unspecified _ = false

abbrev pub with_role : String → List Component → List (String × Component)
with_role role cs = map (λ c. (role, c)) cs

-- The components in the order of the loops, with their roles.
unfoldable pub enriched_components : Spec → List (String × Component)
enriched_components spec =
    with_role "source" spec.sources
    ++ (with_role "processor" spec.processors ++ with_role "sink" spec.sinks)

unfoldable pub needs_enrichment : ComponentInfo → Component → Bool
needs_enrichment info c =
    (is_empty info.input_event_types && not (is_empty c.input_event_types))
    || (is_empty info.output_event_types && not (is_empty c.output_event_types))

-- The types that a component has registered, or else those of the pipeline.
unfoldable pub types_or : List String → List String → List String
types_or own others = if is_empty own && not (is_empty others) then others else own

-- The metadata is copied into a new map.
unfoldable pub enriched_info : String → ComponentInfo → Component → ComponentInfo
unfolding component_type_for_role types_or
enriched_info role info c = record info {
  metadata = some (elim info.metadata [ none ↦ [] | some entries ↦ entries ]);
  input_event_types = types_or info.input_event_types c.input_event_types;
  output_event_types = types_or info.output_event_types c.output_event_types;
  type = if is_unspecified info.type then component_type_for_role role else info.type;
}

-- `now` is the time at which the registration of a component reaches the control plane.
module _ (st : ServiceStorage) (type_name : ComponentType → String) (now : Component → ℕ) where
  open st use {State}

  -- The registration with the new types. The result is the identifier of a component that is refused.
  unfoldable pub register_enriched :
      String → Component → ComponentInfo → Server State → Server State × Option String
  unfolding enriched_info register_component
  register_enriched role c info s =
      let request : RegisterRequest = record {
        component_id = c.id;
        component = some (enriched_info role info c);
      } in
      let (s', reply) = register_component st type_name (now c) (now c) request s in
      (s', elim reply [ ok r ↦ none | err x ↦ some c.id | fault ↦ some c.id ])

  unfoldable pub enrich_component : String → Component → Server State → Server State × Option String
  unfolding needs_enrichment register_enriched get_component_status
  enrich_component role c s = elim (get_component_status st c.id s) [
    | err x ↦ (s, none)
    | fault ↦ (s, none)
    | ok status ↦
        if needs_enrichment status.component c
        then register_enriched role c status.component s
        else (s, none)
  ]

  unfoldable pub enrich_components :
      List (String × Component) → Server State → Server State × Option String
  unfolding enrich_component
  enrich_components [] s = (s, none)
  enrich_components ((role, c) ∷ items) s =
      let (s', refused) = enrich_component role c s in
      elim refused [ some id ↦ (s', some id) | none ↦ enrich_components items s' ]

  unfoldable pub enrich_registered_components : Spec → Server State → Server State × Option String
  unfolding enrich_components enriched_components
  enrich_registered_components spec s = enrich_components (enriched_components spec) s
