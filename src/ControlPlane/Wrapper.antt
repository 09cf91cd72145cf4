-- ===== src/ControlPlane/Wrapper.antt =====
-- ControlPlaneWrapper: the flowctlpb service over the server. Its run and chunk methods are those of
-- the server; GetServiceStatus answers an error.
use flowctl.Prelude.{ℕ, String, some, List, [], ◌∷◌, map, str_eq, if◌then◌else◌, true}
use flowctl.Prelude.Map.{StringMap, read}
use flowctl.Proto.Enums.{HealthStatus, ComponentType, ServiceType}
use flowctl.Proto.Messages.{
  ComponentStatus, RegisterRequest, HeartbeatRequest, ListComponentsRequest, ServiceInfo,
  ServiceHeartbeat, ServiceStatus,
}
use flowctl.Storage.Interface.{ServiceStorage}
use flowctl.ControlPlane.State.{Service, Server, Reply, ok, err, fault, not_implemented}
use flowctl.ControlPlane.Registry.{register_component, heartbeat, list_components}

unfoldable pub convert_to_v1_component_type : ServiceType → ComponentType
convert_to_v1_component_type ServiceType.source = ComponentType.source
convert_to_v1_component_type ServiceType.processor = ComponentType.processor
convert_to_v1_component_type ServiceType.sink = ComponentType.consumer
convert_to_v1_component_type _ = ComponentType.unspecified

unfoldable pub convert_from_v1_service_type : ComponentType → ServiceType
convert_from_v1_service_type ComponentType.source = ServiceType.source
convert_from_v1_service_type ComponentType.processor = ServiceType.processor
convert_from_v1_service_type ComponentType.consumer = ServiceType.sink
convert_from_v1_service_type _ = ServiceType.unspecified

unfoldable pub first_non_empty : List String → String
first_non_empty [] = ""
first_non_empty (v ∷ vs) = let rest = first_non_empty vs in if str_eq v "" then rest else v

-- float64MapToStringMap, with the formatting of a float given.
unfoldable pub float64_map_to_string_map : (ℕ → String) → StringMap ℕ → StringMap String
float64_map_to_string_map format [] = []
float64_map_to_string_map format ((k, v) ∷ m) = (k, format v) ∷ float64_map_to_string_map format m

abbrev component_id_of : ServiceInfo → String
component_id_of req = if str_eq req.component_id "" then req.service_id else req.component_id

-- The first of the metadata that names the component, by the keys of each kind of component.
abbrev described : StringMap String → List String → String
described metadata keys = first_non_empty (map (λ k. read k metadata) keys)

unfoldable pub register_request : ServiceInfo → RegisterRequest
unfolding convert_to_v1_component_type first_non_empty
register_request req = record {
  component_id = req.service_id;
  component = some (record {
    id = component_id_of req;
    type = convert_to_v1_component_type req.service_type;
    name = described req.metadata ("processor_name" ∷ "source_name" ∷ "sink_name" ∷ "name" ∷ []);
    version =
        described req.metadata
          ("processor_version" ∷ "source_version" ∷ "sink_version" ∷ "version" ∷ []);
    description =
        described req.metadata (
          "processor_description" ∷ "source_description" ∷ "sink_description" ∷ "description" ∷ []);
    endpoint = req.health_endpoint;
    input_event_types = req.input_event_types;
    output_event_types = req.output_event_types;
    metadata = some req.metadata;
  });
}

-- The v1 heartbeat reports no status.
unfoldable pub heartbeat_request : (ℕ → String) → ServiceHeartbeat → HeartbeatRequest
unfolding float64_map_to_string_map
heartbeat_request format req = record {
  service_id = req.service_id;
  status = HealthStatus.unknown;
  metrics = float64_map_to_string_map format req.metrics;
}

unfoldable pub service_status : ComponentStatus → ServiceStatus
unfolding convert_from_v1_service_type
service_status c = record {
  service_id = c.component.id;
  component_id = c.component.id;
  service_type = convert_from_v1_service_type c.component.type;
}

abbrev answer {ℓ κ} : {A : Type ℓ} {B : Type κ} → (A → B) → Reply A → Reply B
answer f (ok a) = ok (f a)
answer f (err e) = err e
answer f fault = fault

module _ (st : ServiceStorage) where
  open st use {State}

  -- The acknowledgement carries the service's identifier.
  unfoldable pub register :
      (ComponentType → String) → ℕ → ℕ → ServiceInfo → Server State → Server State × Reply String
  unfolding register_request
  register type_name clock now req s =
      let (s', reply) = register_component st type_name clock now (register_request req) s in
      (s', answer (λ r. r.service_id) reply)

  unfoldable pub wrapper_heartbeat :
      (ℕ → String) → ℕ → ServiceHeartbeat → Server State → Server State × Reply (Unit {0})
  unfolding heartbeat_request
  wrapper_heartbeat format now req s = heartbeat st now (heartbeat_request format req) s

  unfoldable pub get_service_status : ServiceInfo → Server State → Reply ServiceStatus
  get_service_status req s = err not_implemented

  abbrev all_components : ListComponentsRequest
  all_components = record { type_filter = ComponentType.unspecified; include_unhealthy = true }

  unfoldable pub list_services :
      (StringMap Service → StringMap Service) → Server State → Reply (List ServiceStatus)
  unfolding service_status
  list_services visit s = answer (map service_status) (list_components st visit all_components s)
