-- ===== src/ControlPlane/Registry.antt =====
-- The component registry: RegisterComponent, Heartbeat, GetComponentStatus, ListComponents,
-- UnregisterComponent and DiscoverComponents.
pub mod Status
pub mod Delivery
use Prim.Native.String
use flowctl.Prelude.{
  ℕ, String, Bool, true, false, not, ◌&&◌, ◌||◌, Option, none, some, List, [], ◌∷◌, ◌++◌, map,
  str_eq, if◌then◌else◌, any, all, select,
}
use flowctl.Prelude.Map.{StringMap, lookup, insert, erase, merge, read}
use flowctl.Prelude.Decimal.{show_ℕ}
use flowctl.Proto.Enums.{HealthStatus, ComponentType, health_eq, type_eq}
use flowctl.Proto.Messages.{
  ComponentInfo, ComponentStatus, RegisterRequest, RegisterResponse, HeartbeatRequest,
  ListComponentsRequest, DiscoveryRequest,
}
use flowctl.Storage.Types.{ServiceInfo, Updater}
use flowctl.Storage.Interface.{ServiceStorage}
use flowctl.ControlPlane.State.{Service, Server, Reply, ok, err, fault, service_missing}

-- A storage call whose error is logged and otherwise ignored.
abbrev pub persist : {S E : Type 0} → (S → S × E) → Option S → Option S
persist op none = none
persist op (some s) = some (op s).0

-- mergeStringMaps: the updates over a copy of the base.
unfoldable pub merge_string_maps : {V : Type 0} → StringMap V → StringMap V → StringMap V
merge_string_maps base updates = merge (merge [] base) updates

-- The identifier of a registration: that of the request, else that of the component, else one made
-- of the type's name and the clock.
unfoldable pub assigned_id : (ComponentType → String) → ℕ → String → ComponentInfo → String
unfolding show_ℕ
assigned_id type_name clock requested info =
    if not (str_eq requested "")
    then requested
    else if not (str_eq info.id "")
    then info.id
    else String.◌++◌ (type_name info.type) (String.◌++◌ "-" (show_ℕ clock))

-- The record of a component registered at `now`.
unfoldable pub new_service : ℕ → ComponentInfo → Service
new_service now info = record {
  info = info;
  status = record {
    component = info;
    status = HealthStatus.healthy;
    last_heartbeat = now;
    metrics = [];
    registered_at = now;
  };
  last_seen = now;
}

abbrev pub stored : Service → ServiceInfo
stored service = record {
  info = service.info;
  status = service.status;
  last_seen = service.last_seen;
}

abbrev pub topic : String → String
topic event_type = String.◌++◌ event_type ".v1"

unfoldable pub topic_names : ComponentInfo → List String
topic_names info = elim info.type [
  | ComponentType.source ↦ map topic info.output_event_types
  | ComponentType.processor ↦ map topic info.output_event_types
  | _ ↦ []
]

-- The metrics hold a run on whose delivery the component's health depends.
abbrev pub in_delivery : StringMap String → Bool
in_delivery metrics = not (str_eq (read "delivery_run_id" metrics) "")

-- The health after a heartbeat that reports `reported`, where `metrics` are the merged ones.
unfoldable pub beat_health : StringMap String → HealthStatus → HealthStatus → HealthStatus
beat_health metrics current reported =
    if not (health_eq reported HealthStatus.unknown)
      && not (in_delivery metrics && health_eq reported HealthStatus.healthy)
    then reported
    else if health_eq current HealthStatus.unknown
    then HealthStatus.healthy
    else current

unfoldable pub beat_status : ℕ → HeartbeatRequest → ComponentStatus → ComponentStatus
unfolding beat_health merge_string_maps
beat_status now req status =
    let metrics = merge_string_maps status.metrics req.metrics in
    record status {
      metrics = metrics;
      status = beat_health metrics status.status req.status;
      last_heartbeat = now;
    }

unfoldable pub beat : ℕ → HeartbeatRequest → Service → Service
unfolding beat_status
beat now req service = record service {
  last_seen = now;
  status = beat_status now req service.status;
}

-- The updater that Heartbeat hands to the storage.
unfoldable pub beat_stored : ℕ → HeartbeatRequest → Updater ServiceInfo
unfolding beat_status
beat_stored now req x = (record x { last_seen = now; status = beat_status now req x.status }, none)

-- The filters of ListComponents.
unfoldable pub listed : ListComponentsRequest → Service → Bool
listed req service =
    (type_eq req.type_filter ComponentType.unspecified || type_eq service.info.type req.type_filter)
    && (req.include_unhealthy || health_eq service.status.status HealthStatus.healthy)

abbrev is_empty {ℓ} : {A : Type ℓ} → List A → Bool
is_empty [] = true
is_empty (x ∷ xs) = false

-- A nil metadata map fails every filter.
abbrev metadata_has : Option (StringMap String) → String × String → Bool
metadata_has none (key, value) = false
metadata_has (some metadata) (key, value) = str_eq (read key metadata) value

-- The filters of DiscoverComponents: type, any of the event types, all of the metadata.
unfoldable pub discovered : DiscoveryRequest → ComponentInfo → Bool
discovered req info =
    (type_eq req.type ComponentType.unspecified || type_eq info.type req.type)
    && (is_empty req.event_types
        || any
            (λ requested.
              any (λ offered. str_eq offered requested)
                (info.input_event_types ++ info.output_event_types))
            req.event_types)
    && all (metadata_has info.metadata) req.metadata_filters

module _ (st : ServiceStorage) where
  open st use {State}

  unfoldable pub register_component :
      (ComponentType → String)
      → ℕ
      → ℕ
      → RegisterRequest
      → Server State
      → Server State × Reply RegisterResponse
  unfolding assigned_id new_service topic_names
  register_component type_name clock now req s = elim req.component [
    | none ↦ (s, fault)
    | some info ↦
        let id = assigned_id type_name clock req.component_id info in
        let service = new_service now info in
        (
          record s {
            services = insert id service s.services;
            storage = persist (st.register_service (stored service)) s.storage;
          },
          ok (record {
            service_id = id;
            assigned_topics = topic_names info;
            connection_info = ("control_plane_endpoint", "localhost:8080") ∷ [];
          }),
        )
  ]

  unfoldable pub heartbeat : ℕ → HeartbeatRequest → Server State → Server State × Reply (Unit {0})
  unfolding beat beat_stored
  heartbeat now req s = elim (lookup req.service_id s.services) [
    | none ↦ (s, err (service_missing req.service_id))
    | some service ↦ (
      record s {
        services = insert req.service_id (beat now req service) s.services;
        storage = persist (st.update_service req.service_id (beat_stored now req)) s.storage;
      },
      ok tt,
    )
  ]

  unfoldable pub get_component_status : String → Server State → Reply ComponentStatus
  get_component_status id s = elim (lookup id s.services) [
    | none ↦ err (service_missing id)
    | some service ↦ ok service.status
  ]

  -- Go visits the map in no fixed order, given as `visit`.
  unfoldable pub list_components :
      (StringMap Service → StringMap Service)
      → ListComponentsRequest
      → Server State
      → Reply (List ComponentStatus)
  unfolding listed
  list_components visit req s =
      ok (map (λ e. e.1.status) (select (λ e. listed req e.1) (visit s.services)))

  unfoldable pub unregister_component : String → Server State → Server State × Reply (Unit {0})
  unregister_component id s = (
    record s {
      services = erase id s.services;
      storage = persist (st.unregister_service id) s.storage;
    },
    ok tt,
  )

  unfoldable pub discover_components :
      (StringMap Service → StringMap Service)
      → DiscoveryRequest
      → Server State
      → Reply (List ComponentInfo)
  unfolding discovered
  discover_components visit req s =
      ok (map (λ e. e.1.info) (select (λ e. discovered req e.1.info) (visit s.services)))
