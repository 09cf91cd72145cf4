-- ===== src/ControlPlane/Registry/Status.antt =====
-- What a client reads of a component after a registration, a heartbeat or an unregistration.
use flowctl.Prelude.{
  ℕ, String, ◌≡◌, refl, Option, none, some, str_eq, eq_iff, arith, if◌then◌else◌, [], ◌∷◌,
}
use flowctl.Prelude.Map.{lookup, lookup-insert, lookup-erase}
use flowctl.Proto.Enums.{HealthStatus, ComponentType}
use flowctl.Proto.Messages.{ComponentInfo, ComponentStatus, RegisterRequest, HeartbeatRequest}
use flowctl.Storage.Interface.{ServiceStorage}
use flowctl.ControlPlane.State.{Service, Server, Reply, ok, err, service_missing}
use flowctl.ControlPlane.Registry.{
  assigned_id, new_service, topic_names, merge_string_maps, beat, beat_health, register_component,
  heartbeat, get_component_status, unregister_component,
}

-- The answer to a status request, from the entry of the registry.
abbrev pub status_of : String → Option Service → Reply ComponentStatus
status_of id none = err (service_missing id)
status_of id (some service) = ok service.status

module _ (st : ServiceStorage) (s : Server (st.State)) where
  status-lookup : (j : String) → get_component_status st j s ≡ status_of j (lookup j s.services)
  unfolding get_component_status
  status-lookup j = ground arith

module _ (st : ServiceStorage) (s : Server (st.State)) (j : String) where
  -- A registration makes the component readable under its assigned identifier, as healthy, seen at
  -- the time of the call and with no metrics, and answers that identifier; what is read under any
  -- other identifier stays.
  status-register :
      (type_name : ComponentType → String) (clock now : ℕ) (req : RegisterRequest)
      (info : ComponentInfo)
      → req.component ≡ some info
      → (get_component_status st j (register_component st type_name clock now req s).0 ≡ (
          if str_eq (assigned_id type_name clock req.component_id info) j
          then ok (record {
            component = info;
            status = HealthStatus.healthy;
            last_heartbeat = now;
            metrics = [];
            registered_at = now;
          })
          else get_component_status st j s))
        × ((register_component st type_name clock now req s).1
            ≡ ok (record {
              service_id = assigned_id type_name clock req.component_id info;
              assigned_topics = topic_names info;
              connection_info = ("control_plane_endpoint", "localhost:8080") ∷ [];
            }))
  unfolding register_component get_component_status new_service
  status-register type_name clock now req info e =
      let id = assigned_id type_name clock req.component_id info in
      rw (e, register_component)
        (ground (arith, eq_iff id j, lookup-insert id j (new_service now info) s.services), refl)

  -- A heartbeat for a known service is accepted: the service is seen now, its metrics are the old ones
  -- with the reported ones written over them, its health follows `beat_health`, and what is read
  -- under any other identifier stays.
  status-heartbeat :
      (now : ℕ) (req : HeartbeatRequest) (service : Service)
      → lookup req.service_id s.services ≡ some service
      → (get_component_status st j (heartbeat st now req s).0 ≡ (
          if str_eq req.service_id j
          then ok (record (service.status) {
            metrics = merge_string_maps service.status.metrics req.metrics;
            status =
                beat_health
                  (merge_string_maps service.status.metrics req.metrics)
                  service.status.status
                  req.status;
            last_heartbeat = now;
          })
          else get_component_status st j s))
        × ((heartbeat st now req s).1 ≡ ok tt)
  unfolding heartbeat get_component_status
  status-heartbeat now req service present =
      rw (present, heartbeat)
        (
          ground (
            arith,
            eq_iff req.service_id j,
            lookup-insert req.service_id j (beat now req service) s.services,
          ),
          refl,
        )

  -- After an unregistration the identifier is unknown, and what is read under any other one stays.
  status-unregister :
      (id : String)
      → get_component_status st j (unregister_component st id s).0
        ≡ (if str_eq id j then err (service_missing j) else get_component_status st j s)
  unfolding unregister_component get_component_status
  status-unregister id = ground (arith, eq_iff id j, lookup-erase id j s.services)
