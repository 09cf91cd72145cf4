-- ===== src/ControlPlane/Registry/Delivery.antt =====
-- The health of a component during a delivery run: what heartbeats (Heartbeat, mergeStringMaps) do to it.
use flowctl.Prelude.{
  ℕ, String, ◌≡◌, refl, ◌≢◌, ◌⊎◌, ◌∙◌, eq_refl, true, none, some, eq_iff, arith, [],
}
use flowctl.Prelude.Map.{StringMap, lookup, merge, or_else, read, lookup-insert, lookup-merge}
use flowctl.Proto.Enums.{HealthStatus}
use flowctl.Proto.Messages.{ComponentStatus, HeartbeatRequest}
use flowctl.Storage.Interface.{ServiceStorage}
use flowctl.ControlPlane.State.{Service, Server}
use flowctl.ControlPlane.Registry.{
  merge_string_maps, in_delivery, beat, beat_status, beat_health, heartbeat,
}

-- What a merge leaves under a key: the reported value if there is one, else the old one.
pub lookup-merge_string_maps :
    {V : Type 0} (k : String) (base updates : StringMap V)
    → lookup k (merge_string_maps base updates) ≡ or_else (lookup k updates) (lookup k base)
unfolding merge_string_maps lookup
lookup-merge_string_maps k base updates =
    ground (arith, lookup-merge k (merge [] base) updates, lookup-merge k [] base)

pub beat_health_kept :
    (metrics : StringMap String) (current reported : HealthStatus)
    → in_delivery metrics ≡ true
    → current ≢ HealthStatus.unknown
    → (reported ≡ HealthStatus.healthy) ⊎ (reported ≡ HealthStatus.unknown)
    → beat_health metrics current reported ≡ current
unfolding beat_health
beat_health_kept metrics current reported run known quiet = ground arith

pub in_delivery-merge :
    (base updates : StringMap String)
    → read "delivery_run_id" base ≢ ""
    → lookup "delivery_run_id" updates ≡ none
    → in_delivery (merge_string_maps base updates) ≡ true
in_delivery-merge base updates run kept = ground (
  arith,
  lookup-merge_string_maps "delivery_run_id" base updates,
  eq_iff (read "delivery_run_id" (merge_string_maps base updates)) "",
)

module _ (st : ServiceStorage) (s : Server (st.State)) (now : ℕ) (req : HeartbeatRequest) where
  -- While the metrics name a delivery run that the heartbeat does not rewrite, a heartbeat that
  -- reports healthy, or nothing, leaves the health as it is, unless it was unknown.
  heartbeat_keeps_health :
      (service : Service)
      → lookup req.service_id s.services ≡ some service
      → read "delivery_run_id" service.status.metrics ≢ ""
      → lookup "delivery_run_id" req.metrics ≡ none
      → service.status.status ≢ HealthStatus.unknown
      → (req.status ≡ HealthStatus.healthy) ⊎ (req.status ≡ HealthStatus.unknown)
      → (after : Service) × (lookup req.service_id (heartbeat st now req s).0.services ≡ some after)
        × (after.status.status ≡ service.status.status)
        × (after.last_seen ≡ now)
  unfolding heartbeat
  heartbeat_keeps_health service present run kept known reported = (
    beat now req service,
    rw (present, heartbeat)
        (lookup-insert req.service_id req.service_id (beat now req service) s.services
          ∙ rw (eq_refl req.service_id)),
    beat_health_kept (merge_string_maps service.status.metrics req.metrics) service.status.status
        req.status (in_delivery-merge service.status.metrics req.metrics run kept) known reported,
    refl,
  )

-- A second write of the same heartbeat into a component's status, as the code makes where the registry
-- and the in-memory storage share the status, changes nothing that is read of it.
beat_status_again :
    (now : ℕ) (req : HeartbeatRequest) (status : ComponentStatus) (k : String)
    → ((beat_status now req (beat_status now req status)).status
        ≡ (beat_status now req status).status)
      × ((beat_status now req (beat_status now req status)).last_heartbeat
          ≡ (beat_status now req status).last_heartbeat)
      × (lookup k (beat_status now req (beat_status now req status)).metrics
          ≡ lookup k (beat_status now req status).metrics)
unfolding beat_status beat_health
beat_status_again now req status k =
    let once = merge_string_maps status.metrics req.metrics in
    let twice : (j : String) → lookup j (merge_string_maps once req.metrics) ≡ lookup j once = λ j.
      ground (
        arith,
        lookup-merge_string_maps j once req.metrics,
        lookup-merge_string_maps j status.metrics req.metrics,
      ) in
    (ground (arith, twice "delivery_run_id"), refl, twice k)
