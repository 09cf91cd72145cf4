-- ===== src/Runner/Failure/Health.antt =====
-- The health of a component that failed a delivery.
use flowctl.Prelude.{
  ap, sym, refl, List, [], ◌∷◌, All, str_eq, eq_iff, false, Bool-cases, Option-cases, inl, inr, ℕ,
  String, ◌≡◌, ◌≢◌, ◌⊎◌, ◌∙◌, eq_refl, arith, none, some,
}
use flowctl.Prelude.Map.{lookup, lookup-insert, read}
use flowctl.Proto.Enums.{HealthStatus}
use flowctl.Proto.Messages.{HeartbeatRequest}
use flowctl.Storage.Interface.{ServiceStorage}
use flowctl.ControlPlane.State.{Service, Server}
use flowctl.ControlPlane.Registry.{beat, beat_status, beat_health, heartbeat, merge_string_maps}
use flowctl.ControlPlane.Registry.Delivery.{
  beat_health_kept, in_delivery-merge, lookup-merge_string_maps,
}
use flowctl.Runner.Stream.{Code, DeliveryError}
use flowctl.Runner.Failure.{failed_component, failure_request, mark_delivery_failure}

heartbeat-lookup :
    (st : ServiceStorage) (s : Server (st.State)) (now : ℕ) (req : HeartbeatRequest)
    (service : Service)
    → lookup req.service_id s.services ≡ some service
    → lookup req.service_id (heartbeat st now req s).0.services ≡ some (beat now req service)
unfolding heartbeat
heartbeat-lookup st s now req service known =
    rw (known, heartbeat)
      (lookup-insert req.service_id req.service_id (beat now req service) s.services
        ∙ rw (eq_refl req.service_id))

-- A heartbeat, of any component, that reports healthy, or nothing, and names no delivery run.
abbrev pub IsRoutine : ℕ × HeartbeatRequest → Type 0
IsRoutine (now, req) =
    (lookup "delivery_run_id" req.metrics ≡ none)
    × ((req.status ≡ HealthStatus.healthy) ⊎ (req.status ≡ HealthStatus.unknown))

abbrev pub heartbeats :
    (st : ServiceStorage) → List (ℕ × HeartbeatRequest) → Server (st.State) → Server (st.State)
heartbeats st [] s = s
heartbeats st ((now, req) ∷ beats) s = heartbeats st beats (heartbeat st now req s).0

-- The component is unhealthy, and its metrics name a delivery run.
abbrev IsMarked : Service → Type 0
IsMarked service =
    (service.status.status ≡ HealthStatus.unhealthy)
    × (read "delivery_run_id" service.status.metrics ≢ "")

beat-IsMarked :
    (now : ℕ) (req : HeartbeatRequest) (service : Service)
    → IsRoutine (now, req)
    → IsMarked service
    → IsMarked (beat now req service)
unfolding beat beat_status
beat-IsMarked now req service (quiet, reported) (sick, run) = (
  beat_health_kept (merge_string_maps service.status.metrics req.metrics) service.status.status
        req.status (in_delivery-merge service.status.metrics req.metrics run quiet)
        (λ e. ground (arith, e, sick)) reported
      ∙ sick,
  ground (
    arith,
    run,
    quiet,
    lookup-merge_string_maps "delivery_run_id" service.status.metrics req.metrics,
  ),
)

module _ (st : ServiceStorage) where
  other-lookup :
      (s : Server (st.State)) (now : ℕ) (req : HeartbeatRequest) (id : String)
      → str_eq req.service_id id ≡ false
      → lookup id (heartbeat st now req s).0.services ≡ lookup id s.services
  unfolding heartbeat
  other-lookup s now req id other = elim (Option-cases (lookup req.service_id s.services)) [
    | inl absent ↦ rw (absent, heartbeat) refl
    | inr (service, present) ↦
        rw (present, heartbeat)
          (lookup-insert req.service_id id (beat now req service) s.services ∙ rw other refl)
  ]

  heartbeats-IsMarked :
      (beats : List (ℕ × HeartbeatRequest)) (s : Server (st.State)) (id : String)
      (service : Service)
      → All IsRoutine beats
      → lookup id s.services ≡ some service
      → IsMarked service
      → (after : Service) × (lookup id (heartbeats st beats s).services ≡ some after)
        × IsMarked after
  heartbeats-IsMarked [] s id service routine here marked = (service, here, marked)
  heartbeats-IsMarked ((now, req) ∷ beats) s id service (first, routine) here marked =
      elim (Bool-cases (str_eq req.service_id id)) [
        | inl same ↦
            let e = (eq_iff req.service_id id).0 same in
            let found = ap (λ k. lookup k s.services) e ∙ here in
            heartbeats-IsMarked beats (heartbeat st now req s).0 id (beat now req service) routine
              (sym (ap (λ k. lookup k (heartbeat st now req s).0.services) e)
                ∙ heartbeat-lookup st s now req service found)
              (beat-IsMarked now req service first marked)
        | inr other ↦
            heartbeats-IsMarked beats (heartbeat st now req s).0 id service routine
              (other-lookup s now req id other ∙ here) marked
      ]

module _ (st : ServiceStorage) (code_name : Code → String) (run_id : String) (e : DeliveryError)
    (s : Server (st.State)) (now : ℕ) (service : Service) where
  marked_service :
      lookup (failed_component e) s.services ≡ some service
      → lookup (failed_component e) (mark_delivery_failure code_name st now run_id e s).services
        ≡ some (beat now (failure_request code_name run_id e) service)
  unfolding mark_delivery_failure
  marked_service known =
      heartbeat-lookup st s now (failure_request code_name run_id e) service known

  marked_health :
      (beat now (failure_request code_name run_id e) service).status.status ≡ HealthStatus.unhealthy
  unfolding beat beat_status beat_health failure_request
  marked_health = ground arith

  marked_run :
      run_id ≢ ""
      → read "delivery_run_id"
          (beat now (failure_request code_name run_id e) service).status.metrics
        ≢ ""
  unfolding beat beat_status failure_request lookup
  marked_run named = ground (
    arith,
    named,
    lookup-merge_string_maps "delivery_run_id" service.status.metrics
        (failure_request code_name run_id e).metrics,
  )

  -- The component to which a failed delivery is put down is unhealthy after any sequence of heartbeats, of
  -- any components, that report healthy, or nothing, and name no delivery run, if the run has an
  -- identifier and the component was registered.
  pub failure_stays_unhealthy :
      (beats : List (ℕ × HeartbeatRequest))
      → lookup (failed_component e) s.services ≡ some service
      → run_id ≢ ""
      → All IsRoutine beats
      → let marked = mark_delivery_failure code_name st now run_id e s in
        (after : Service) × (lookup (failed_component e) (heartbeats st beats marked).services
          ≡ some after)
        × (after.status.status ≡ HealthStatus.unhealthy)
  failure_stays_unhealthy beats known named routine =
      let (after, found, marked) =
        heartbeats-IsMarked st beats (mark_delivery_failure code_name st now run_id e s)
          (failed_component e) (beat now (failure_request code_name run_id e) service) routine
          (marked_service known) (marked_health, marked_run named) in
      (after, found, marked.0)
