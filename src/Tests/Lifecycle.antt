-- ===== src/Tests/Lifecycle.antt =====
-- Examples of a run's cleanup and of the embedded control plane.
use flowctl.Prelude.{
  ℕ, ◌≡◌, ◌==◌, refl, true, false, none, some, [], ◌∷◌, arith, All, length, if◌then◌else◌,
}
use flowctl.Proto.Enums.{HealthStatus}
use flowctl.Proto.Messages.{ComponentStatus}
use flowctl.Storage.Memory.{MemoryStorage}
use flowctl.Runner.Group.{Wake}
use flowctl.Runner.Lifecycle.{Outcomes, run as run_pipeline}
use flowctl.Runner.Lifecycle.Cleanup.{CleansUp, run-CleansUp}
use flowctl.ControlPlane.Registry.{register_component}
use flowctl.ControlPlane.Embedded.{
  EmbeddedControlPlane, healthy_count, unhealthy_components, is_pipeline_healthy,
  wait_for_component,
}
use flowctl.ControlPlane.Embedded.Unseen.{component_ids, health_views}
use flowctl.ControlPlane.Embedded.Awaited.{registered_is_awaited}
use flowctl.Tests.Data.{memory, type_name, server, ledger, entry, registration}

-- A run that a signal stops.
abbrev signalled : Outcomes
signalled = record {
  embedded = true;
  registration_only = false;
  plane_starts = true;
  endpoint_syncs = true;
  plane_ready = true;
  components_start = true;
  components_register = true;
  wire = none;
  streams = none;
  wake = Wake.signal;
  stopped = true;
  delivery = none;
  records = λ status. true;
}

run-CleansUp_example : CleansUp (λ status. true) false (run_pipeline signalled)
run-CleansUp_example = run-CleansUp signalled (λ e. refl)

abbrev plane : EmbeddedControlPlane MemoryStorage
plane = record {
  control_plane = some server;
  address = "127.0.0.1";
  port = 8080;
  started = true;
  stopped = false;
  config = record { heartbeat_ttl = 0; janitor_interval = 0; storage = none };
}

abbrev number : HealthStatus → ℕ
number h = 1

health_views_example :
    All (λ (c : ComponentStatus). c.status ≡ HealthStatus.healthy) (entry.status ∷ [])
    × (healthy_count number (entry.status ∷ [])
        ≡ (if number HealthStatus.healthy == 2 then length (entry.status ∷ []) else 0))
    × (unhealthy_components number (entry.status ∷ [])
        ≡ (if number HealthStatus.healthy == 2 then [] else component_ids (entry.status ∷ [])))
    × (is_pipeline_healthy number (some (entry.status ∷ []))
        ≡ (if number HealthStatus.healthy == 1 then true else length (entry.status ∷ []) == 0))
unfolding flowctl.ControlPlane.Embedded.get_service_list
    flowctl.ControlPlane.Registry.list_components flowctl.ControlPlane.Registry.listed
health_views_example = health_views number memory (λ m. m) plane (entry.status ∷ []) refl

registered_is_awaited_example :
    wait_for_component memory
      (λ m. m)
      "ledger"
      100
      ((
        3,
        record plane {
          control_plane = some (register_component memory type_name 1 200 registration server).0;
        },
      )
        ∷ [])
    ≡ some none
registered_is_awaited_example =
    registered_is_awaited memory (λ m. m) plane server type_name 1 200 registration ledger 3 100 []
      (λ m id. refl) refl refl (omega arith)
