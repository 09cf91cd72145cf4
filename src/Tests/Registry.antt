-- ===== src/Tests/Registry.antt =====
-- Examples for the registry, the janitor and the storage that mirrors the registry.
use flowctl.Prelude.{true, map, ◌≡◌, refl, none, some, arith, eq_iff, str_eq, String, if◌then◌else◌}
use flowctl.Prelude.Map.{lookup}
use flowctl.Storage.Interface.{IsReliable}
use flowctl.Storage.Types
use flowctl.Storage.Memory.{MemoryStorage}
use flowctl.Storage.Memory.Reliable.{memory_storage-IsReliable, memory_views}
use flowctl.ControlPlane.State.{Server, new_control_plane_server}
use flowctl.ControlPlane.Registry.{
  register_component, heartbeat, unregister_component, assigned_id, stored,
}
use flowctl.ControlPlane.Janitor.{check_service_health, start}
use flowctl.ControlPlane.Wrapper.{register}
use flowctl.ControlPlane.Mirror.{IsMirrored, stored_entry}
use flowctl.ControlPlane.Mirror.Rounds.{registers, beats, checks, here, next, Reach-IsMirrored}
use flowctl.ControlPlane.Mirror.Restart.{restart-IsMirrored}
use flowctl.ControlPlane.Mirror.Leak.{wrapper_leak}
use flowctl.Tests.Data.{
  memory, reliable, type_name, ledger, entry, disk, server, registration, healthy_beat, wrapped,
}

memory_storage-IsReliable_example :
    (rel : IsReliable memory) × ((id : String) → rel.accepts id ≡ true)
    × ((s : MemoryStorage) (id : String) → rel.service s id ≡ lookup id s.services)
    × ((s : MemoryStorage) (id : String) → rel.run s id ≡ lookup id s.pipeline_runs)
    × ((s : MemoryStorage) (id : String) → rel.chunk s id ≡ lookup id s.chunk_runs)
    × ((s : MemoryStorage)
        → memory.list_services s
          ≡ Types.ok (map (λ (e : String × Types.ServiceInfo). e.1) s.services))
memory_storage-IsReliable_example = memory_storage-IsReliable (λ m. m) (λ m. m) (λ m. m)

same_entry :
    (j : String)
    → (if str_eq "ledger" j then some (stored entry) else none)
      ≡ stored_entry (if str_eq "ledger" j then some entry else none)
same_entry j = ground arith

-- The server and its storage hold the same service.
server-IsMirrored : IsMirrored memory reliable server
unfolding lookup memory_views
server-IsMirrored = record { unique = (refl, tt); same = same_entry }

abbrev registered : Server MemoryStorage
registered = (register_component memory type_name 1 120 registration server).0

Reach-IsMirrored_example :
    IsMirrored memory reliable
      (check_service_health memory 300 (heartbeat memory 130 healthy_beat registered).0)
unfolding assigned_id memory_views
Reach-IsMirrored_example =
    Reach-IsMirrored memory reliable
      (next
        (next (next here (registers type_name 1 120 registration ledger refl refl refl refl))
          (beats 130 healthy_beat refl))
        (checks 300 refl))
      server-IsMirrored

wrapper_leak_example :
    (lookup "svc"
        (unregister_component memory "svc"
          (register memory type_name 1 200 wrapped server).0).0.services
      ≡ none)
    × ((d : MemoryStorage) × (x : Types.ServiceInfo) × ((unregister_component memory "svc"
            (register memory type_name 1 200 wrapped server).0).0.storage
          ≡ some d)
        × (reliable.service d "comp" ≡ some x))
unfolding memory_views
wrapper_leak_example =
    wrapper_leak memory reliable type_name 1 200 wrapped server disk refl refl
      (λ e. ground (arith, eq_iff "comp" "")) (λ e. ground (arith, eq_iff "comp" "svc"))

restart-IsMirrored_example :
    IsMirrored memory reliable (start memory (new_control_plane_server (some disk))).0
unfolding lookup
restart-IsMirrored_example =
    restart-IsMirrored (λ m. m) (λ m. m) (λ m. m) disk (refl, tt) (refl, tt) (λ j. refl)
