-- ===== src/ControlPlane/Mirror/Restart.antt =====
-- Start (with loadServices) of a new server over an in-memory storage that holds services.
use flowctl.Prelude.{
  String, ◌≡◌, refl, sym, ap, ◌∙◌, Option, none, some, List, [], ◌∷◌, eq_iff, arith,
}
use flowctl.Prelude.Map.{
  StringMap, lookup, insert, lookup-insert, HasUniqueKeys, insert-HasUniqueKeys, or_else,
}
use flowctl.Proto.Messages.{PipelineRun, ChunkRun}
use flowctl.Storage.Types.{ServiceInfo}
use flowctl.Storage.Memory.{MemoryStorage, values, list_services}
use flowctl.Storage.Memory.Reliable.{memory_storage, memory_views}
use flowctl.ControlPlane.State.{Service, new_control_plane_server}
use flowctl.ControlPlane.Janitor.{loaded, load_services, start}
use flowctl.ControlPlane.Mirror.{IsMirrored, stored_entry}

-- Every stored service stands under its component's identifier.
abbrev pub IsKeyed : StringMap ServiceInfo → Type 0
IsKeyed [] = Unit
IsKeyed ((k, x) ∷ m) = (x.info.id ≡ k) × IsKeyed m

abbrev loaded_entry : Option ServiceInfo → Option Service
loaded_entry none = none
loaded_entry (some x) = some (loaded x)

load_services-HasUniqueKeys :
    (xs : List ServiceInfo) (m : StringMap Service)
    → HasUniqueKeys m
    → HasUniqueKeys (load_services xs m)
unfolding load_services
load_services-HasUniqueKeys [] m h = h
load_services-HasUniqueKeys (x ∷ xs) m h =
    load_services-HasUniqueKeys xs (insert x.info.id (loaded x) m)
      (insert-HasUniqueKeys x.info.id (loaded x) m h)

lookup-load_services :
    (stored : StringMap ServiceInfo) (m : StringMap Service) (j : String)
    → HasUniqueKeys stored
    → IsKeyed stored
    → lookup j (load_services (values stored) m)
      ≡ or_else (loaded_entry (lookup j stored)) (lookup j m)
unfolding load_services lookup
lookup-load_services [] m j u k = refl
lookup-load_services ((id, x) ∷ stored) m j (new, u) (own, k) = ground (
  arith,
  lookup-load_services stored (insert x.info.id (loaded x) m) j u k,
  lookup-insert x.info.id j (loaded x) m,
  eq_iff id j,
  eq_iff x.info.id j,
  new,
  own,
)

entry_again : (o : Option ServiceInfo) → o ≡ stored_entry (or_else (loaded_entry o) none)
entry_again none = refl
entry_again (some x) = refl

-- A new server that starts over a storage with every service under its component's identifier, where
-- the visit of the storage's map yields each of its entries once, is mirrored by that storage.
pub restart-IsMirrored :
    (visit : StringMap ServiceInfo → StringMap ServiceInfo)
    (visit_runs : StringMap PipelineRun → StringMap PipelineRun)
    (visit_chunks : StringMap ChunkRun → StringMap ChunkRun) (d : MemoryStorage)
    → HasUniqueKeys (visit d.services)
    → IsKeyed (visit d.services)
    → ((j : String) → lookup j (visit d.services) ≡ lookup j d.services)
    → IsMirrored
        (memory_storage visit visit_runs visit_chunks)
        (memory_views visit visit_runs visit_chunks)
        (start (memory_storage visit visit_runs visit_chunks) (new_control_plane_server (some d))).0
unfolding start new_control_plane_server list_services memory_views lookup
restart-IsMirrored visit visit_runs visit_chunks d u k same = record {
  unique = load_services-HasUniqueKeys (values (visit d.services)) [] tt;
  same = λ j.
      entry_again (lookup j d.services)
      ∙ ap stored_entry (
          ap (λ o. or_else (loaded_entry o) none) (sym (same j))
          ∙ sym (lookup-load_services (visit d.services) [] j u k));
}
