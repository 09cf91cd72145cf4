-- ===== src/Storage/Memory.antt =====
-- internal/storage/memory.go. Each method is a function of the three maps; the locks make each call
-- one step. Go visits a map in no fixed order: a listing is given the order, `visit`, as an argument.
pub mod Reliable
pub mod Listing
use flowctl.Prelude.{
  ℕ, String, ◌≡◌, Bool, true, false, not, ◌&&◌, ◌||◌, Option, none, some, List, [], ◌∷◌, str_eq,
}
use flowctl.Prelude.Int.{ℤ}
use flowctl.Prelude.Map.{StringMap, lookup, insert, erase}
use flowctl.Proto.Enums.{RunStatus, ChunkStatus, run_status_eq, chunk_status_eq}
use flowctl.Proto.Messages.{PipelineRun, ChunkRun}
use flowctl.Storage.Types.{
  ServiceInfo, StorageError, service_not_found, run_not_found, chunk_not_found, Outcome, ok, fail,
  Updater,
}
use flowctl.Storage.Limit.{collect}

pub record MemoryStorage : Type 0 where
  pub services : StringMap ServiceInfo
  pub pipeline_runs : StringMap PipelineRun
  pub chunk_runs : StringMap ChunkRun

abbrev pub new_memory_storage : MemoryStorage
new_memory_storage = record { services = []; pipeline_runs = []; chunk_runs = [] }

unfoldable pub register_service : ServiceInfo → MemoryStorage → MemoryStorage × Option StorageError
register_service service s =
    (record s { services = insert service.info.id service s.services }, none)

-- The map holds pointers: the updater writes into the stored record, and its error is passed on.
unfoldable pub update_service :
    String → Updater ServiceInfo → MemoryStorage → MemoryStorage × Option StorageError
update_service id updater s = elim (lookup id s.services) [
  | none ↦ (s, some (service_not_found id))
  | some service ↦
      (record s { services = insert id (updater service).0 s.services }, (updater service).1)
]

unfoldable pub get_service : String → MemoryStorage → Outcome ServiceInfo
get_service id s = elim (lookup id s.services) [
  | none ↦ fail (service_not_found id)
  | some service ↦ ok service
]

-- The values of the visited entries.
abbrev pub values {ℓ} : {V : Type ℓ} → StringMap V → List V
values [] = []
values ((k, v) ∷ m) = v ∷ values m

unfoldable pub list_services :
    (StringMap ServiceInfo → StringMap ServiceInfo) → MemoryStorage → Outcome (List ServiceInfo)
list_services visit s = ok (values (visit s.services))

unfoldable pub delete_service : String → MemoryStorage → MemoryStorage × Option StorageError
delete_service id s = elim (lookup id s.services) [
  | none ↦ (s, some (service_not_found id))
  | some service ↦ (record s { services = erase id s.services }, none)
]

unfoldable pub unregister_service : String → MemoryStorage → MemoryStorage × Option StorageError
unfolding delete_service
unregister_service id s = delete_service id s

-- The transaction is the storage itself: its writes stay, whatever the function returns.
unfoldable pub with_transaction :
    (MemoryStorage → MemoryStorage × Option StorageError)
    → MemoryStorage
    → MemoryStorage × Option StorageError
with_transaction fn s = fn s

unfoldable pub create_pipeline_run :
    PipelineRun → MemoryStorage → MemoryStorage × Option StorageError
create_pipeline_run run s =
    (record s { pipeline_runs = insert run.run_id run s.pipeline_runs }, none)

-- The third part is the record as the updater left it, which the caller's closure keeps.
unfoldable pub update_pipeline_run :
    String
    → Updater PipelineRun
    → MemoryStorage
    → MemoryStorage × Option StorageError × Option PipelineRun
update_pipeline_run id updater s = elim (lookup id s.pipeline_runs) [
  | none ↦ (s, some (run_not_found id), none)
  | some run ↦ (
    record s { pipeline_runs = insert id (updater run).0 s.pipeline_runs },
    (updater run).1,
    some (updater run).0,
  )
]

unfoldable pub get_pipeline_run : String → MemoryStorage → Outcome PipelineRun
get_pipeline_run id s = elim (lookup id s.pipeline_runs) [
  | none ↦ fail (run_not_found id)
  | some run ↦ ok run
]

-- The two filters of ListPipelineRuns; an empty name and the unknown status let everything pass.
abbrev pub run_matches : String → RunStatus → PipelineRun → Bool
run_matches name status run =
    (str_eq name "" || str_eq run.pipeline_name name)
    && (run_status_eq status RunStatus.unknown || run_status_eq run.status status)

unfoldable pub list_pipeline_runs :
    (StringMap PipelineRun → StringMap PipelineRun)
    → String
    → RunStatus
    → ℤ
    → MemoryStorage
    → Outcome (List PipelineRun)
unfolding collect
list_pipeline_runs visit name status limit s =
    ok (collect (run_matches name status) limit 0 (values (visit s.pipeline_runs)))

unfoldable pub delete_pipeline_run : String → MemoryStorage → MemoryStorage × Option StorageError
delete_pipeline_run id s = elim (lookup id s.pipeline_runs) [
  | none ↦ (s, some (run_not_found id))
  | some run ↦ (record s { pipeline_runs = erase id s.pipeline_runs }, none)
]

unfoldable pub upsert_chunk_run : ChunkRun → MemoryStorage → MemoryStorage × Option StorageError
upsert_chunk_run chunk s =
    (record s { chunk_runs = insert chunk.chunk_id chunk s.chunk_runs }, none)

unfoldable pub get_chunk_run : String → MemoryStorage → Outcome ChunkRun
get_chunk_run id s = elim (lookup id s.chunk_runs) [
  | none ↦ fail (chunk_not_found id)
  | some chunk ↦ ok chunk
]

abbrev pub chunk_matches : String → String → ChunkStatus → ChunkRun → Bool
chunk_matches run_id component_id status chunk =
    (str_eq run_id "" || str_eq chunk.pipeline_run_id run_id)
    && (str_eq component_id "" || str_eq chunk.component_id component_id)
    && (chunk_status_eq status ChunkStatus.unknown || chunk_status_eq chunk.status status)

unfoldable pub list_chunk_runs :
    (StringMap ChunkRun → StringMap ChunkRun)
    → String
    → String
    → ChunkStatus
    → ℤ
    → MemoryStorage
    → Outcome (List ChunkRun)
unfolding collect
list_chunk_runs visit run_id component_id status limit s =
    ok (collect (chunk_matches run_id component_id status) limit 0 (values (visit s.chunk_runs)))

unfoldable pub delete_chunk_run : String → MemoryStorage → MemoryStorage × Option StorageError
delete_chunk_run id s = elim (lookup id s.chunk_runs) [
  | none ↦ (s, some (chunk_not_found id))
  | some chunk ↦ (record s { chunk_runs = erase id s.chunk_runs }, none)
]
