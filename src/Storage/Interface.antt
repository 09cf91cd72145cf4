-- ===== src/Storage/Interface.antt =====
-- internal/storage/interface.go: what the control plane calls (`ServiceStorage`), and what a storage
-- whose writes succeed does with its records (`IsReliable`).
use flowctl.Prelude.{String, ◌≡◌, Bool, true, Option, none, some, List, str_eq, if◌then◌else◌}
use flowctl.Prelude.Int.{ℤ}
use flowctl.Proto.Enums.{RunStatus, ChunkStatus}
use flowctl.Proto.Messages.{PipelineRun, ChunkRun}
use flowctl.Storage.Types.{
  ServiceInfo, StorageError, run_not_found, chunk_not_found, Outcome, ok, fail, Updater,
}

pub record ServiceStorage : Type 1 where
  pub State : Type 0
  pub open_storage : State → State × Option StorageError
  pub close_storage : State → State × Option StorageError
  pub register_service : ServiceInfo → State → State × Option StorageError
  pub update_service : String → Updater ServiceInfo → State → State × Option StorageError
  pub list_services : State → Outcome (List ServiceInfo)
  pub unregister_service : String → State → State × Option StorageError
  pub create_pipeline_run : PipelineRun → State → State × Option StorageError
  -- With the record as the updater left it, which the caller's closure keeps.
  pub update_pipeline_run :
      String → Updater PipelineRun → State → State × Option StorageError × Option PipelineRun
  pub get_pipeline_run : String → State → Outcome PipelineRun
  pub list_pipeline_runs : String → RunStatus → ℤ → State → Outcome (List PipelineRun)
  pub upsert_chunk_run : ChunkRun → State → State × Option StorageError
  pub get_chunk_run : String → State → Outcome ChunkRun
  pub list_chunk_runs : String → String → ChunkStatus → ℤ → State → Outcome (List ChunkRun)

-- What an updater leaves of a record, if there is one.
abbrev pub updated : {A : Type 0} → Updater A → Option A → Option A
updated f none = none
updated f (some x) = some (f x).0

abbrev pub found : {A : Type 0} → StorageError → Option A → Outcome A
found e none = fail e
found e (some x) = ok x

-- The storage seen as three maps from identifiers to records. It takes the records under
-- identifiers that it accepts; a record that is stored has one. An update counts on an updater that
-- does not fail: the storages differ in what they keep of a record whose updater failed. Which identifiers
-- a storage accepts, and how its maps stand to its state and its listings, is said of each storage.
pub record IsReliable (st : ServiceStorage) : Type 1 where
  pub accepts : String → Bool
  pub service : st.State → String → Option ServiceInfo
  pub run : st.State → String → Option PipelineRun
  pub chunk : st.State → String → Option ChunkRun
  pub service-register :
      (x : ServiceInfo) (s : st.State) (j : String)
      → accepts x.info.id ≡ true
      → service (st.register_service x s).0 j ≡ (if str_eq x.info.id j then some x else service s j)
  pub service-update :
      (id : String) (f : Updater ServiceInfo) (s : st.State) (j : String)
      → ((x : ServiceInfo) → (f x).1 ≡ none)
      → service (st.update_service id f s).0 j
        ≡ (if str_eq id j then updated f (service s id) else service s j)
  pub service-unregister :
      (id : String) (s : st.State) (j : String)
      → service (st.unregister_service id s).0 j ≡ (if str_eq id j then none else service s j)
  pub run-create :
      (r : PipelineRun) (s : st.State) (j : String)
      → accepts r.run_id ≡ true
      → run (st.create_pipeline_run r s).0 j ≡ (if str_eq r.run_id j then some r else run s j)
  pub create_error :
      (r : PipelineRun) (s : st.State)
      → accepts r.run_id ≡ true
      → (st.create_pipeline_run r s).1 ≡ none
  pub run-update :
      (id : String) (f : Updater PipelineRun) (s : st.State) (j : String)
      → ((r : PipelineRun) → (f r).1 ≡ none)
      → run (st.update_pipeline_run id f s).0 j
        ≡ (if str_eq id j then updated f (run s id) else run s j)
  pub update_run_error :
      (id : String) (f : Updater PipelineRun) (s : st.State)
      → ((r : PipelineRun) → (f r).1 ≡ none)
      → (st.update_pipeline_run id f s).1
        ≡ elim (run s id) [ none ↦ some (run_not_found id) | some r ↦ none ]
  pub update_run_kept :
      (id : String) (f : Updater PipelineRun) (s : st.State)
      → (st.update_pipeline_run id f s).2 ≡ updated f (run s id)
  pub get_run_lem :
      (id : String) (s : st.State) → st.get_pipeline_run id s ≡ found (run_not_found id) (run s id)
  pub chunk-upsert :
      (c : ChunkRun) (s : st.State) (j : String)
      → accepts c.chunk_id ≡ true
      → chunk (st.upsert_chunk_run c s).0 j ≡ (if str_eq c.chunk_id j then some c else chunk s j)
  pub upsert_error :
      (c : ChunkRun) (s : st.State) → accepts c.chunk_id ≡ true → (st.upsert_chunk_run c s).1 ≡ none
  pub get_chunk_lem :
      (id : String) (s : st.State) → st.get_chunk_run id s ≡ found (chunk_not_found id) (chunk s id)
