-- ===== src/Storage/Memory/Reliable.antt =====
-- The in-memory storage (internal/storage/memory.go) as an instance of the storage interface.
use flowctl.Prelude.{
  String, ◌≡◌, ap, map, [], ◌∷◌, true, refl, none, some, str_eq, eq_iff, arith, if◌then◌else◌,
  Option-cases, inl, inr,
}
use flowctl.Prelude.Map.{StringMap, lookup, lookup-insert, lookup-erase}
use flowctl.Proto.Messages.{PipelineRun, ChunkRun}
use flowctl.Storage.Types.{ServiceInfo, ok, run_not_found, chunk_not_found, Updater}
use flowctl.Storage.Interface.{ServiceStorage, IsReliable, updated, found}
use flowctl.Storage.Memory.{
  MemoryStorage, values, register_service, update_service, list_services, unregister_service,
  create_pipeline_run, update_pipeline_run, get_pipeline_run, list_pipeline_runs, upsert_chunk_run,
  get_chunk_run, list_chunk_runs,
}

module _ (s : MemoryStorage) (j : String) where
  pub service-update_lem :
      (id : String) (f : Updater ServiceInfo)
      → lookup j (update_service id f s).0.services
        ≡ (if str_eq id j then updated f (lookup id s.services) else lookup j s.services)
  unfolding update_service
  service-update_lem id f = elim (Option-cases (lookup id s.services)) [
    | inl absent ↦ ground (arith, eq_iff id j)
    | inr (x, present) ↦ rw (present, update_service) (lookup-insert id j (f x).0 s.services)
  ]

  pub run-update_lem :
      (id : String) (f : Updater PipelineRun)
      → lookup j (update_pipeline_run id f s).0.pipeline_runs
        ≡ (if str_eq id j then updated f (lookup id s.pipeline_runs) else lookup j s.pipeline_runs)
  unfolding update_pipeline_run
  run-update_lem id f = elim (Option-cases (lookup id s.pipeline_runs)) [
    | inl absent ↦ ground (arith, eq_iff id j)
    | inr (x, present) ↦
        rw (present, update_pipeline_run) (lookup-insert id j (f x).0 s.pipeline_runs)
  ]

  pub service-unregister_lem :
      (id : String)
      → lookup j (unregister_service id s).0.services
        ≡ (if str_eq id j then none else lookup j s.services)
  unfolding unregister_service
  service-unregister_lem id = ground (arith, eq_iff id j, lookup-erase id j s.services)

module _ (id : String) (s : MemoryStorage) where
  pub update_run_error_lem :
      (f : Updater PipelineRun)
      → ((r : PipelineRun) → (f r).1 ≡ none)
      → (update_pipeline_run id f s).1
        ≡ elim (lookup id s.pipeline_runs) [ none ↦ some (run_not_found id) | some r ↦ none ]
  unfolding update_pipeline_run
  update_run_error_lem f h = elim (Option-cases (lookup id s.pipeline_runs)) [
    | inl absent ↦ ground arith
    | inr (x, present) ↦ rw (present, update_pipeline_run) (h x)
  ]

  pub update_run_kept_lem :
      (f : Updater PipelineRun)
      → (update_pipeline_run id f s).2 ≡ updated f (lookup id s.pipeline_runs)
  unfolding update_pipeline_run
  update_run_kept_lem f = ground arith

  pub get_run-found : get_pipeline_run id s ≡ found (run_not_found id) (lookup id s.pipeline_runs)
  unfolding get_pipeline_run
  get_run-found = ground arith

  pub get_chunk-found : get_chunk_run id s ≡ found (chunk_not_found id) (lookup id s.chunk_runs)
  unfolding get_chunk_run
  get_chunk-found = ground arith

module _ (visit_services : StringMap ServiceInfo → StringMap ServiceInfo)
    (visit_runs : StringMap PipelineRun → StringMap PipelineRun)
    (visit_chunks : StringMap ChunkRun → StringMap ChunkRun) where
  -- The methods behind the interface.
  abbrev pub memory_storage : ServiceStorage
  memory_storage = record {
    State = MemoryStorage;
    open_storage = λ s. (s, none);
    close_storage = λ s. (s, none);
    register_service = register_service;
    update_service = update_service;
    list_services = list_services visit_services;
    unregister_service = unregister_service;
    create_pipeline_run = create_pipeline_run;
    update_pipeline_run = update_pipeline_run;
    get_pipeline_run = get_pipeline_run;
    list_pipeline_runs = list_pipeline_runs visit_runs;
    upsert_chunk_run = upsert_chunk_run;
    get_chunk_run = get_chunk_run;
    list_chunk_runs = list_chunk_runs visit_chunks;
  }

  -- The three maps, with the laws.
  unfoldable pub memory_views : IsReliable memory_storage
  unfolding register_service create_pipeline_run upsert_chunk_run
  memory_views = record {
    accepts = λ id. true;
    service = λ s j. lookup j s.services;
    run = λ s j. lookup j s.pipeline_runs;
    chunk = λ s j. lookup j s.chunk_runs;
    service-register = λ x s j ok. lookup-insert x.info.id j x s.services;
    service-update = λ id f s j h. service-update_lem s j id f;
    service-unregister = λ id s j. service-unregister_lem s j id;
    run-create = λ r s j ok. lookup-insert r.run_id j r s.pipeline_runs;
    create_error = λ r s ok. refl;
    run-update = λ id f s j h. run-update_lem s j id f;
    update_run_error = λ id f s h. update_run_error_lem id s f h;
    update_run_kept = λ id f s. update_run_kept_lem id s f;
    get_run_lem = get_run-found;
    chunk-upsert = λ c s j ok. lookup-insert c.chunk_id j c s.chunk_runs;
    upsert_error = λ c s ok. refl;
    get_chunk_lem = get_chunk-found;
  }

  values-map : {A : Type 0} (m : StringMap A) → values m ≡ map (λ (e : String × A). e.1) m
  values-map [] = refl
  values-map (e ∷ m) = ap (λ xs. e.1 ∷ xs) (values-map m)

  -- The in-memory storage keeps every law of a reliable storage, under every identifier, for the three maps
  -- that it has, and lists the services of its map: each write changes the record under its identifier and
  -- no other, each read answers the record that is there, creations and upserts do not fail, and an update
  -- of a run fails exactly if the run is not stored.
  pub memory_storage-IsReliable :
      (rel : IsReliable memory_storage) × ((id : String) → rel.accepts id ≡ true)
      × ((s : MemoryStorage) (id : String) → rel.service s id ≡ lookup id s.services)
      × ((s : MemoryStorage) (id : String) → rel.run s id ≡ lookup id s.pipeline_runs)
      × ((s : MemoryStorage) (id : String) → rel.chunk s id ≡ lookup id s.chunk_runs)
      × ((s : MemoryStorage)
          → list_services visit_services s
            ≡ ok (map (λ (e : String × ServiceInfo). e.1) (visit_services s.services)))
  unfolding memory_views list_services
  memory_storage-IsReliable = (
    memory_views,
    λ id. refl,
    λ s id. refl,
    λ s id. refl,
    λ s id. refl,
    λ s. ap ok (values-map (visit_services s.services)),
  )
