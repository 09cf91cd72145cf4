-- ===== src/Storage/Bolt.antt =====
-- internal/storage/bolt.go, over the database of go.etcd.io/bbolt, which is a parameter. A state of the
-- database is one after Open; a function given to `update` works on the state that it is given, and the
-- database decides what is kept of that.
pub mod Bbolt
pub mod Records
pub mod Atomic
use flowctl.Prelude.{
  ℕ, String, Bool, true, false, not, ◌&&◌, Option, none, some, List, [], ◌∷◌, if◌then◌else◌, ◌+◌,
}
use flowctl.Prelude.Int.{ℤ}
use flowctl.Proto.Enums.{RunStatus, ChunkStatus}
use flowctl.Proto.Messages.{PipelineRun, ChunkRun}
use flowctl.Storage.Types.{
  ServiceInfo, StorageError, service_not_found, run_not_found, chunk_not_found, Outcome, Updater,
}
use flowctl.Storage.Interface.{ServiceStorage}
use flowctl.Storage.Memory.{run_matches, chunk_matches}
use flowctl.Storage.Bolt.Bbolt.{
  Bucket, services, pipeline_runs, chunk_runs, Database, Codec, Codecs,
}
use flowctl.Storage.Bolt.Records.{
  put_record, change_record, changed, get_record, delete_record, all_records, visit_records,
}

module _ (db : Database) (c : Codecs db) where
  open db use {Db, update}

  unfoldable pub register_service : ServiceInfo → Db → Db × Option StorageError
  unfolding put_record
  register_service service = update (put_record db services c.service service.info.id service)

  unfoldable pub update_service : String → Updater ServiceInfo → Db → Db × Option StorageError
  unfolding change_record
  update_service id updater =
      update (change_record db services c.service service_not_found id updater)

  unfoldable pub get_service : String → Db → Outcome ServiceInfo
  unfolding get_record
  get_service id = get_record db services c.service service_not_found id

  unfoldable pub list_services : Db → Outcome (List ServiceInfo)
  unfolding all_records
  list_services = all_records db services c.service

  unfoldable pub delete_service : String → Db → Db × Option StorageError
  unfolding delete_record
  delete_service id = update (delete_record db services service_not_found id)

  unfoldable pub unregister_service : String → Db → Db × Option StorageError
  unfolding delete_service
  unregister_service id s = delete_service id s

  unfoldable pub with_transaction : (Db → Db × Option StorageError) → Db → Db × Option StorageError
  with_transaction fn = update fn

  unfoldable pub create_pipeline_run : PipelineRun → Db → Db × Option StorageError
  unfolding put_record
  create_pipeline_run run = update (put_record db pipeline_runs c.run run.run_id run)

  -- The third part is the record as the updater left it, which the caller's closure keeps.
  unfoldable pub update_pipeline_run :
      String → Updater PipelineRun → Db → Db × Option StorageError × Option PipelineRun
  unfolding change_record changed
  update_pipeline_run id updater s =
      let (s', failure) =
        update (change_record db pipeline_runs c.run run_not_found id updater) s in
      (s', failure, changed db pipeline_runs c.run id updater s)

  unfoldable pub get_pipeline_run : String → Db → Outcome PipelineRun
  unfolding get_record
  get_pipeline_run id = get_record db pipeline_runs c.run run_not_found id

  unfoldable pub list_pipeline_runs : String → RunStatus → ℤ → Db → Outcome (List PipelineRun)
  unfolding visit_records
  list_pipeline_runs name status limit =
      visit_records db pipeline_runs c.run (run_matches name status) limit

  unfoldable pub delete_pipeline_run : String → Db → Db × Option StorageError
  unfolding delete_record
  delete_pipeline_run id = update (delete_record db pipeline_runs run_not_found id)

  unfoldable pub upsert_chunk_run : ChunkRun → Db → Db × Option StorageError
  unfolding put_record
  upsert_chunk_run chunk = update (put_record db chunk_runs c.chunk chunk.chunk_id chunk)

  unfoldable pub get_chunk_run : String → Db → Outcome ChunkRun
  unfolding get_record
  get_chunk_run id = get_record db chunk_runs c.chunk chunk_not_found id

  unfoldable pub list_chunk_runs : String → String → ChunkStatus → ℤ → Db → Outcome (List ChunkRun)
  unfolding visit_records
  list_chunk_runs run_id component_id status limit =
      visit_records db chunk_runs c.chunk (chunk_matches run_id component_id status) limit

  unfoldable pub delete_chunk_run : String → Db → Db × Option StorageError
  unfolding delete_record
  delete_chunk_run id = update (delete_record db chunk_runs chunk_not_found id)

  -- The methods behind the interface. Opening and closing again stands as the database has it.
  abbrev pub bolt_storage : ServiceStorage
  bolt_storage = record {
    State = Db;
    open_storage = db.reopen;
    close_storage = db.shut;
    register_service = register_service;
    update_service = update_service;
    list_services = list_services;
    unregister_service = unregister_service;
    create_pipeline_run = create_pipeline_run;
    update_pipeline_run = update_pipeline_run;
    get_pipeline_run = get_pipeline_run;
    list_pipeline_runs = list_pipeline_runs;
    upsert_chunk_run = upsert_chunk_run;
    get_chunk_run = get_chunk_run;
    list_chunk_runs = list_chunk_runs;
  }
