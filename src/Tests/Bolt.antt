-- ===== src/Tests/Bolt.antt =====
-- A database and codecs that keep the laws of internal/storage/bolt.go's parameters, and the theorems on
-- that storage applied to them.
use flowctl.Prelude.{String, ◌≡◌, refl, true, not, Option, none, some, [], str_eq, if◌then◌else◌}
use flowctl.Prelude.Map.{StringMap, lookup, insert, erase}
use flowctl.Proto.Messages.{PipelineRun, ChunkRun}
use flowctl.Storage.Types.{ServiceInfo, StorageError, Updater}
use flowctl.Storage.Memory.{MemoryStorage}
use flowctl.Storage.Bolt.{update_service}
use flowctl.Storage.Bolt.Bbolt.{Bucket, Database, Codec, Codecs}
use flowctl.Storage.Bolt.Records.{decode_all}
use flowctl.Tests.Data.{disk, run, chunk}

abbrev Text : Bucket → Type 0
Text Bucket.services = ServiceInfo
Text Bucket.pipeline_runs = PipelineRun
Text Bucket.chunk_runs = ChunkRun

abbrev Tables : Type 0
Tables = (b : Bucket) → StringMap (Text b)

unfoldable with_table : (b : Bucket) → StringMap (Text b) → Tables → Tables
with_table Bucket.services m t Bucket.services = m
with_table Bucket.pipeline_runs m t Bucket.pipeline_runs = m
with_table Bucket.chunk_runs m t Bucket.chunk_runs = m
with_table _ m t b = t b

with_table_same : (b : Bucket) (m : StringMap (Text b)) (t : Tables) → with_table b m t b ≡ m
unfolding with_table
with_table_same Bucket.services m t = refl
with_table_same Bucket.pipeline_runs m t = refl
with_table_same Bucket.chunk_runs m t = refl

unfoldable find : (b : Bucket) → String → Tables → Option (Text b)
find b k t = if str_eq k "" then none else lookup k (t b)

unfoldable store : (b : Bucket) → String → Text b → Tables → Tables × Option String
store b k v t =
    if str_eq k "" then (t, some "key required") else (with_table b (insert k v (t b)) t, none)

unfoldable remove : Bucket → String → Tables → Tables × Option String
remove b k t = (with_table b (erase k (t b)) t, none)

unfoldable commit : (Tables → Tables × Option StorageError) → Tables → Tables × Option StorageError
commit fn t = elim (fn t).1 [ none ↦ fn t | some e ↦ (t, some e) ]

abbrev table_db : Database
table_db = record {
  Db = Tables;
  Data = Text;
  has_bucket = λ b t. true;
  get = find;
  put = store;
  delete = remove;
  entries = λ b t. t b;
  update = commit;
  writable = λ k. not (str_eq k "");
  reopen = λ t. (t, none);
  shut = λ t. (t, none);
}

abbrev plain : {A : Type 0} → Codec A A
plain = record { encode = λ x. some x; decode = λ d. some d }

abbrev plain_codecs : Codecs table_db
plain_codecs = record { service = plain; run = plain; chunk = plain }

abbrev down : StorageError
down = StorageError.failed "down"

abbrev tables : Tables
tables Bucket.services = disk.services
tables Bucket.pipeline_runs = disk.pipeline_runs
tables Bucket.chunk_runs = disk.chunk_runs

abbrev empty : MemoryStorage
empty = record { services = []; pipeline_runs = []; chunk_runs = [] }

abbrev ended_then_fail : Updater PipelineRun
ended_then_fail r = (record r { end_time = some 500 }, some down)

abbrev seen_then_fail : Updater ServiceInfo
seen_then_fail x = (record x { last_seen = 500 }, some down)

-- An updater that fails does change the record that it is given.
failing_update :
    update_service table_db plain_codecs "ledger" seen_then_fail tables ≡ (tables, some down)
unfolding update_service flowctl.Storage.Bolt.Records.change_record lookup find commit
failing_update = refl
