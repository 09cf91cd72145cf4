-- ===== src/Storage/Bolt/Bbolt.antt =====
-- What internal/storage/bolt.go uses of bbolt and of encoding/json: the operations, as parameters, and
-- their documented behaviour, as laws.
use flowctl.Prelude.{String, ◌≡◌, Bool, Option, none, some, List}
use flowctl.Proto.Messages.{PipelineRun, ChunkRun}
use flowctl.Storage.Types.{ServiceInfo, StorageError}

-- The three buckets.
pub data Bucket : Type 0 where
  services pipeline_runs chunk_runs : Bucket

-- `Data b` are the stored texts of the bucket. `has_bucket` is `tx.Bucket(name) != nil`, `entries` what
-- ForEach and a cursor visit, in the order of the keys, and `writable` says which keys Put takes.
pub record Database : Type 1 where
  pub Db : Type 0
  pub Data : Bucket → Type 0
  pub has_bucket : Bucket → Db → Bool
  pub get : (b : Bucket) → String → Db → Option (Data b)
  pub put : (b : Bucket) → String → Data b → Db → Db × Option String
  pub delete : Bucket → String → Db → Db × Option String
  pub entries : (b : Bucket) → Db → List (String × Data b)
  pub update : (Db → Db × Option StorageError) → Db → Db × Option StorageError
  pub writable : String → Bool
  pub reopen : Db → Db × Option StorageError
  pub shut : Db → Db × Option StorageError

-- json.Marshal and json.Unmarshal, for one type of record.
pub record Codec (A D : Type 0) : Type 0 where
  pub encode : A → Option D
  pub decode : D → Option A

pub record Codecs (db : Database) : Type 0 where
  pub service : Codec ServiceInfo (db.Data services)
  pub run : Codec PipelineRun (db.Data pipeline_runs)
  pub chunk : Codec ChunkRun (db.Data chunk_runs)

-- The documented behaviour of DB.Update: it commits what a function without an error did, and rolls
-- the rest back.
pub record IsTransactional (db : Database) : Type 0 where
  pub commits :
      (fn : db.Db → db.Db × Option StorageError) (s : db.Db)
      → (fn s).1 ≡ none
      → db.update fn s ≡ fn s
  pub rolls_back :
      (fn : db.Db → db.Db × Option StorageError) (s : db.Db) (e : StorageError)
      → (fn s).1 ≡ some e
      → db.update fn s ≡ (s, some e)
