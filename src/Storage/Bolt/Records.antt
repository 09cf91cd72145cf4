-- ===== src/Storage/Bolt/Records.antt =====
-- What each method of internal/storage/bolt.go does inside its transaction: the same for the services,
-- the runs and the chunks.
use flowctl.Prelude.{
  ℕ, ◌+◌, String, Bool, true, false, Option, none, some, List, [], ◌∷◌, if◌then◌else◌,
}
use flowctl.Prelude.Int.{ℤ}
use flowctl.Storage.Types.{StorageError, Outcome, ok, fail, Updater}
use flowctl.Storage.Limit.{reached}
use flowctl.Storage.Bolt.Bbolt.{Bucket, Database, Codec}

abbrev no_bucket : StorageError
no_bucket = StorageError.failed "bucket not found"

abbrev not_encoded : StorageError
not_encoded = StorageError.failed "failed to marshal"

abbrev not_decoded : StorageError
not_decoded = StorageError.failed "failed to unmarshal"

-- An error of the database, wrapped.
abbrev wrapped : Option String → Option StorageError
wrapped none = none
wrapped (some e) = some (StorageError.failed e)

abbrev with_head {ℓ} : {A : Type ℓ} → A → Outcome (List A) → Outcome (List A)
with_head x (ok xs) = ok (x ∷ xs)
with_head x (fail e) = fail e

module _ (db : Database) {A : Type 0} (b : Bucket) (c : Codec A (db.Data b)) where
  open db use {Db, Data}

  -- Marshal and Put.
  unfoldable pub write_record : String → A → Db → Db × Option StorageError
  write_record key x tx = elim (c.encode x) [
    | none ↦ (tx, some not_encoded)
    | some v ↦ ((db.put b key v tx).0, wrapped (db.put b key v tx).1)
  ]

  unfoldable pub put_record : String → A → Db → Db × Option StorageError
  unfolding write_record
  put_record key x tx = if db.has_bucket b tx then write_record key x tx else (tx, some no_bucket)

  -- Get, Unmarshal, the updater, and the write of what it leaves.
  unfoldable pub change_record :
      (String → StorageError) → String → Updater A → Db → Db × Option StorageError
  unfolding write_record
  change_record missing key updater tx =
      if db.has_bucket b tx
      then elim (db.get b key tx) [
        | none ↦ (tx, some (missing key))
        | some v ↦ elim (c.decode v) [
          | none ↦ (tx, some not_decoded)
          | some x ↦ elim (updater x).1 [
            | some e ↦ (tx, some e)
            | none ↦ write_record key (updater x).0 tx
          ]
        ]
      ]
      else (tx, some no_bucket)

  -- The record that the updater was called on, as it left it.
  unfoldable pub changed : String → Updater A → Db → Option A
  changed key updater tx =
      if db.has_bucket b tx
      then elim (db.get b key tx) [
        | none ↦ none
        | some v ↦ elim (c.decode v) [ none ↦ none | some x ↦ some (updater x).0 ]
      ]
      else none

  unfoldable pub get_record : (String → StorageError) → String → Db → Outcome A
  get_record missing key tx =
      if db.has_bucket b tx
      then elim (db.get b key tx) [
        | none ↦ fail (missing key)
        | some v ↦ elim (c.decode v) [ none ↦ fail not_decoded | some x ↦ ok x ]
      ]
      else fail no_bucket

  -- The loop of listServicesTx.
  unfoldable pub decode_all : List (String × Data b) → Outcome (List A)
  decode_all [] = ok []
  decode_all ((k, v) ∷ m) =
      let rest = decode_all m in
      elim (c.decode v) [ none ↦ fail not_decoded | some x ↦ with_head x rest ]

  unfoldable pub all_records : Db → Outcome (List A)
  unfolding decode_all
  all_records tx = if db.has_bucket b tx then decode_all (db.entries b tx) else fail no_bucket

  -- The loop of the filtered listings: past the limit no entry is decoded.
  unfoldable pub decode_matching : (A → Bool) → ℤ → ℕ → List (String × Data b) → Outcome (List A)
  decode_matching keep limit count [] = ok []
  decode_matching keep limit count ((k, v) ∷ m) =
      let kept = decode_matching keep limit (count + 1) m in
      let skipped = decode_matching keep limit count m in
      elim (reached limit count) [
        | true ↦ ok []
        | false ↦ elim (c.decode v) [
          | none ↦ fail not_decoded
          | some x ↦ elim (keep x) [ true ↦ with_head x kept | false ↦ skipped ]
        ]
      ]

  unfoldable pub visit_records : (A → Bool) → ℤ → Db → Outcome (List A)
  unfolding decode_matching
  visit_records keep limit tx =
      if db.has_bucket b tx then decode_matching keep limit 0 (db.entries b tx) else fail no_bucket

module _ (db : Database) (b : Bucket) where
  open db use {Db}

  unfoldable pub delete_record : (String → StorageError) → String → Db → Db × Option StorageError
  delete_record missing key tx =
      if db.has_bucket b tx
      then elim (db.get b key tx) [
        | none ↦ (tx, some (missing key))
        | some v ↦ ((db.delete b key tx).0, wrapped (db.delete b key tx).1)
      ]
      else (tx, some no_bucket)
