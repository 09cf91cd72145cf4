-- ===== src/Storage/Bolt/Atomic.antt =====
-- The writes of internal/storage/bolt.go that fail.
use flowctl.Prelude.{◌≡◌, ◌⊎◌, Option, none, some}
use flowctl.Storage.Types.{StorageError}

-- A write answers no error, or an error and the database as it was.
abbrev pub IsAtomic : {D : Type 0} → D → D × Option StorageError → Type 0
IsAtomic s (s', failure) = (failure ≡ none) ⊎ ((e : StorageError) × (failure ≡ some e) × (s' ≡ s))
