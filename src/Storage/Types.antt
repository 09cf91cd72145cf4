-- ===== src/Storage/Types.antt =====
-- internal/storage/interface.go: the stored records and the errors. The one-field wrappers
-- PipelineRunInfo and ChunkRunInfo stand as the message that they hold.
use flowctl.Prelude.{ℕ, String, Option, Bool, true, false}
use flowctl.Proto.Messages.{ComponentInfo, ComponentStatus}

pub record ServiceInfo : Type 0 where
  pub info : ComponentInfo
  pub status : ComponentStatus
  pub last_seen : ℕ

-- `failed` is any error that is not one of the three not-found types.
pub data StorageError : Type 0 where
  service_not_found run_not_found chunk_not_found : String → StorageError
  failed : String → StorageError

abbrev pub is_not_found : StorageError → Bool
is_not_found (StorageError.service_not_found id) = true
is_not_found (StorageError.run_not_found id) = true
is_not_found (StorageError.chunk_not_found id) = true
is_not_found (StorageError.failed message) = false

-- A read: a value or an error.
pub data Outcome {ℓ} (A : Type ℓ) : Type ℓ where
  ok : A → Outcome A
  fail : StorageError → Outcome A

-- An updater changes the record that it is given, and may fail after it has done so.
abbrev pub Updater : Type 0 → Type 0
Updater A = A → A × Option StorageError
