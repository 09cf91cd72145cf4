-- ===== src/ControlPlane/State.antt =====
-- The server's state and the answers of its handlers. A handler of the registry holds the server's lock
-- from its first read to its last write, and a handler of runs makes one call of the storage, which has
-- a lock of its own: each call is one step, and is given the time that it reads. UpsertChunkRun makes
-- two calls of the storage, a read and a write.
use flowctl.Prelude.{ℕ, ◌*◌, String, Bool, false, Option, []}
use flowctl.Prelude.Map.{StringMap}
use flowctl.Proto.Messages.{ComponentInfo, ComponentStatus}
use flowctl.Storage.Types.{StorageError}

-- A registered service. The connection field is left out: no code sets it.
pub record Service : Type 0 where
  pub info : ComponentInfo
  pub status : ComponentStatus
  pub last_seen : ℕ

-- A stop callback is named by a number; `signalled` says that the `done` channel is closed.
pub record Server (S : Type 0) : Type 0 where
  pub services : StringMap Service
  pub storage : Option S
  pub heartbeat_ttl : ℕ
  pub janitor_interval : ℕ
  pub signalled : Bool
  pub janitor_started : Bool
  pub run_stoppers : StringMap ℕ

pub data ServerError : Type 0 where
  service_missing run_missing chunk_missing : String → ServerError
  storage_not_configured not_implemented : ServerError
  chunk_required chunk_run_id_required chunk_component_id_required chunk_bounds : ServerError
  storage_error : StorageError → ServerError

-- `fault` is a nil dereference, which ends the process.
pub data Reply {ℓ} (A : Type ℓ) : Type ℓ where
  ok : A → Reply A
  err : ServerError → Reply A
  fault : Reply A

abbrev pub second : ℕ
second = 1_000_000_000

unfoldable pub new_control_plane_server : {S : Type 0} → Option S → Server S
new_control_plane_server storage = record {
  services = [];
  storage = storage;
  heartbeat_ttl = 30 * second;
  janitor_interval = 10 * second;
  signalled = false;
  janitor_started = false;
  run_stoppers = [];
}
