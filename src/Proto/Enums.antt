-- ===== src/Proto/Enums.antt =====
-- The enumerations. A protobuf enumeration is open: `unrecognized n` is the n-th wire value past the
-- named ones. `number` serves the tests by `==`; for the types of flow-proto, whose numbers are not
-- in the repository, it only tells the values apart.
use flowctl.Prelude.{ℕ, ◌+◌, ◌≡◌, Bool, ◌==◌, arith}

pub data HealthStatus : Type 0 where
  unknown healthy unhealthy degraded starting stopping : HealthStatus
  unrecognized : ℕ → HealthStatus

pub data ComponentType : Type 0 where
  unspecified source processor consumer : ComponentType
  unrecognized : ℕ → ComponentType

pub data ServiceType : Type 0 where
  unspecified source processor sink pipeline : ServiceType
  unrecognized : ℕ → ServiceType

pub data RunStatus : Type 0 where
  unknown starting running completed failed stopped : RunStatus
  unrecognized : ℕ → RunStatus

pub data ChunkStatus : Type 0 where
  unknown planned dispatched running completed verified failed retry_pending aborted : ChunkStatus
  unrecognized : ℕ → ChunkStatus

pub data FailureClass : Type 0 where
  unknown retryable_infrastructure non_retryable_data non_retryable_schema : FailureClass
  verification allocation_lost oom : FailureClass
  unrecognized : ℕ → FailureClass

abbrev pub health_number : HealthStatus → ℕ
health_number HealthStatus.unknown = 0
health_number HealthStatus.healthy = 1
health_number HealthStatus.unhealthy = 2
health_number HealthStatus.degraded = 3
health_number HealthStatus.starting = 4
health_number HealthStatus.stopping = 5
health_number (HealthStatus.unrecognized n) = n + 6

abbrev pub type_number : ComponentType → ℕ
type_number ComponentType.unspecified = 0
type_number ComponentType.source = 1
type_number ComponentType.processor = 2
type_number ComponentType.consumer = 3
type_number (ComponentType.unrecognized n) = n + 4

abbrev pub run_status_number : RunStatus → ℕ
run_status_number RunStatus.unknown = 0
run_status_number RunStatus.starting = 1
run_status_number RunStatus.running = 2
run_status_number RunStatus.completed = 3
run_status_number RunStatus.failed = 4
run_status_number RunStatus.stopped = 5
run_status_number (RunStatus.unrecognized n) = n + 6

abbrev pub chunk_status_number : ChunkStatus → ℕ
chunk_status_number ChunkStatus.unknown = 0
chunk_status_number ChunkStatus.planned = 1
chunk_status_number ChunkStatus.dispatched = 2
chunk_status_number ChunkStatus.running = 3
chunk_status_number ChunkStatus.completed = 4
chunk_status_number ChunkStatus.verified = 5
chunk_status_number ChunkStatus.failed = 6
chunk_status_number ChunkStatus.retry_pending = 7
chunk_status_number ChunkStatus.aborted = 8
chunk_status_number (ChunkStatus.unrecognized n) = n + 9

abbrev pub health_eq : HealthStatus → HealthStatus → Bool
health_eq a b = health_number a == health_number b

abbrev pub type_eq : ComponentType → ComponentType → Bool
type_eq a b = type_number a == type_number b

abbrev pub run_status_eq : RunStatus → RunStatus → Bool
run_status_eq a b = run_status_number a == run_status_number b

abbrev pub chunk_status_eq : ChunkStatus → ChunkStatus → Bool
chunk_status_eq a b = chunk_status_number a == chunk_status_number b

abbrev pub failure_is_unknown : FailureClass → Bool
failure_is_unknown FailureClass.unknown = Bool.true
failure_is_unknown _ = Bool.false

pub health_number_inj : (a b : HealthStatus) → health_number a ≡ health_number b → a ≡ b
health_number_inj a b h = ground arith

pub run_status_number_inj : (a b : RunStatus) → run_status_number a ≡ run_status_number b → a ≡ b
run_status_number_inj a b h = ground arith
