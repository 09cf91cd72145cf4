-- ===== src/Tests/Data.antt =====
-- Example components, runs and chunks, and a server whose storage holds them.
use flowctl.Prelude.{String, true, false, none, some, [], ◌∷◌}
use flowctl.Prelude.Int.{pos}
use flowctl.Proto.Enums.{
  HealthStatus, ComponentType, RunStatus, ChunkStatus, FailureClass, ServiceType,
}
use flowctl.Proto.Messages
use flowctl.Proto.Messages.{
  ComponentInfo, RegisterRequest, HeartbeatRequest, PipelineRun, CreatePipelineRunRequest,
  UpdatePipelineRunRequest, ChunkRun,
}
use flowctl.Storage.Interface.{ServiceStorage, IsReliable}
use flowctl.Storage.Memory.{MemoryStorage}
use flowctl.Storage.Memory.Reliable.{memory_storage, memory_views}
use flowctl.ControlPlane.State.{Service, Server}
use flowctl.ControlPlane.Registry.{stored}

abbrev pub memory : ServiceStorage
memory = memory_storage (λ m. m) (λ m. m) (λ m. m)

abbrev pub reliable : IsReliable memory
reliable = memory_views (λ m. m) (λ m. m) (λ m. m)

abbrev pub type_name : ComponentType → String
type_name t = "component"

abbrev pub ledger : ComponentInfo
ledger = record {
  id = "ledger";
  type = ComponentType.source;
  name = "Ledger source";
  version = "1.0.0";
  description = "";
  endpoint = "localhost:9090";
  input_event_types = [];
  output_event_types = "ledger" ∷ [];
  metadata = none;
}

abbrev pub entry : Service
entry = record {
  info = ledger;
  status = record {
    component = ledger;
    status = HealthStatus.healthy;
    last_heartbeat = 100;
    metrics = ("delivery_run_id", "run-1") ∷ [];
    registered_at = 50;
  };
  last_seen = 100;
}

abbrev pub run : PipelineRun
run = record {
  run_id = "run-1";
  pipeline_id = "pipeline";
  pipeline_name = "pipeline";
  status = RunStatus.running;
  start_time = some 10;
  end_time = none;
  config_yaml = "";
  metrics = none;
  error = "";
  component_ids = "ledger" ∷ [];
}

abbrev pub chunk : ChunkRun
chunk = record {
  chunk_id = "chunk-1";
  pipeline_run_id = "run-1";
  component_id = "ledger";
  chunk_start = pos 1;
  chunk_end = pos 100;
  attempt = pos 1;
  status = ChunkStatus.running;
  failure_class = FailureClass.unknown;
  phase = "extract";
  error = "";
  recommended_action = "";
  started_at = some 20;
  completed_at = none;
  verified_at = none;
  row_counts = ("ledgers", pos 7) ∷ [];
  verification = [];
  metadata = [];
}

-- The progress of the chunk, with no status.
abbrev pub progress : ChunkRun
progress = record chunk {
  status = ChunkStatus.unknown;
  started_at = none;
  row_counts = ("ledgers", pos 100) ∷ ("failed", pos 0) ∷ [];
}

abbrev pub disk : MemoryStorage
disk = record {
  services = ("ledger", stored entry) ∷ [];
  pipeline_runs = ("run-1", run) ∷ [];
  chunk_runs = ("chunk-1", chunk) ∷ [];
}

abbrev pub server : Server MemoryStorage
server = record {
  services = ("ledger", entry) ∷ [];
  storage = some disk;
  heartbeat_ttl = 30;
  janitor_interval = 10;
  signalled = false;
  janitor_started = true;
  run_stoppers = ("run-1", 4) ∷ [];
}

abbrev pub registration : RegisterRequest
registration = record { component_id = ""; component = some ledger }

abbrev pub healthy_beat : HeartbeatRequest
healthy_beat = record {
  service_id = "ledger";
  status = HealthStatus.healthy;
  metrics = ("events", "12") ∷ [];
}

abbrev pub creation : CreatePipelineRunRequest
creation = record {
  run_id = "run-2";
  pipeline_name = "pipeline";
  config_yaml = "";
  component_ids = [];
}

abbrev pub failure : UpdatePipelineRunRequest
failure = record { run_id = "run-1"; status = RunStatus.failed; metrics = none; error = "lost" }

-- A service whose component has another name.
abbrev pub wrapped : Messages.ServiceInfo
wrapped = record {
  service_id = "svc";
  service_type = ServiceType.sink;
  input_event_types = [];
  output_event_types = [];
  health_endpoint = "";
  metadata = [];
  component_id = "comp";
}
