-- ===== src/Lib.antt =====
-- The core of flowctl: the control plane that keeps the registry of a pipeline's components and the
-- history of its runs, the storage behind it, and the runner that moves the events between the
-- components and decides how a run ended; and the orchestrator of the components' processes.
--
-- The program's parts. Components register with the control plane server and send it heartbeats; a
-- janitor marks the silent ones unhealthy. The server writes every change through to a storage, from
-- which the next start loads the services, and keeps pipeline runs and chunk runs there. The runner
-- wires the components of a pipeline by gRPC streams, forwards the events from the sources through the
-- processors to the sinks, waits for the end of delivery or for a stop, and records the status of the
-- run in the control plane. It may hold a control plane of its own, and has an orchestrator start the
-- components as processes.
--
-- Which file models which part, with the source's paths from the repository's root:
-- - Proto: the enumerations and messages of proto/control_plane.pb.go. The messages of flowctl.v1 come
--   from the module flow-proto; they have the fields that the code here reads and writes.
-- - Storage/Types, Storage/Interface: internal/storage/interface.go. `ServiceStorage` is the interface,
--   and `IsReliable` the contract, as laws on three maps from identifiers to records.
-- - Storage/Memory: internal/storage/memory.go, a function for each method, with Storage/Limit for the
--   loop that both listings share, Memory/Reliable for the contract, Memory/Listing for the listings.
-- - Storage/Bolt: internal/storage/bolt.go. Bolt/Bbolt has what it uses of bbolt and of encoding/json, as
--   parameters, with the law that Update is transactional; Bolt/Records what its methods do inside
--   their transactions.
-- - ControlPlane: internal/api/control_plane.go. State has `Server` for ControlPlaneServer and `Reply`
--   for the results; Registry has RegisterComponent, Heartbeat, GetComponentStatus, ListComponents,
--   UnregisterComponent and DiscoverComponents; Janitor has Start, Close, checkServiceHealth and the
--   stop callbacks; Runs and Chunks have the handlers of pipeline runs and chunk runs; Wrapper has
--   ControlPlaneWrapper. Mirror relates the registry to the storage.
-- - Runner/Stream, Runner/Delivery: the edges of internal/runner/stream_orchestrator.go, with
--   forwardSource, forward and fanOut as functions of what the streams yield and answer.
-- - Runner/Group: launch and Wait of the same file, and the end of Run with waitForTerminalOnStop in
--   internal/runner/pipeline_runner.go.
-- - Runner/Startup, Runner/Failure: startComponents, markDeliveryFailure and deliveryFailureRecord of
--   internal/runner/pipeline_runner.go. Runner/Wiring: WireAll of internal/runner/stream_orchestrator.go,
--   with Wiring/Plan for the edges that it is to launch. Startup/Calls has the calls of StartComponent.
-- - Pipeline/ApiVersion: internal/apiversion/apiversion.go. Pipeline/Loader: validatePipeline of
--   internal/runner/loader.go, on the fields of internal/model/pipeline.go that are read.
--   Pipeline/Model has the fields. Pipeline/Resolve: resolveComponent of internal/runner/loader.go, with
--   internal/components/translator.go; a config value stands as Sprintf prints it.
-- - Validator: internal/validator/validator.go, Validate with its checks in Validator/Checks and
--   Validator/Ports. Validator/Accepted describes the pipelines that it means to accept.
-- - Runner/Enrich: enrichRegisteredComponents of internal/runner/pipeline_runner.go.
-- - Runner/Lifecycle: Run and shutdown of internal/runner/pipeline_runner.go, as the list of the steps that
--   they take, given how each of them goes.
-- - ControlPlane/Embedded: internal/controlplane/embedded_server.go, with IsHealthy and the counts of
--   logPipelineStatus of internal/runner/pipeline_runner.go, which read it.
-- - Orchestrator: internal/orchestrator/interface.go and internal/orchestrator/process.go. Environment has
--   buildEnvironment, Process the methods of ProcessOrchestrator, Process/Command its buildCommand,
--   and Process/Events the sequences of calls, ends of processes and heartbeats.
-- - ComponentRegistry/Reference: internal/registry/reference.go.
-- - Core/Dag: internal/core/dag.go, with its channels as numbers. Core/Graph: buildPipelineGraph of
--   internal/core/pipeline_dag.go.
-- - Sanitize: internal/sanitize/sanitize.go.
-- - ExitCode: internal/exitcode/exitcode.go and internal/exitcode/signal.go, on error chains.
-- - Tests: an example of every result.
--
-- How it is modelled. A handler of the registry holds the server's lock for the whole call, and one
-- of the runs makes a single call of the storage, so a call is one function from a server to a
-- server and a reply, given the times that it reads. UpsertChunkRun reads and writes the storage
-- with no lock around: it is modelled alone, and interleaved with another one in Chunks/Race. A map
-- is a list of entries, and the order in which Go visits a map is an argument, a function of the
-- list. A stream is what it yields, and a function from the events sent on it to its answer. A
-- component's status is shared between the registry and the in-memory storage in the code, which
-- then writes each heartbeat into it twice; here it is a copy on each side, written once. A process
-- of the orchestrator is shared by its map and the goroutine that waits for it: it is an index into
-- the list of all that were started. The handlers' results are records of their own, where the code
-- returns pointers to stored ones.
--
-- Bounds and fuel. Times are natural numbers of nanoseconds, `now - ttl` is compared as `last +
-- ttl`, and int32 and int64 values are integers that no code here calculates with, but for the
-- counters of sent events, which would need 2^63 events to wrap. The decimal digits of a number are
-- printed on fuel, one more than the number, which is enough since each step divides by ten
-- (`digits_from_fuel`). The start of pipelines after their dependencies is on fuel, which stands for
-- the depth of Go's calls: more than the longest chain of dependencies is enough.
-- `wait_for_component` goes by the rounds of its loop, which end at the deadline.
--
-- Not modelled: the gRPC transport and google.golang.org/protobuf, logging, bbolt and JSON (JSON
-- does not tell a nil map from an empty one, and a codec here keeps a record as it is), the reading
-- of YAML, the printing of a validation's result, the Docker orchestrator, log streams, the polling
-- for health and for registrations, the making of an orchestrator's component from the pipeline's,
-- the goroutines of a DAG between Start and Stop, the linear pipeline of internal/core/pipeline.go,
-- the registry's client, the generators, the sandbox, the libraries under pkg and the commands. They
-- do input and output, or are left for later. What the process orchestrator asks of its host is a
-- record of functions, `Host`, on a state of any type.
pub mod Prelude
pub mod Proto
pub mod Storage
pub mod ControlPlane
pub mod Runner
pub mod Pipeline
pub mod Sanitize
pub mod Validator
pub mod ExitCode
pub mod ComponentRegistry
pub mod Orchestrator
pub mod Core
mod Tests
