-- ===== src/Proto/Messages.antt =====
-- The messages. A time is a number of nanoseconds, a nil pointer is `none`, and a float64 stands as
-- its 64-bit pattern, since no code modelled here calculates with one.
use flowctl.Prelude.{ℕ, Bool, Option, List, String}
use flowctl.Prelude.Int.{ℤ}
use flowctl.Prelude.Map.{StringMap}
use flowctl.Proto.Enums.{
  HealthStatus, ComponentType, ServiceType, RunStatus, ChunkStatus, FailureClass,
}

pub record ComponentInfo : Type 0 where
  pub id : String
  pub type : ComponentType
  pub name : String
  pub version : String
  pub description : String
  pub endpoint : String
  pub input_event_types : List String
  pub output_event_types : List String
  pub metadata : Option (StringMap String)

pub record ComponentStatus : Type 0 where
  pub component : ComponentInfo
  pub status : HealthStatus
  pub last_heartbeat : ℕ
  pub metrics : StringMap String
  pub registered_at : ℕ

pub record RegisterRequest : Type 0 where
  pub component_id : String
  pub component : Option ComponentInfo

pub record RegisterResponse : Type 0 where
  pub service_id : String
  pub assigned_topics : List String
  pub connection_info : StringMap String

pub record HeartbeatRequest : Type 0 where
  pub service_id : String
  pub status : HealthStatus
  pub metrics : StringMap String

pub record ListComponentsRequest : Type 0 where
  pub type_filter : ComponentType
  pub include_unhealthy : Bool

pub record DiscoveryRequest : Type 0 where
  pub type : ComponentType
  pub event_types : List String
  pub metadata_filters : StringMap String

pub record ServiceInfo : Type 0 where
  pub service_id : String
  pub service_type : ServiceType
  pub input_event_types : List String
  pub output_event_types : List String
  pub health_endpoint : String
  pub metadata : StringMap String
  pub component_id : String

pub record ServiceHeartbeat : Type 0 where
  pub service_id : String
  pub metrics : StringMap ℕ

pub record ServiceStatus : Type 0 where
  pub service_id : String
  pub component_id : String
  pub service_type : ServiceType

pub record ComponentMetrics : Type 0 where
  pub events_in : ℤ
  pub events_out : ℤ
  pub bytes_in : ℤ
  pub bytes_out : ℤ
  pub processing_time_ms : ℕ

pub record RunMetrics : Type 0 where
  pub events_processed : ℤ
  pub events_per_second : ℕ
  pub bytes_processed : ℤ
  pub component_metrics : StringMap ComponentMetrics

pub record PipelineRun : Type 0 where
  pub run_id : String
  pub pipeline_id : String
  pub pipeline_name : String
  pub status : RunStatus
  pub start_time : Option ℕ
  pub end_time : Option ℕ
  pub config_yaml : String
  pub metrics : Option RunMetrics
  pub error : String
  pub component_ids : List String

pub record CreatePipelineRunRequest : Type 0 where
  pub run_id : String
  pub pipeline_name : String
  pub config_yaml : String
  pub component_ids : List String

pub record UpdatePipelineRunRequest : Type 0 where
  pub run_id : String
  pub status : RunStatus
  pub metrics : Option RunMetrics
  pub error : String

pub record ListPipelineRunsRequest : Type 0 where
  pub pipeline_name : String
  pub status : RunStatus
  pub limit : ℤ

pub record ChunkRun : Type 0 where
  pub chunk_id : String
  pub pipeline_run_id : String
  pub component_id : String
  pub chunk_start : ℤ
  pub chunk_end : ℤ
  pub attempt : ℤ
  pub status : ChunkStatus
  pub failure_class : FailureClass
  pub phase : String
  pub error : String
  pub recommended_action : String
  pub started_at : Option ℕ
  pub completed_at : Option ℕ
  pub verified_at : Option ℕ
  pub row_counts : StringMap ℤ
  pub verification : StringMap String
  pub metadata : StringMap String

pub record ListChunkRunsRequest : Type 0 where
  pub pipeline_run_id : String
  pub component_id : String
  pub status : ChunkStatus
  pub limit : ℤ
