-- ===== src/Orchestrator.antt =====
-- internal/orchestrator: the components that an orchestrator runs, and their statuses.
pub mod Environment
pub mod Process
use flowctl.Prelude.{ℕ, String, Option, List}
use flowctl.Prelude.Map.{StringMap}

-- Component of internal/orchestrator/interface.go, on the fields that the process orchestrator reads.
pub record Component : Type 0 where
  pub id : String
  pub type : String
  pub name : String
  pub image : String
  pub command : List String
  pub args : List String
  pub environment : StringMap String
  pub working_dir : String

-- The constants for a component's status.
pub data Status : Type 0 where
  status_unknown status_starting status_running status_stopping status_stopped : Status
  status_failed status_healthy status_unhealthy : Status

pub record ComponentStatus : Type 0 where
  pub id : String
  pub status : Status
  pub pid : ℕ
  pub start_time : ℕ
  pub error : String
  pub metadata : StringMap String
