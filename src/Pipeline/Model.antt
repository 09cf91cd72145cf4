-- ===== src/Pipeline/Model.antt =====
-- internal/model/pipeline.go: the fields of a pipeline that the loader, the validator and the runner
-- read.
use flowctl.Prelude.{String, Bool, List}
use flowctl.Prelude.Int.{ℤ}
use flowctl.Prelude.Map.{StringMap}

pub record Component : Type 0 where
  pub id : String
  pub type : String
  pub image : String
  pub command : List String
  pub inputs : List String
  pub input_event_types : List String
  pub output_event_types : List String
  -- Each value as Sprintf's %v prints it.
  pub config : StringMap String
  pub env : StringMap String
  pub health_check : String
  pub health_port : ℤ
  pub replicas : ℤ
  pub depends_on : List String

pub record Spec : Type 0 where
  pub driver : String
  pub registration_only : Bool
  pub sources : List Component
  pub processors : List Component
  pub sinks : List Component
  pub pipelines : List Component

pub record Pipeline : Type 0 where
  pub api_version : String
  pub kind : String
  pub name : String
  pub spec : Spec
