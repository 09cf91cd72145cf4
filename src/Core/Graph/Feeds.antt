-- ===== src/Core/Graph/Feeds.antt =====
-- Where the events of a source go in the graph of buildPipelineGraph (internal/core/pipeline_dag.go).
use mathlib.Core.List.{Memᴰ}
use flowctl.Prelude.{◌≡◌, String, true, some, List, is_some}
use flowctl.Prelude.Map.{lookup}
use flowctl.Pipeline.Model.{Component, Pipeline}
use flowctl.Pipeline.Loader.{has_id}
use flowctl.Core.Dag.{Dag}
use flowctl.Core.Dag.Wired.{node_types}
use flowctl.Core.Graph.Starts.{adapter_of}

-- What the built graph has of a connection: the goroutine from the source, the source itself, and a
-- node for the processor, which takes the type.
abbrev pub IsFed : {P R : Type 0} → (s c : Component) → String → Dag P R → Type 0
IsFed s c type d =
    Memᴰ (adapter_of s c type) d.adapters
    × (is_some (lookup s.id d.sources) ≡ true)
    × ((types : List String) × (node_types c.id d ≡ some types) × (has_id types type ≡ true))
