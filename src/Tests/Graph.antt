-- ===== src/Tests/Graph.antt =====
-- Examples for the graph of processors.
use flowctl.Prelude.{ℕ, ◌≡◌, refl, String, List, [], ◌∷◌, map}
use flowctl.Prelude.Map.{lookup, insert}
use flowctl.Pipeline.Model.{Component, Spec}
use flowctl.Core.Dag.{
  Dag, Built, built, broken, new_dag, ProcessorNode, add_source, add_processor,
  connect_source_to_processor, add_sink_channel, connect, connect_processor_to_sink,
}
use flowctl.Core.Graph.{build_pipeline_graph}
use flowctl.Core.Graph.Loaded.{IsSilent, direct_graph-IsSilent}
use flowctl.Tests.Loading.{component, pipeline}

-- Sources and processors are their identifiers.
abbrev name : Component → String
name c = c.id

abbrev emitting : String → List String → List String → Component
emitting id inputs types = record (component id inputs) { output_event_types = types }

abbrev chain : Spec
chain = record pipeline.spec {
  sources = emitting "ledgers" [] ("ledger" ∷ []) ∷ [];
  processors =
      emitting "parse" ("ledgers" ∷ []) ("event" ∷ [])
      ∷ emitting "filter" ("parse" ∷ []) ("event" ∷ [])
      ∷ [];
  sinks = emitting "store" ("filter" ∷ []) [] ∷ [];
}

abbrev direct : Spec
direct = record chain { processors = []; sinks = emitting "store" ("ledgers" ∷ []) [] ∷ [] }

abbrev empty : Dag String String
empty = record {
  nodes = [];
  sources = [];
  source_channels = [];
  sink_channels = [];
  buffer_size = 1000;
  adapters = [];
  made = 0;
}

-- The outputs of a graph's nodes.
abbrev outputs : Built (Dag String String) → List (List (String × List ℕ))
outputs (built d) = map (λ (n : String × ProcessorNode String). n.1.output_channels) d.nodes
outputs (broken e) = []

chain-outputs :
    outputs (build_pipeline_graph name name chain empty)
    ≡ (("event", 2 ∷ []) ∷ []) ∷ (("event", 3 ∷ []) ∷ []) ∷ []
unfolding build_pipeline_graph lookup insert add_source add_processor connect_source_to_processor
    add_sink_channel connect connect_processor_to_sink
chain-outputs = refl

abbrev direct_graph : Dag String String
direct_graph = record empty {
  sources = ("ledgers", "ledgers") ∷ [];
  source_channels = ("ledgers", 0) ∷ [];
  sink_channels = ("store", 1) ∷ [];
  made = 2;
}

direct_builds : build_pipeline_graph name name direct (new_dag 1000) ≡ built direct_graph
unfolding build_pipeline_graph new_dag lookup insert add_source add_sink_channel
direct_builds = refl

direct_graph-IsSilent_example : IsSilent direct_graph
direct_graph-IsSilent_example =
    direct_graph-IsSilent name name direct 1000 direct_graph refl direct_builds
