-- ===== src/Core/Graph.antt =====
-- buildPipelineGraph of internal/core/pipeline_dag.go. Its createSource, createProcessor and createSink
-- are placeholders that make a value from the component and never fail: `make_source` and
-- `make_processor` here. The maps of sources, processors and sinks beside the graph are filled in step
-- with it, and are left out.
pub mod Plan
pub mod Success
pub mod Registration
pub mod Loaded
pub mod Starts
pub mod Feeds
use flowctl.Prelude.{String, Option, none, some, List, [], ◌∷◌, ◌++◌, if◌then◌else◌, str_eq}
use flowctl.Prelude.Map.{StringMap, lookup, insert}
use flowctl.Pipeline.Model.{Component, Spec}
use flowctl.Core.Dag.{
  Dag, Built, built, broken, ◌>>=◌, add_source, add_processor, add_sink_channel, connect,
  connect_source_to_processor, connect_processor_to_sink,
}

-- The output types of the components with an identifier.
unfoldable pub types_of : String → List Component → List String
types_of id [] = []
types_of id (c ∷ cs) =
    let rest = types_of id cs in if str_eq c.id id then c.output_event_types ++ rest else rest

-- The loop over the inputs of a processor.
unfoldable pub input_types : Spec → List String → List String
unfolding types_of
input_types spec [] = []
input_types spec (input ∷ inputs) =
    (types_of input spec.sources ++ types_of input spec.processors) ++ input_types spec inputs

unfoldable pub determine_input_event_types : Component → Spec → List String
unfolding input_types
determine_input_event_types processor spec = input_types spec processor.inputs

-- The components by their identifiers: a later one replaces an earlier one.
unfoldable pub index_components : List Component → StringMap Component → StringMap Component
index_components [] index = index
index_components (c ∷ cs) index = index_components cs (insert c.id c index)

-- A loop that stops at the first error.
unfoldable pub each : {A D : Type 0} → (A → D → Built D) → List A → D → Built D
each step [] d = built d
each step (x ∷ xs) d = step x d >>= λ d'. each step xs d'

unfoldable pub register_sources :
    {P R : Type 0} → (Component → R) → List Component → Dag P R → Built (Dag P R)
unfolding each
register_sources make_source = each (λ c d. add_source c.id (make_source c) d)

unfoldable pub register_processors :
    {P R : Type 0} → (Component → P) → Spec → List Component → Dag P R → Built (Dag P R)
unfolding each determine_input_event_types
register_processors make_processor spec =
    each (λ c d. add_processor c.id (make_processor c) (determine_input_event_types c spec) d)

module _ {P R : Type 0} where
  unfoldable pub register_sinks : List Component → Dag P R → Dag P R
  register_sinks [] d = d
  register_sinks (c ∷ cs) d = register_sinks cs (add_sink_channel c.id d)

  -- One input of a processor: a source, or else a processor, or nothing.
  unfoldable pub connect_input :
      StringMap Component → StringMap Component → Component → String → Dag P R → Built (Dag P R)
  unfolding each
  connect_input sources processors c input d = elim (lookup input sources) [
    | some source ↦
        each (λ type. connect_source_to_processor source.id c.id type) source.output_event_types d
    | none ↦ elim (lookup input processors) [
      | some upstream ↦ each (λ type. connect upstream.id c.id type) upstream.output_event_types d
      | none ↦ built d
    ]
  ]

  unfoldable pub connect_sink : StringMap Component → Component → String → Dag P R → Built (Dag P R)
  unfolding each
  connect_sink processors sink input d = elim (lookup input processors) [
    | none ↦ built d
    | some processor ↦
        each (λ type. connect_processor_to_sink processor.id sink.id type)
          processor.output_event_types d
  ]

  -- The two loops that connect.
  unfoldable pub connect_all : Spec → Dag P R → Built (Dag P R)
  unfolding each index_components connect_input connect_sink
  connect_all spec d =
      let sources = index_components spec.sources [] in
      let processors = index_components spec.processors [] in
      each (λ c. each (λ input. connect_input sources processors c input) c.inputs) spec.processors
        d
      >>= λ d'.
          each (λ sink. each (λ input. connect_sink processors sink input) sink.inputs) spec.sinks
            d'

unfoldable pub build_pipeline_graph :
    {P R : Type 0} → (Component → R) → (Component → P) → Spec → Dag P R → Built (Dag P R)
unfolding register_sources register_processors register_sinks connect_all
build_pipeline_graph make_source make_processor spec d =
    register_sources make_source spec.sources d >>= λ d₁.
    register_processors make_processor spec spec.processors d₁ >>= λ d₂.
    connect_all spec (register_sinks spec.sinks d₂)
