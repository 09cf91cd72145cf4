-- ===== src/Tests/Enrich.antt =====
-- An example of a component whose event types the pipeline knows better.
use mathlib.Core.List.{Memᴰ}
use flowctl.Prelude.{ℕ, ◌≡◌, refl, none, some, [], ◌∷◌}
use flowctl.Prelude.Map.{lookup}
use flowctl.Pipeline.Model.{Component, Pipeline}
use flowctl.Pipeline.Loader.{validate_pipeline}
use flowctl.ControlPlane.State.{Service}
use flowctl.Runner.Enrich.{enriched_components, enrich_registered_components}
use flowctl.Runner.Enrich.Types.{IsEnriched, enrich_registered_components-IsEnriched}
use flowctl.Tests.Data.{memory, type_name, server, entry}
use flowctl.Tests.Loading.{component, pipeline}

abbrev typed : Component
typed = record (component "ledger" []) { input_event_types = "raw" ∷ [] }

abbrev typed_pipeline : Pipeline
typed_pipeline = record pipeline {
  spec = record (pipeline.spec) {
    sources = typed ∷ [];
    processors = [];
    sinks = component "sink" ("ledger" ∷ []) ∷ [];
  };
}

abbrev now : Component → ℕ
now c = 300

typed_loads : validate_pipeline typed_pipeline ≡ none
unfolding validate_pipeline
typed_loads = refl

enrich_registered_components-IsEnriched_example :
    ((enrich_registered_components memory type_name now typed_pipeline.spec server).1 ≡ none)
    × (after : Service) × (lookup "ledger"
          (enrich_registered_components memory type_name now typed_pipeline.spec server).0.services
        ≡ some after)
    × IsEnriched typed entry after
unfolding enriched_components lookup
enrich_registered_components-IsEnriched_example =
    enrich_registered_components-IsEnriched memory type_name now typed_pipeline server "source"
      typed entry typed_loads (Memᴰ.head refl) refl
