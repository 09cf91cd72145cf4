-- ===== src/Tests/Loading.antt =====
-- Examples for the validation of pipelines.
use flowctl.Prelude.{String, ◌≡◌, refl, ◌≢◌, ◌⊎◌, ◌↔◌, false, none, some, List, [], ◌∷◌}
use flowctl.Prelude.Int.{pos}
use flowctl.Pipeline.ApiVersion.{validate, decimal, IsVersion, validate_iff}
use flowctl.Pipeline.Model.{Component, Pipeline}
use flowctl.Prelude.{ℕ, suc, Option}
use flowctl.Prelude.Map.{lookup}
use flowctl.Pipeline.Resolve.{
  Resolved, resolved, is_registry_reference, translate_config, resolve_component,
}
use flowctl.Pipeline.Resolve.Environment.{resolve_component-env}
use flowctl.Pipeline.Loader.{validate_pipeline}
use flowctl.Pipeline.Loader.Sound.{IsValid, validate_pipeline-IsValid}

validate_iff_example :
    (validate "flowctl/v1" ≡ none)
    ↔ ((digits : String) × IsVersion "flowctl/v1" digits × (decimal 0 digits ≡ 1))
validate_iff_example = validate_iff "flowctl/v1"

abbrev pub component : String → List String → Component
component id inputs = record {
  id = id;
  type = "";
  image = "image";
  command = [];
  inputs = inputs;
  input_event_types = [];
  output_event_types = [];
  config = [];
  env = [];
  health_check = "";
  health_port = pos 0;
  replicas = pos 0;
  depends_on = [];
}

abbrev pub pipeline : Pipeline
pipeline = record {
  api_version = "flowctl/v1";
  kind = "Pipeline";
  name = "ledgers";
  spec = record {
    driver = "";
    registration_only = false;
    sources = component "source" [] ∷ [];
    processors = component "processor" ("source" ∷ []) ∷ [];
    sinks = component "sink" ("processor" ∷ "source" ∷ []) ∷ [];
    pipelines = [];
  };
}

validate_pipeline-IsValid_example :
    (validate "flowctl/v1" ≡ none)
    × (pipeline.kind ≡ "Pipeline")
    × (pipeline.name ≢ "")
    × ((pipeline.spec.sources ≢ []) ⊎ (pipeline.spec.pipelines ≢ []))
    × IsValid pipeline.spec
unfolding validate_pipeline
validate_pipeline-IsValid_example = validate_pipeline-IsValid pipeline refl

abbrev registry_component : Component
registry_component = record (component "ingest" []) {
  type = "ledgers@v1.2.0";
  config = ("network", "testnet") ∷ ("workers", "4") ∷ [];
  env = ("WORKERS", "8") ∷ [];
}

abbrev downloaded : Resolved
downloaded = record {
  binary_path = "/cache/ledgers";
  metadata = record {
    env_mapping = ("network", "NETWORK") ∷ ("workers", "WORKERS") ∷ [];
    consumes = [];
    produces = "ledger" ∷ [];
  };
}

abbrev finds : String → ℕ → ℕ × Option Resolved
finds type n = (suc n, some downloaded)

resolve_component-env_example :
    (c' : Component) × ((resolve_component (λ s. s) "localhost:8080" finds registry_component 0).1
      ≡ resolved c')
    × (c'.id ≡ "ingest")
    × (c'.command ≡ "/cache/ledgers" ∷ [])
    × (lookup "WORKERS" c'.env ≡ some "8")
unfolding is_registry_reference translate_config lookup
resolve_component-env_example =
    resolve_component-env (λ s. s) "localhost:8080" finds registry_component 0 downloaded "WORKERS"
      refl refl
