-- ===== src/Tests/Validator.antt =====
-- Examples for the validator, at the pipeline of the loader's examples.
use flowctl.Prelude.{String, ◌≡◌, refl, ◌↔◌, true, false, none, List, [], ◌∷◌, All, arith, eq_iff}
use flowctl.Prelude.Map.{StringMap}
use flowctl.Pipeline.ApiVersion
use flowctl.Pipeline.Loader.{validate_pipeline}
use flowctl.Pipeline.Model.{Pipeline}
use flowctl.Validator.{validate}
use flowctl.Validator.Accepted.{IsAccepted}
use flowctl.Validator.Loads.{IsNamed, valid-loads}
use flowctl.Validator.Ports.{all_components}
use flowctl.Validator.Sound.{validate-IsAccepted}
use flowctl.Tests.Loading.{pipeline, component}

abbrev quoted : String → String
quoted s = s

abbrev stored_order : StringMap (List String) → StringMap (List String)
stored_order m = m

-- A processor that names itself as its input.
abbrev looped : Pipeline
looped = record pipeline {
  spec = record pipeline.spec { processors = component "processor" ("processor" ∷ []) ∷ [] };
}

-- Two components on one port.
abbrev crowded : Pipeline
crowded = record pipeline {
  spec = record pipeline.spec {
    sources = record (component "source" []) { env = ("PORT", "9090") ∷ [] } ∷ [];
    sinks = record (component "sink" ("source" ∷ [])) { env = ("PORT", "9090") ∷ [] } ∷ [];
  };
}

valid_run : (validate quoted (λ path. false) stored_order pipeline).valid ≡ true
unfolding validate
valid_run = refl

looped_run : (validate quoted (λ path. false) stored_order looped).valid ≡ false
unfolding validate
looped_run = refl

looped_loads : validate_pipeline looped ≡ none
unfolding validate_pipeline
looped_loads = refl

crowded_run : (validate quoted (λ path. false) stored_order crowded).valid ≡ false
unfolding validate
crowded_run = refl

validate-IsAccepted_example :
    ((validate quoted (λ path. false) stored_order pipeline).valid ≡ true) ↔ IsAccepted pipeline
validate-IsAccepted_example =
    validate-IsAccepted quoted (λ path. false) stored_order (λ P m. (λ h. h, λ h. h)) pipeline

version_fine : ApiVersion.validate "flowctl/v1" ≡ none
unfolding ApiVersion.validate
version_fine = refl

named : All IsNamed (all_components pipeline.spec)
named = (
  λ e. ground (arith, eq_iff "source" ""),
  (λ e. ground (arith, eq_iff "processor" ""), (λ e. ground (arith, eq_iff "sink" ""), tt)),
)

valid-loads_example : validate_pipeline pipeline ≡ none
unfolding validate
valid-loads_example =
    valid-loads quoted (λ path. false) stored_order (λ P m. (λ h. h, λ h. h)) pipeline refl
      version_fine refl named refl
