-- ===== src/Pipeline/Loader.antt =====
-- internal/runner/loader.go: validatePipeline, on the fields of internal/model/pipeline.go that it
-- reads.
pub mod Sound
pub mod Distinct
use flowctl.Prelude.{
  String, Bool, true, false, ◌&&◌, Option, none, some, List, [], ◌∷◌, str_eq, if◌then◌else◌, any,
}
use flowctl.Pipeline.Model.{Component, Spec, Pipeline}
use flowctl.Pipeline.ApiVersion.{VersionError, validate, validate_kind}

-- The four loops of validatePipeline.
pub data Role : Type 0 where
  source processor sink pipeline : Role

pub data LoadError : Type 0 where
  version : VersionError → LoadError
  name_required no_component : LoadError
  id_required : Role → LoadError
  duplicate unlaunchable : Role → String → LoadError
  unknown_input : Role → String → String → LoadError
  image_required : String → LoadError

-- The keys of `componentIDs`, the last one first.
abbrev pub has_id : List String → String → Bool
has_id ids id = any (λ i. str_eq i id) ids

abbrev pub is_empty {ℓ} : {A : Type ℓ} → List A → Bool
is_empty [] = true
is_empty (x ∷ xs) = false

unfoldable pub launch_error : Role → Component → Option LoadError
launch_error role c =
    if is_empty c.command && str_eq c.image "" && str_eq c.type ""
    then some (unlaunchable role c.id)
    else none

unfoldable pub input_error : Role → String → List String → List String → Option LoadError
input_error role id ids [] = none
input_error role id ids (input ∷ inputs) =
    let rest = input_error role id ids inputs in
    if has_id ids input then rest else some (unknown_input role id input)

-- The checks of a component after its identifier was added to `ids`.
unfoldable pub role_error : Role → List String → Component → Option LoadError
unfolding launch_error input_error
role_error Role.source ids c = launch_error Role.source c
role_error Role.pipeline ids c = if str_eq c.image "" then some (image_required c.id) else none
role_error role ids c = elim (launch_error role c) [
  | some e ↦ some e
  | none ↦ input_error role c.id ids c.inputs
]

unfoldable pub component_error : Role → List String → Component → Option LoadError
unfolding role_error
component_error role ids c =
    if str_eq c.id ""
    then some (id_required role)
    else if has_id ids c.id
    then some (duplicate role c.id)
    else role_error role (c.id ∷ ids) c

-- One loop: the identifiers after it, or the first error.
pub data Checked : Type 0 where
  passed : List String → Checked
  refused : LoadError → Checked

unfoldable pub check_all : Role → List String → List Component → Checked
unfolding component_error
check_all role ids [] = passed ids
check_all role ids (c ∷ cs) = elim (component_error role ids c) [
  | some e ↦ refused e
  | none ↦ check_all role (c.id ∷ ids) cs
]

-- The next loop, after one that passed.
unfoldable pub and_then : Checked → Role → List Component → Checked
unfolding check_all
and_then (refused e) role cs = refused e
and_then (passed ids) role cs = check_all role ids cs

unfoldable pub check_components : Spec → Checked
unfolding and_then
check_components spec =
    and_then
      (and_then (and_then (check_all Role.source [] spec.sources) Role.processor spec.processors)
        Role.sink spec.sinks)
      Role.pipeline spec.pipelines

unfoldable pub validate_pipeline : Pipeline → Option LoadError
unfolding check_components validate validate_kind
validate_pipeline p = elim (validate p.api_version) [
  | some e ↦ some (version e)
  | none ↦ elim (validate_kind p.kind) [
    | some e ↦ some (version e)
    | none ↦
        if str_eq p.name ""
        then some name_required
        else if is_empty p.spec.sources && is_empty p.spec.pipelines
        then some no_component
        else elim (check_components p.spec) [ passed ids ↦ none | refused e ↦ some e ]
  ]
]
