-- ===== src/Validator/Loads.antt =====
-- What internal/validator/validator.go accepts, internal/runner/loader.go loads.
use flowctl.Prelude.{
  String, ◌≡◌, refl, ◌≢◌, ◌↔◌, Bool, ◌&&◌, true, false, none, List, [], ◌∷◌, ◌++◌, str_eq, eq_iff,
  arith, All, All-append_iff,
}
use flowctl.Prelude.Map.{StringMap}
use flowctl.Pipeline.Model.{Component, Pipeline}
use flowctl.Pipeline.ApiVersion
use flowctl.Pipeline.ApiVersion.{validate_kind}
use flowctl.Pipeline.Loader.{
  Role, has_id, is_empty, launch_error, input_error, role_error, component_error, passed, check_all,
  and_then, check_components, validate_pipeline,
}
use flowctl.Pipeline.Loader.Sound.{AreDistinct}
use flowctl.Validator.{validate}
use flowctl.Validator.Accepted.{IsLaunchable, IsConnected, AreConnected, inner_ids, IsAccepted}
use flowctl.Validator.Checks.{known_after}
use flowctl.Validator.Errors.{AreDistinct-known_after}
use flowctl.Validator.Ports.{all_components}
use flowctl.Validator.Sound.{validate-IsAccepted}

abbrev pub IsNamed : Component → Type 0
IsNamed c = c.id ≢ ""

-- Each component passes its checks in turn.
abbrev Pass : Role → List String → List Component → Type 0
Pass role ids [] = Unit
Pass role ids (c ∷ cs) = (component_error role ids c ≡ none) × Pass role (c.id ∷ ids) cs

check_all_passed :
    (role : Role) (ids : List String) (cs : List Component)
    → Pass role ids cs
    → check_all role ids cs ≡ passed (known_after ids cs)
unfolding check_all
check_all_passed role ids [] h = refl
check_all_passed role ids (c ∷ cs) (fine, rest) =
    rw (fine, check_all) (check_all_passed role (c.id ∷ ids) cs rest)

component_passes :
    (role : Role) (ids : List String) (c : Component)
    → IsNamed c
    → has_id ids c.id ≡ false
    → role_error role (c.id ∷ ids) c ≡ none
    → component_error role ids c ≡ none
unfolding component_error
component_passes role ids c named new fine = ground (arith, named, new, fine, eq_iff c.id "")

launch_error-none : (role : Role) (c : Component) → IsLaunchable c → launch_error role c ≡ none
unfolding launch_error
launch_error-none role c h = ground (arith, h, eq_iff c.image "", eq_iff c.type "")

input_error-none :
    (role : Role) (id : String) (known ids inputs : List String)
    → ((i : String) → has_id known i ≡ true → has_id ids i ≡ true)
    → All (λ input. has_id known input ≡ true) inputs
    → input_error role id ids inputs ≡ none
unfolding input_error
input_error-none role id known ids [] w h = refl
input_error-none role id known ids (input ∷ inputs) w (k, h) =
    rw (w input k, input_error) (input_error-none role id known ids inputs w h)

module _ (known ids : List String) (c : Component) (launch : IsLaunchable c)
    (within : (i : String) → has_id known i ≡ true → has_id ids i ≡ true)
    (inputs : All (λ input. has_id known input ≡ true) c.inputs) where
  processor_passes : role_error Role.processor ids c ≡ none
  unfolding role_error
  processor_passes =
      rw (launch_error-none Role.processor c launch, role_error)
        (input_error-none Role.processor c.id known ids c.inputs within inputs)

  sink_passes : role_error Role.sink ids c ≡ none
  unfolding role_error
  sink_passes =
      rw (launch_error-none Role.sink c launch, role_error)
        (input_error-none Role.sink c.id known ids c.inputs within inputs)

sources-Pass :
    (ids : List String) (cs : List Component)
    → All IsNamed cs
    → All IsLaunchable cs
    → AreDistinct (known_after ids cs)
    → Pass Role.source ids cs
unfolding role_error
sources-Pass ids [] n l d = tt
sources-Pass ids (c ∷ cs) (named, n) (launch, l) d = (
  component_passes Role.source ids c named (AreDistinct-known_after (c.id ∷ ids) cs d).0
      (launch_error-none Role.source c launch),
  sources-Pass (c.id ∷ ids) cs n l d,
)

processors-Pass :
    (ids : List String) (cs : List Component)
    → All IsNamed cs
    → All IsLaunchable cs
    → AreDistinct (known_after ids cs)
    → AreConnected ids cs
    → Pass Role.processor ids cs
processors-Pass ids [] n l d w = tt
processors-Pass ids (c ∷ cs) (named, n) (launch, l) d (here, w) = (
  component_passes Role.processor ids c named (AreDistinct-known_after (c.id ∷ ids) cs d).0
      (processor_passes ids (c.id ∷ ids) c launch (λ i k. ground (arith, k)) here.2),
  processors-Pass (c.id ∷ ids) cs n l d w,
)

sinks-Pass :
    (known ids : List String) (cs : List Component)
    → ((i : String) → has_id known i ≡ true → has_id ids i ≡ true)
    → All IsNamed cs
    → All IsLaunchable cs
    → AreDistinct (known_after ids cs)
    → All (IsConnected known) cs
    → Pass Role.sink ids cs
sinks-Pass known ids [] within n l d w = tt
sinks-Pass known ids (c ∷ cs) within (named, n) (launch, l) d (here, w) =
    let wider : (i : String) → has_id known i ≡ true → has_id (c.id ∷ ids) i ≡ true =
      λ i k. ground (arith, within i k) in
    (
      component_passes Role.sink ids c named (AreDistinct-known_after (c.id ∷ ids) cs d).0
          (sink_passes known (c.id ∷ ids) c launch wider here.2),
      sinks-Pass known (c.id ∷ ids) cs wider n l d w,
    )

components_pass :
    (p : Pipeline)
    → IsAccepted p
    → All IsNamed (all_components p.spec)
    → p.spec.pipelines ≡ []
    → check_components p.spec ≡ passed (known_after (inner_ids p.spec) p.spec.sinks)
unfolding check_components and_then check_all
components_pass p accepted named none_left =
    let spec = p.spec in
    let (n, n_sinks) =
      (All-append_iff IsNamed (spec.sources ++ spec.processors) spec.sinks).0 named in
    let (n_sources, n_processors) = (All-append_iff IsNamed spec.sources spec.processors).0 n in
    let (l, l_sinks) =
      (All-append_iff IsLaunchable (spec.sources ++ spec.processors) spec.sinks).0
        accepted.launchable in
    let (l_sources, l_processors) =
      (All-append_iff IsLaunchable spec.sources spec.processors).0 l in
    let a = known_after [] spec.sources in
    let b = known_after a spec.processors in
    let d_b = AreDistinct-known_after b spec.sinks accepted.distinct in
    let d_a = AreDistinct-known_after a spec.processors d_b in
    rw
      (
        check_all_passed Role.source [] spec.sources
            (sources-Pass [] spec.sources n_sources l_sources d_a),
        check_all_passed Role.processor a spec.processors
            (processors-Pass a spec.processors n_processors l_processors d_b accepted.processors),
        check_all_passed Role.sink b spec.sinks
            (sinks-Pass b b spec.sinks (λ i k. k) n_sinks l_sinks accepted.distinct accepted.sinks),
        none_left,
      )
      refl

-- A pipeline that Validate reports as valid also passes the loader's validation, if its version and its
-- kind do, none of its identifiers is empty, and it has no pipeline components, none of which Validate
-- looks at.
pub valid-loads :
    (quote : String → String) (missing : String → Bool)
    (visit : StringMap (List String) → StringMap (List String))
    (visits : (P : String × List String → Type 0) (m : StringMap (List String))
      → All P (visit m) ↔ All P m)
    (p : Pipeline)
    → (validate quote missing visit p).valid ≡ true
    → ApiVersion.validate p.api_version ≡ none
    → p.kind ≡ "Pipeline"
    → All IsNamed (all_components p.spec)
    → p.spec.pipelines ≡ []
    → validate_pipeline p ≡ none
unfolding validate_pipeline validate_kind
valid-loads quote missing visit visits p valid version kind named none_left =
    let accepted = (validate-IsAccepted quote missing visit visits p).0 valid in
    let kind_fine : validate_kind p.kind ≡ none = ground (arith, eq_iff p.kind "Pipeline", kind) in
    let has_name : str_eq p.name "" ≡ false = ground (arith, eq_iff p.name "", accepted.named) in
    let has_part : (is_empty p.spec.sources && is_empty p.spec.pipelines) ≡ false =
      ground (arith, accepted.has_source) in
    rw
      (
        version,
        kind_fine,
        has_name,
        has_part,
        components_pass p accepted named none_left,
        validate_pipeline,
      )
      refl
