-- ===== src/Pipeline/Loader/Sound.antt =====
-- What a pipeline that passes the validation is.
use flowctl.Prelude.{
  String, ◌≡◌, refl, ◌≢◌, ◌⊎◌, true, false, none, List, [], ◌∷◌, eq_iff, arith, All, inl, inr,
  Bool-cases, Option-cases,
}
use flowctl.Pipeline.ApiVersion.{validate, validate_kind}
use flowctl.Pipeline.Model.{Component, Spec, Pipeline}
use flowctl.Pipeline.Loader.{
  Role, has_id, launch_error, input_error, role_error, component_error, Checked, passed, refused,
  check_all, and_then, check_components, validate_pipeline,
}

-- The identifiers of components, the last one first, before others.
abbrev pub push_ids : List String → List Component → List String
push_ids ids [] = ids
push_ids ids (c ∷ cs) = push_ids (c.id ∷ ids) cs

abbrev pub all_ids : Spec → List String
all_ids spec =
    push_ids (push_ids (push_ids (push_ids [] spec.sources) spec.processors) spec.sinks)
      spec.pipelines

abbrev pub AreDistinct : List String → Type 0
AreDistinct [] = Unit
AreDistinct (id ∷ ids) = (has_id ids id ≡ false) × AreDistinct ids

-- The component has an identifier and something to launch.
abbrev pub IsRunnable : Component → Type 0
IsRunnable c = (c.id ≢ "") × ((c.command ≢ []) ⊎ (c.image ≢ "") ⊎ (c.type ≢ ""))

abbrev pub Knows : List String → Component → Type 0
Knows ids c = All (λ input. has_id ids input ≡ true) c.inputs

-- What the loop of a role asks of a component, where `ids` are all the identifiers.
abbrev pub IsValidFor : Role → List String → Component → Type 0
IsValidFor Role.source ids c = IsRunnable c
IsValidFor Role.processor ids c = IsRunnable c × Knows ids c
IsValidFor Role.sink ids c = IsRunnable c × Knows ids c
IsValidFor Role.pipeline ids c = (c.id ≢ "") × (c.image ≢ "")

-- The identifiers of all components are distinct, every component has one and can be launched, and
-- every input names a component.
pub record IsValid (spec : Spec) : Type 0 where
  pub distinct : AreDistinct (all_ids spec)
  pub sources : All (IsValidFor Role.source (all_ids spec)) spec.sources
  pub processors : All (IsValidFor Role.processor (all_ids spec)) spec.processors
  pub sinks : All (IsValidFor Role.sink (all_ids spec)) spec.sinks
  pub pipelines : All (IsValidFor Role.pipeline (all_ids spec)) spec.pipelines

-- Every identifier of the first list is in the second.
abbrev Within : List String → List String → Type 0
Within ids all = (id : String) → has_id ids id ≡ true → has_id all id ≡ true

Within-push_ids : (ids : List String) (cs : List Component) → Within ids (push_ids ids cs)
Within-push_ids ids [] id h = h
Within-push_ids ids (c ∷ cs) id h = Within-push_ids (c.id ∷ ids) cs id (ground arith)

launch_error-IsRunnable :
    (role : Role) (c : Component) → c.id ≢ "" → launch_error role c ≡ none → IsRunnable c
unfolding launch_error
launch_error-IsRunnable role c named h =
    (named, ground (arith, eq_iff c.image "", eq_iff c.type ""))

input_error-Knows :
    (role : Role) (id : String) (ids all inputs : List String)
    → Within ids all
    → input_error role id ids inputs ≡ none
    → All (λ input. has_id all input ≡ true) inputs
unfolding input_error
input_error-Knows role id ids all [] w h = tt
input_error-Knows role id ids all (input ∷ inputs) w h = elim (Bool-cases (has_id ids input)) [
  | inl known ↦
      (w input known, input_error-Knows role id ids all inputs w (rw (known, input_error) at h))
  | inr unknown ↦ absurd (ground arith)
]

role_error-IsValidFor :
    (role : Role) (ids all : List String) (c : Component)
    → Within ids all
    → c.id ≢ ""
    → role_error role ids c ≡ none
    → IsValidFor role all c
unfolding role_error
role_error-IsValidFor Role.source ids all c w named h =
    launch_error-IsRunnable Role.source c named h
role_error-IsValidFor Role.processor ids all c w named h =
    elim (Option-cases (launch_error Role.processor c)) [
      | inl fine ↦ (
        launch_error-IsRunnable Role.processor c named fine,
        input_error-Knows Role.processor c.id ids all c.inputs w (rw (fine, role_error) at h),
      )
      | inr (e, bad) ↦ absurd (ground arith)
    ]
role_error-IsValidFor Role.sink ids all c w named h =
    elim (Option-cases (launch_error Role.sink c)) [
      | inl fine ↦ (
        launch_error-IsRunnable Role.sink c named fine,
        input_error-Knows Role.sink c.id ids all c.inputs w (rw (fine, role_error) at h),
      )
      | inr (e, bad) ↦ absurd (ground arith)
    ]
role_error-IsValidFor Role.pipeline ids all c w named h = (named, ground (arith, eq_iff c.image ""))

-- A component that passes: its identifier is new, and it is what its role asks.
component_error-none :
    (role : Role) (ids all : List String) (c : Component)
    → Within (c.id ∷ ids) all
    → component_error role ids c ≡ none
    → (has_id ids c.id ≡ false) × IsValidFor role all c
unfolding component_error
component_error-none role ids all c w h = (
  ground arith,
  role_error-IsValidFor role (c.id ∷ ids) all c w (ground (arith, eq_iff c.id "")) (ground arith),
)

-- A loop that passes adds the identifiers of its components, which stay distinct.
check_all_sound :
    (role : Role) (ids out all : List String) (cs : List Component)
    → Within (push_ids ids cs) all
    → AreDistinct ids
    → check_all role ids cs ≡ passed out
    → (out ≡ push_ids ids cs) × AreDistinct (push_ids ids cs) × All (IsValidFor role all) cs
unfolding check_all
check_all_sound role ids out all [] w d h = (ground arith, d, tt)
check_all_sound role ids out all (c ∷ cs) w d h = elim (Option-cases (component_error role ids c)) [
  | inl fine ↦
      let near : Within (c.id ∷ ids) all = λ i k. w i (Within-push_ids (c.id ∷ ids) cs i k) in
      let (new, valid) = component_error-none role ids all c near fine in
      let (same, distinct, rest) =
        check_all_sound role (c.id ∷ ids) out all cs w (new, d) (rw (fine, check_all) at h) in
      (same, distinct, (valid, rest))
  | inr (e, bad) ↦ absurd (ground arith)
]

and_then-passed :
    (before : Checked) (role : Role) (cs : List Component) (out : List String)
    → and_then before role cs ≡ passed out
    → (ids : List String) × (before ≡ passed ids) × (check_all role ids cs ≡ passed out)
unfolding and_then
and_then-passed (passed ids) role cs out h = (ids, refl, h)
and_then-passed (refused e) role cs out h = cc

check_components_sound :
    (spec : Spec) (out : List String) → check_components spec ≡ passed out → IsValid spec
unfolding check_components
check_components_sound spec out h =
    let all = all_ids spec in
    let (k, third, fourth) = and_then-passed _ Role.pipeline spec.pipelines out h in
    let (j, second, third') = and_then-passed _ Role.sink spec.sinks k third in
    let (i, first, second') = and_then-passed _ Role.processor spec.processors j second in
    let a = push_ids [] spec.sources in
    let b = push_ids a spec.processors in
    let c = push_ids b spec.sinks in
    let late : Within c all = Within-push_ids c spec.pipelines in
    let middle : Within b all = λ id x. late id (Within-push_ids b spec.sinks id x) in
    let early : Within a all = λ id x. middle id (Within-push_ids a spec.processors id x) in
    let (i-a, d₁, sources) = check_all_sound Role.source [] i all spec.sources early tt first in
    let (j-b, d₂, processors) =
      check_all_sound Role.processor a j all spec.processors middle d₁ (rw i-a at second') in
    let (k-c, d₃, sinks) =
      check_all_sound Role.sink b k all spec.sinks late d₂ (rw j-b at third') in
    let (o-d, d₄, pipelines) =
      check_all_sound Role.pipeline c out all spec.pipelines (λ id x. x) d₃ (rw k-c at fourth) in
    record {
      distinct = d₄;
      sources = sources;
      processors = processors;
      sinks = sinks;
      pipelines = pipelines;
    }

-- A pipeline that passes the validation has an accepted version, the kind "Pipeline", a name, and a
-- source or a pipeline component; its components' identifiers are distinct and not empty, each
-- component can be launched by a command, an image or a type, a pipeline component by an image, and
-- every input of a processor or a sink is the identifier of a component.
pub validate_pipeline-IsValid :
    (p : Pipeline)
    → validate_pipeline p ≡ none
    → (validate p.api_version ≡ none)
      × (p.kind ≡ "Pipeline")
      × (p.name ≢ "")
      × ((p.spec.sources ≢ []) ⊎ (p.spec.pipelines ≢ []))
      × IsValid p.spec
unfolding validate_pipeline validate_kind
validate_pipeline-IsValid p h = (
  ground arith,
  ground (arith, eq_iff p.kind "Pipeline"),
  ground (arith, eq_iff p.name ""),
  ground arith,
  valid_of (check_components p.spec) refl,
)
  where
    valid_of : (r : Checked) → check_components p.spec ≡ r → IsValid p.spec
    valid_of (passed ids) e = check_components_sound p.spec ids e
    valid_of (refused e') e = absurd (ground arith)
