-- ===== src/Runner/Startup.antt =====
-- The start of a pipeline's components (startComponents and getComponentIDs of
-- internal/runner/pipeline_runner.go). The orchestrator is a state of any type and a function that starts
-- one component in it. Go's recursion over the pipelines' dependencies is on fuel here: it has no bound
-- in the code.
pub mod Order
pub mod Calls
pub mod Termination
use flowctl.Prelude.{
  ℕ, zero, suc, String, Bool, true, false, ◌&&◌, not, Option, none, some, List, [], ◌∷◌, ◌++◌, map,
  str_eq, if◌then◌else◌,
}
use flowctl.Pipeline.Model.{Component, Spec}
use flowctl.Pipeline.Loader.{has_id}

-- The identifiers of all components, in the order of the roles.
unfoldable pub component_ids : Spec → List String
component_ids spec =
    map (λ c. c.id) (spec.sources ++ spec.processors ++ spec.sinks ++ spec.pipelines)

-- A start, so far: the orchestrator and the keys of `started`, the last one first; or the first error; or
-- no fuel.
pub data Startup (S : Type 0) : Type 0 where
  running : S → List String → Startup S
  failed : S → String → Startup S
  exhausted : Startup S

abbrev pub after : {S : Type 0} → Startup S → (S → List String → Startup S) → Startup S
after (running s started) next = next s started
after (failed s e) next = failed s e
after exhausted next = exhausted

module _ {S : Type 0} (pipelines : List Component) where
  -- The inner loop over the pipelines, for one dependency; `start` is the recursive call.
  unfoldable pub start_matches :
      (Component → S → List String → Startup S)
      → String
      → List Component
      → S
      → List String
      → Startup S
  start_matches start dependency [] s started = running s started
  start_matches start dependency (p ∷ ps) s started =
      after
        (if str_eq p.id dependency && not (has_id started p.id)
          then start p s started
          else running s started)
        (λ s' started'. start_matches start dependency ps s' started')

  unfoldable pub start_dependencies :
      (Component → S → List String → Startup S) → List String → S → List String → Startup S
  unfolding start_matches
  start_dependencies start [] s started = running s started
  start_dependencies start (dependency ∷ ds) s started =
      after (start_matches start dependency pipelines s started)
        (λ s' started'. start_dependencies start ds s' started')

module _ {S : Type 0} (start_component : String → Component → S → S × Option String) where
  unfoldable pub launch : String → Component → S → List String → Startup S
  launch role c s started =
      let (s', e) = start_component role c s in
      elim e [ none ↦ running s' started | some message ↦ failed s' message ]

  -- The loop of one role.
  unfoldable pub start_role : String → List Component → S → List String → Startup S
  unfolding launch
  start_role role [] s started = running s started
  start_role role (c ∷ cs) s started =
      after (launch role c s started) (λ s' started'. start_role role cs s' started')

  module _ (pipelines : List Component) where
    unfoldable pub start_pipeline : ℕ → Component → S → List String → Startup S
    unfolding start_dependencies launch
    start_pipeline zero p s started = exhausted
    start_pipeline (suc fuel) p s started =
        if has_id started p.id
        then running s started
        else after (start_dependencies pipelines (start_pipeline fuel) p.depends_on s started)
            (λ s' started'. launch "pipeline" p s' (p.id ∷ started'))

    unfoldable pub start_all : ℕ → List Component → S → List String → Startup S
    unfolding start_pipeline
    start_all fuel [] s started = running s started
    start_all fuel (p ∷ ps) s started =
        after (start_pipeline fuel p s started) (λ s' started'. start_all fuel ps s' started')

  unfoldable pub start_components : ℕ → Spec → S → Startup S
  unfolding start_role start_all
  start_components fuel spec s = after (start_role "source" spec.sources s []) (λ s₁ m₁.
      after (start_role "processor" spec.processors s₁ m₁) (λ s₂ m₂.
        after (start_role "sink" spec.sinks s₂ m₂)
          (λ s₃ m₃. start_all spec.pipelines fuel spec.pipelines s₃ m₃)))
