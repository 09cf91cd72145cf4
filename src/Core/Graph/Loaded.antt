-- ===== src/Core/Graph/Loaded.antt =====
-- Which pipelines buildPipelineGraph of internal/core/pipeline_dag.go takes, and what it makes of one
-- without processors.
use mathlib.Core.Path.{subst}
use flowctl.Prelude.{◌≡◌, refl, sym, is_some, inl, inr, String, none, List, [], ◌∷◌, Bool-cases, ℕ}
use flowctl.Prelude.Map.{lookup}
use flowctl.Pipeline.Model.{Component, Spec, Pipeline}
use flowctl.Pipeline.Loader.{validate_pipeline}
use flowctl.Pipeline.Loader.Sound.{push_ids, validate_pipeline-IsValid}
use flowctl.Core.Dag.{Dag, Built, built, broken, ◌>>=◌, new_dag, add_source, add_sink_channel}
use flowctl.Core.Dag.Wired.{Succeeds}
use flowctl.Core.Graph.{
  each, register_sources, register_processors, register_sinks, connect_input, connect_sink,
  connect_all, index_components, build_pipeline_graph,
}
use flowctl.Core.Graph.Success.{Registered}
use flowctl.Pipeline.Loader.Distinct.{before_distinct, own_distinct}
use flowctl.Core.Graph.Registration.{build-Succeeds}

-- The graph of every pipeline that the loader accepts is built, with a node for each processor that takes
-- the event types of its inputs, and a channel for each source and each sink.
pub loaded_graph_builds :
    {P R : Type 0} (make_source : Component → R) (make_processor : Component → P) (p : Pipeline)
    (buffer_size : ℕ)
    → validate_pipeline p ≡ none
    → Succeeds
        (Registered {P = P} {R = R} p.spec)
        (build_pipeline_graph make_source make_processor p.spec (new_dag buffer_size))
loaded_graph_builds make_source make_processor p buffer_size h =
    let valid = (validate_pipeline-IsValid p h).4 in
    let sinks = before_distinct _ p.spec.pipelines valid.distinct in
    let processors = before_distinct _ p.spec.sinks sinks in
    let sources = before_distinct _ p.spec.processors processors in
    build-Succeeds make_source make_processor p.spec buffer_size
      (own_distinct [] p.spec.sources sources)
      (own_distinct (push_ids [] p.spec.sources) p.spec.processors processors)

-- What holds of the result, if the call succeeds.
abbrev pub Ensures : {A : Type 0} → (A → Type 0) → Built A → Type 0
Ensures Q (built a) = Q a
Ensures Q (broken e) = Unit

pub Ensures-bind :
    {A B : Type 0} (Q : A → Type 0) (Q' : B → Type 0) (m : Built A) (f : A → Built B)
    → Ensures Q m
    → ((a : A) → Q a → Ensures Q' (f a))
    → Ensures Q' (m >>= f)
Ensures-bind Q Q' (built a) f h k = k a h
Ensures-bind Q Q' (broken e) f h k = tt

pub each-Ensures :
    {A D : Type 0} (Inv : D → Type 0) (step : A → D → Built D)
    → ((x : A) (d : D) → Inv d → Ensures Inv (step x d))
    → (xs : List A) (d : D) → Inv d
    → Ensures Inv (each step xs d)
unfolding each
each-Ensures Inv step keep [] d h = h
each-Ensures Inv step keep (x ∷ xs) d h =
    Ensures-bind Inv Inv (step x d) (each step xs) (keep x d h)
      (λ d' h'. each-Ensures Inv step keep xs d' h')

-- No node and no goroutine that forwards.
abbrev pub IsSilent : {P R : Type 0} → Dag P R → Type 0
IsSilent d = (d.nodes ≡ []) × (d.adapters ≡ [])

module _ {P R : Type 0} where
  add_source-IsSilent :
      (id : String) (source : R) (d : Dag P R)
      → IsSilent d
      → Ensures IsSilent (add_source id source d)
  unfolding add_source
  add_source-IsSilent id source d h = elim (Bool-cases (is_some (lookup id d.sources))) [
    | inl there ↦ rw (add_source, there) tt
    | inr new ↦ rw (add_source, new) h
  ]

  register_sinks-IsSilent :
      (cs : List Component) (d : Dag P R) → IsSilent d → IsSilent (register_sinks cs d)
  unfolding register_sinks add_sink_channel
  register_sinks-IsSilent [] d h = h
  register_sinks-IsSilent (c ∷ cs) d h = register_sinks-IsSilent cs (add_sink_channel c.id d) h

  connect_all-IsSilent :
      (spec : Spec) (d : Dag P R)
      → spec.processors ≡ []
      → IsSilent d
      → Ensures IsSilent (connect_all spec d)
  unfolding connect_all each connect_sink lookup
  connect_all-IsSilent spec d e h =
      subst
        (λ ps. Ensures IsSilent (
          each
            (λ c.
              each
                (λ input.
                  connect_input (index_components spec.sources []) (index_components ps []) c input)
                c.inputs)
            ps d
          >>= λ d'.
              each
                (λ sink.
                  each (λ input. connect_sink (index_components ps []) sink input) sink.inputs)
                spec.sinks d'))
        (sym e)
        (each-Ensures IsSilent _
          (λ sink d' h'.
            each-Ensures IsSilent (λ input. connect_sink [] sink input) (λ input d'' h''. h'')
              sink.inputs d' h')
          spec.sinks d h)

silent :
    {P R : Type 0} (make_source : Component → R) (make_processor : Component → P) (spec : Spec)
    (buffer_size : ℕ)
    → spec.processors ≡ []
    → Ensures
        (IsSilent {P = P} {R = R})
        (build_pipeline_graph make_source make_processor spec (new_dag buffer_size))
unfolding build_pipeline_graph register_sources register_processors each new_dag
silent make_source make_processor spec buffer_size e =
    Ensures-bind IsSilent IsSilent _ _
      (each-Ensures IsSilent _ (λ c d h. add_source-IsSilent c.id (make_source c) d h) spec.sources
        (new_dag buffer_size) (refl, refl))
      (λ d₁ h₁.
        Ensures-bind IsSilent IsSilent _ _
          (subst (λ ps. Ensures IsSilent (register_processors make_processor spec ps d₁)) (sym e)
            h₁)
          (λ d₂ h₂.
            connect_all-IsSilent spec (register_sinks spec.sinks d₂) e
              (register_sinks-IsSilent spec.sinks d₂ h₂)))

-- The graph of a pipeline without processors has nothing that moves an event: no node and no goroutine that
-- takes events from a source, whatever sinks take the sources as inputs.
pub direct_graph-IsSilent :
    {P R : Type 0} (make_source : Component → R) (make_processor : Component → P) (spec : Spec)
    (buffer_size : ℕ) (d : Dag P R)
    → spec.processors ≡ []
    → build_pipeline_graph make_source make_processor spec (new_dag buffer_size) ≡ built d
    → IsSilent d
direct_graph-IsSilent make_source make_processor spec buffer_size d e h =
    subst (Ensures IsSilent) h (silent make_source make_processor spec buffer_size e)
