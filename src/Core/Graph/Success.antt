-- ===== src/Core/Graph/Success.antt =====
-- When buildPipelineGraph of internal/core/pipeline_dag.go succeeds.
use flowctl.Prelude.{
  ◌≡◌, refl, ap, ◌∙◌, sym, String, true, ◌||◌, some, List, [], ◌∷◌, Option-cases, inl, inr, arith,
  All, is_some,
}
use flowctl.Prelude.Map.{lookup}
use flowctl.Pipeline.Model.{Component, Spec}
use flowctl.Pipeline.Loader.{has_id}
use flowctl.Core.Dag.{
  Dag, Built, built, broken, accepts_type, connect, connect_source_to_processor,
  connect_processor_to_sink,
}
use flowctl.Core.Dag.Wired.{
  Succeeds, Succeeds-bind, node_types, Kept, Kept-trans, connect-Succeeds, connect_source-Succeeds,
  connect_sink-Succeeds,
}
use flowctl.Core.Graph.{
  types_of, determine_input_event_types, index_components, each, connect_input, connect_sink,
  connect_all,
}
use flowctl.Core.Graph.Plan.{own_All, Typed, own_Typed, input_types-has, indexed}

pub each-Succeeds :
    {A D : Type 0} (Q : A → Type 0) (Inv : D → Type 0) (step : A → D → Built D)
    → ((x : A) → Q x → (d : D) → Inv d → Succeeds Inv (step x d))
    → (xs : List A) (d : D) → All Q xs
    → Inv d
    → Succeeds Inv (each step xs d)
unfolding each
each-Succeeds Q Inv step keep [] d hs h = h
each-Succeeds Q Inv step keep (x ∷ xs) d (hx, hs) h =
    Succeeds-bind Inv Inv (step x d) (each step xs) (keep x hx d h)
      (λ d' h'. each-Succeeds Q Inv step keep xs d' hs h')

-- What the registration of a pipeline leaves.
pub record Registered {P R : Type 0} (spec : Spec) (d : Dag P R) : Type 0 where
  pub sources : All (λ c. is_some (lookup c.id d.sources) ≡ true) spec.sources
  pub processors :
      All (λ c. node_types c.id d ≡ some (determine_input_event_types c spec)) spec.processors
  pub sinks : All (λ c. is_some (lookup c.id d.sink_channels) ≡ true) spec.sinks

any_All : (xs : List String) → All (λ x. Unit {0}) xs
any_All [] = tt
any_All (x ∷ xs) = (tt, any_All xs)

module _ {P R : Type 0} (d₀ : Dag P R) where
  -- A call that keeps what it starts from keeps the first graph.
  Kept-since :
      (d : Dag P R) (r : Built (Dag P R)) → Kept d₀ d → Succeeds (Kept d) r → Succeeds (Kept d₀) r
  Kept-since d (built d') h k = Kept-trans d₀ d d' h k
  Kept-since d (broken e) h k = k

  module _ (spec : Spec) (reg : Registered spec d₀) where
    both :
        {A : Type 0} (Q Q' : A → Type 0) (xs : List A)
        → All Q xs
        → All Q' xs
        → All (λ x. Q x × Q' x) xs
    both Q Q' [] h k = tt
    both Q Q' (x ∷ xs) (hx, h) (kx, k) = ((hx, kx), both Q Q' xs h k)

    -- A type of an input is one that the processor takes.
    accepted :
        (c : Component) (input t : String)
        → has_id c.inputs input ≡ true
        → (has_id (types_of input spec.sources) t || has_id (types_of input spec.processors) t)
          ≡ true
        → accepts_type (determine_input_event_types c spec) t ≡ true
    unfolding accepts_type determine_input_event_types
    accepted c input t has known = input_types-has spec c.inputs input t has known

    connect_source_each :
        (c source : Component) (input : String) (d : Dag P R)
        → node_types c.id d₀ ≡ some (determine_input_event_types c spec)
        → has_id c.inputs input ≡ true
        → lookup input (index_components spec.sources []) ≡ some source
        → Kept d₀ d
        → Succeeds (Kept d₀) (
            each
              (λ type. connect_source_to_processor source.id c.id type)
              source.output_event_types
              d)
    connect_source_each c source input d typed has found h =
        let ((there, outs), name) =
          indexed (λ s. (is_some (lookup s.id d₀.sources) ≡ true) × Typed spec.sources s)
            spec.sources input source (both _ _ spec.sources reg.sources (own_Typed spec.sources))
            found in
        each-Succeeds (λ t. has_id source.output_event_types t ≡ true) (Kept d₀)
          (λ type. connect_source_to_processor source.id c.id type)
          (λ t own d' h'.
            let known = ap (λ k. has_id (types_of k spec.sources) t) (sym name) ∙ outs t own in
            Kept-since d' _ h' (
              connect_source-Succeeds source.id c.id t (determine_input_event_types c spec) d'
                (ap (λ m. is_some (lookup source.id m)) h'.sources ∙ there) (h'.types c.id ∙ typed)
                (accepted c input t has (rw known refl))))
          source.output_event_types d (own_All source.output_event_types) h

    connect_each :
        (c upstream : Component) (input : String) (d : Dag P R)
        → node_types c.id d₀ ≡ some (determine_input_event_types c spec)
        → has_id c.inputs input ≡ true
        → lookup input (index_components spec.processors []) ≡ some upstream
        → Kept d₀ d
        → Succeeds
            (Kept d₀)
            (each (λ type. connect upstream.id c.id type) upstream.output_event_types d)
    connect_each c upstream input d typed has found h =
        let ((there, outs), name) =
          indexed
            (λ p.
              (node_types p.id d₀ ≡ some (determine_input_event_types p spec))
              × Typed spec.processors p)
            spec.processors input upstream
            (both _ _ spec.processors reg.processors (own_Typed spec.processors)) found in
        each-Succeeds (λ t. has_id upstream.output_event_types t ≡ true) (Kept d₀)
          (λ type. connect upstream.id c.id type)
          (λ t own d' h'.
            let known = ap (λ k. has_id (types_of k spec.processors) t) (sym name) ∙ outs t own in
            Kept-since d' _ h' (
              connect-Succeeds upstream.id c.id t (determine_input_event_types upstream spec)
                (determine_input_event_types c spec) d' (h'.types upstream.id ∙ there)
                (h'.types c.id ∙ typed) (accepted c input t has (rw known (ground arith)))))
          upstream.output_event_types d (own_All upstream.output_event_types) h

    connect_input-Succeeds :
        (c : Component)
        → node_types c.id d₀ ≡ some (determine_input_event_types c spec)
        → (input : String) → has_id c.inputs input ≡ true
        → (d : Dag P R) → Kept d₀ d
        → Succeeds (Kept d₀) (
            connect_input
              (index_components spec.sources [])
              (index_components spec.processors [])
              c
              input
              d)
    unfolding connect_input
    connect_input-Succeeds c typed input has d h =
        elim (Option-cases (lookup input (index_components spec.sources []))) [
          | inr (source, found) ↦
              rw (connect_input, found) (connect_source_each c source input d typed has found h)
          | inl missing ↦ elim (Option-cases (lookup input (index_components spec.processors []))) [
            | inr (upstream, found) ↦
                rw (connect_input, missing, found)
                  (connect_each c upstream input d typed has found h)
            | inl unknown ↦ rw (connect_input, missing, unknown) h
          ]
        ]

    connect_sink_step :
        (sink : Component)
        → is_some (lookup sink.id d₀.sink_channels) ≡ true
        → (input : String) (d : Dag P R) → Kept d₀ d
        → Succeeds (Kept d₀) (connect_sink (index_components spec.processors []) sink input d)
    unfolding connect_sink
    connect_sink_step sink there input d h =
        elim (Option-cases (lookup input (index_components spec.processors []))) [
          | inl unknown ↦ rw (connect_sink, unknown) h
          | inr (p, found) ↦
              let (typed, name) =
                indexed (λ p. node_types p.id d₀ ≡ some (determine_input_event_types p spec))
                  spec.processors input p reg.processors found in
              rw (connect_sink, found)
                (each-Succeeds (λ t. Unit {0}) (Kept d₀)
                  (λ type. connect_processor_to_sink p.id sink.id type)
                  (λ t own d' h'. Kept-since d' _ h' (
                    connect_sink-Succeeds p.id sink.id t (determine_input_event_types p spec) d'
                      (h'.types p.id ∙ typed)
                      (ap (λ m. is_some (lookup sink.id m)) h'.sinks ∙ there)))
                  p.output_event_types d (any_All p.output_event_types) h)
        ]

    pub connect_all-Succeeds : Succeeds (Kept d₀) (connect_all spec d₀)
    unfolding connect_all
    connect_all-Succeeds =
        let start : Kept d₀ d₀ = record { types = λ id. refl; sources = refl; sinks = refl } in
        Succeeds-bind (Kept d₀) (Kept d₀) _ _
          (each-Succeeds _ (Kept d₀) _
            (λ c typed d h.
              each-Succeeds _ (Kept d₀) _
                (λ input has d' h'. connect_input-Succeeds c typed input has d' h') c.inputs d
                (own_All c.inputs) h)
            spec.processors d₀ reg.processors start)
          (λ d h.
            each-Succeeds _ (Kept d₀) _
              (λ sink there d' h'.
                each-Succeeds (λ t. Unit {0}) (Kept d₀) _
                  (λ input u d'' h''. connect_sink_step sink there input d'' h'') sink.inputs d'
                  (any_All sink.inputs) h')
              spec.sinks d reg.sinks h)
