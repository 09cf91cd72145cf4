-- ===== src/Runner/Wiring/Edges.antt =====
-- Which edges WireAll of internal/runner/stream_orchestrator.go launches, and that a failure cancels them.
use flowctl.Prelude.{
  String, ◌≡◌, refl, sym, ap, ◌∙◌, ◌⊎◌, ◌≢◌, Bool, true, false, ◌&&◌, ◌||◌, not, List, [], ◌∷◌,
  ◌++◌, map, str_eq, arith, if◌then◌else◌, any, Bool-cases, Option-cases, inl, inr,
}
use mathlib.Core.List.{append-nil}
use flowctl.Proto.Messages.{ComponentInfo}
use flowctl.Pipeline.Model.{Component, Spec}
use flowctl.Pipeline.Loader.{is_empty}
use flowctl.Runner.Stream.{Cause, has_input, source_bounded}
use flowctl.Runner.Wiring.Plan.{
  forget, targets, shape, source_plan, plan, map-shape-append, append_assoc, map-shape-chain_edges,
  last_id-final,
}
use flowctl.Runner.Wiring.{
  Edge, sink_edge, WireError, Opening, stream_events, process, consume, Answer, answer, failure,
  Transport, Orchestrator, Wired, done, stop, then_with, stream_params, get_component_endpoint,
  get_connection, open_at, reach, open_processors, open_sinks, chain_edges, last_id, first_id,
  launch_edges, wire_source, wire_sources, wire_all,
}

-- What holds of an orchestrator after a step that succeeds; a step that does not has cancelled it.
abbrev Ensures : {S A : Type 0} → (A → Orchestrator S → Type 0) → Wired S A → Type 0
Ensures P (done x o) = P x o
Ensures P (stop e o) = o.cancelled ≡ true

Ensures-then :
    {S A B : Type 0} (P : A → Orchestrator S → Type 0) (Q : B → Orchestrator S → Type 0)
    (r : Wired S A) (next : A → Orchestrator S → Wired S B)
    → Ensures P r
    → ((x : A) (o : Orchestrator S) → P x o → Ensures Q (next x o))
    → Ensures Q (then_with r next)
Ensures-then P Q (done x o) next h k = k x o h
Ensures-then P Q (stop e o) next h k = h

Ensures-map :
    {S A : Type 0} (P Q : A → Orchestrator S → Type 0) (r : Wired S A)
    → ((x : A) (o : Orchestrator S) → P x o → Q x o)
    → Ensures P r
    → Ensures Q r
Ensures-map P Q (done x o) k h = k x o h
Ensures-map P Q (stop e o) k h = h

Answer-cases :
    {A : Type 0} (r : Answer A) → ((e : Cause) × (r ≡ failure e)) ⊎ ((x : A) × (r ≡ answer x))
Answer-cases (failure e) = inl (e, refl)
Answer-cases (answer x) = inr (x, refl)

-- The step launches no edge.
abbrev Keeps : {S A : Type 0} → Orchestrator S → A → Orchestrator S → Type 0
Keeps o x o' = o'.launched ≡ o.launched

module _ {S : Type 0} (t : Transport S) where
  get_connection-launched :
      (endpoint : String) (o : Orchestrator S)
      → (get_connection t endpoint o).0.launched ≡ o.launched
  unfolding get_connection
  get_connection-launched endpoint o =
      elim (Bool-cases (any (λ known. str_eq known endpoint) o.connections)) [
        | inl old ↦ rw (old, get_connection) refl
        | inr new ↦ elim (Option-cases (t.connect endpoint o.net).1) [
          | inl up ↦ rw (new, up, get_connection) refl
          | inr (e, down) ↦ rw (new, down, get_connection) refl
        ]
      ]

  open_at-Ensures :
      (from to kind id : String) (opening : Opening) (info : ComponentInfo) (o : Orchestrator S)
      → Ensures (Keeps o) (open_at t from to kind id opening info o)
  unfolding open_at
  open_at-Ensures from to kind id opening info o =
      elim (Option-cases (t.open_stream id opening o.net).1) [
        | inl up ↦ rw (up, open_at) refl
        | inr (e, down) ↦ rw (down, open_at) refl
      ]

  reach-Ensures :
      (from to kind id : String) (opening : Opening) (o : Orchestrator S)
      → Ensures (Keeps o) (reach t from to kind id opening o)
  unfolding reach
  reach-Ensures from to kind id opening o =
      let found = record o { net = (get_component_endpoint t id o.net).0 } in
      elim (Answer-cases (get_component_endpoint t id o.net).1) [
        | inl (e, missing) ↦ rw (missing, reach) refl
        | inr (info, here) ↦ elim (Option-cases (get_connection t info.endpoint found).1) [
          | inr (e, down) ↦ rw (here, down, reach) refl
          | inl up ↦
              rw (here, up, reach)
                (Ensures-map (Keeps (get_connection t info.endpoint found).0) (Keeps o)
                  (open_at t from to kind id opening info (get_connection t info.endpoint found).0)
                  (λ x o' h. h ∙ get_connection-launched info.endpoint found)
                  (open_at-Ensures from to kind id opening info
                    (get_connection t info.endpoint found).0))
        ]
      ]

  open_processors-Ensures :
      (source : String) (ps : List Component) (o : Orchestrator S)
      → Ensures (Keeps o) (open_processors t source ps o)
  unfolding open_processors
  open_processors-Ensures source [] o = refl
  open_processors-Ensures source (p ∷ ps) o =
      Ensures-then (Keeps o) (Keeps o) (reach t source p.id "processor" p.id process o)
        (λ info o'. open_processors t source ps o')
        (reach-Ensures source p.id "processor" p.id process o)
        (λ info o' h. rw (← h) (open_processors-Ensures source ps o'))

  -- The streams of the sinks, next to an unchanged list of edges.
  abbrev Lanes :
      Orchestrator S
      → List (String × List String)
      → List (String × List String)
      → Orchestrator S
      → Type 0
  Lanes o sinks streams o' = (o'.launched ≡ o.launched) × (map forget streams ≡ sinks)

  open_sinks-Ensures :
      (last kind source : String) (direct : Bool) (sinks : List Component) (o : Orchestrator S)
      → Ensures
          (Lanes o (targets direct source sinks))
          (open_sinks t last kind source direct sinks o)
  unfolding open_sinks has_input
  open_sinks-Ensures last kind source direct [] o = (refl, refl)
  open_sinks-Ensures last kind source direct (sink ∷ sinks) o =
      elim (Bool-cases (direct && not (has_input sink.inputs source))) [
        | inl other ↦ rw (other, open_sinks) (open_sinks-Ensures last kind source direct sinks o)
        | inr mine ↦
            rw (mine, open_sinks)
              (Ensures-then (Keeps o) (Lanes o ((sink.id, []) ∷ targets direct source sinks))
                (reach t last sink.id kind sink.id consume o)
                (λ info o'.
                  then_with (open_sinks t last kind source direct sinks o')
                    (λ streams o''. done ((sink.id, info.input_event_types) ∷ streams) o''))
                (reach-Ensures last sink.id kind sink.id consume o)
                (λ info o' h.
                  Ensures-then (Lanes o' (targets direct source sinks))
                    (Lanes o ((sink.id, []) ∷ targets direct source sinks))
                    (open_sinks t last kind source direct sinks o')
                    (λ streams o''. done ((sink.id, info.input_event_types) ∷ streams) o'')
                    (open_sinks-Ensures last kind source direct sinks o')
                    (λ streams o'' (k, e). (k ∙ h, ap (λ xs. (sink.id, []) ∷ xs) e))))
      ]

  -- The step adds these edges.
  abbrev Adds : List Edge → Orchestrator S → Unit {0} → Orchestrator S → Type 0
  Adds edges o u o' = map shape o'.launched ≡ map shape o.launched ++ edges

  launch_edges-Ensures :
      (ps sinks : List Component) (source : Component) (streams : List (String × List String))
      (o : Orchestrator S)
      → map forget streams ≡ targets (is_empty ps) source.id sinks
      → Ensures (Adds (source_plan ps sinks source) o) (launch_edges ps source streams o)
  unfolding launch_edges source_bounded
  launch_edges-Ensures [] sinks source [] o h = refl
  launch_edges-Ensures [] sinks source (lane ∷ lanes) o h =
      map-shape-append o.launched _ ∙ rw h refl
  launch_edges-Ensures (p ∷ ps) sinks source streams o h =
      map-shape-append o.launched _
      ∙ rw
          (
            map-shape-append (chain_edges (p ∷ ps))
                (sink_edge (last_id source.id (p ∷ ps)) streams ∷ []),
            map-shape-chain_edges (p ∷ ps),
            last_id-final p ps,
            h,
          )
          refl

  module _ (processors sinks : List Component) where
    wire_source-Ensures :
        (source : Component) (o : Orchestrator S)
        → Ensures
            (Adds (source_plan processors sinks source) o)
            (wire_source t processors sinks source o)
    unfolding wire_source
    wire_source-Ensures source o =
        let direct = is_empty processors in
        let kind = if direct then "source-sink" else "processor-sink" in
        let last = last_id source.id processors in
        let Done : Unit {0} → Orchestrator S → Type 0 =
          Adds (source_plan processors sinks source) o in
        Ensures-then (Keeps o) Done
          (reach t source.id (first_id "sinks" processors) "source-processor" source.id
            (stream_events (stream_params source.env)) o)
          (λ info o₁. then_with (open_processors t source.id processors o₁) (λ u o₂.
            then_with (open_sinks t last kind source.id direct sinks o₂)
              (λ streams o₃. launch_edges processors source streams o₃)))
          (reach-Ensures source.id (first_id "sinks" processors) "source-processor" source.id
            (stream_events (stream_params source.env)) o)
          (λ info o₁ h₁.
            Ensures-then (Keeps o₁) Done (open_processors t source.id processors o₁)
              (λ u o₂.
                then_with (open_sinks t last kind source.id direct sinks o₂)
                  (λ streams o₃. launch_edges processors source streams o₃))
              (open_processors-Ensures source.id processors o₁)
              (λ u o₂ h₂.
                Ensures-then (Lanes o₂ (targets direct source.id sinks)) Done
                  (open_sinks t last kind source.id direct sinks o₂)
                  (λ streams o₃. launch_edges processors source streams o₃)
                  (open_sinks-Ensures last kind source.id direct sinks o₂)
                  (λ streams o₃ (k, e).
                    rw (← (k ∙ h₂ ∙ h₁))
                      (launch_edges-Ensures processors sinks source streams o₃ e))))

    wire_sources-Ensures :
        (sources : List Component) (o : Orchestrator S)
        → Ensures
            (Adds (plan processors sinks sources) o)
            (wire_sources t processors sinks sources o)
    unfolding wire_sources
    wire_sources-Ensures [] o = sym (append-nil (map shape o.launched))
    wire_sources-Ensures (source ∷ sources) o =
        Ensures-then (Adds (source_plan processors sinks source) o)
          (Adds (plan processors sinks (source ∷ sources)) o)
          (wire_source t processors sinks source o)
          (λ u o'. wire_sources t processors sinks sources o') (wire_source-Ensures source o)
          (λ u o' h.
            Ensures-map (Adds (plan processors sinks sources) o')
              (Adds (plan processors sinks (source ∷ sources)) o)
              (wire_sources t processors sinks sources o')
              (λ v o'' k.
                k
                ∙ rw h (
                    append_assoc (map shape o.launched) (source_plan processors sinks source)
                      (plan processors sinks sources)))
              (wire_sources-Ensures sources o'))

  wire_all-Ensures :
      (spec : Spec) (o : Orchestrator S)
      → o.started ≡ false
      → spec.sources ≢ []
      → spec.sinks ≢ []
      → Ensures (Adds (plan spec.processors spec.sinks spec.sources) o) (wire_all t spec o)
  unfolding wire_all
  wire_all-Ensures spec o fresh some_source some_sink =
      let ends : (is_empty spec.sources || is_empty spec.sinks) ≡ false =
        ground (arith, some_source, some_sink) in
      rw (fresh, ends, wire_all)
        (wire_sources-Ensures spec.processors spec.sinks spec.sources (record o { started = true }))

  -- If WireAll succeeds on a pipeline with sources and sinks, in an orchestrator that has launched
  -- nothing, the edges launched are, for each source in order: from it to the first processor, from each
  -- processor to the next, and from the last to all sinks; or, where there is no processor, from the
  -- source to the sinks that have it among their inputs.
  pub wire_all-plan :
      (spec : Spec) (o o' : Orchestrator S)
      → o.started ≡ false
      → o.launched ≡ []
      → spec.sources ≢ []
      → spec.sinks ≢ []
      → wire_all t spec o ≡ done tt o'
      → map shape o'.launched ≡ plan spec.processors spec.sinks spec.sources
  wire_all-plan spec o o' fresh none_yet some_source some_sink h =
      let added = rw h at (wire_all-Ensures spec o fresh some_source some_sink) in
      added ∙ rw none_yet refl

  -- If WireAll fails on a pipeline with sources and sinks, the first time it is called, it has cancelled
  -- the context of all edges, those launched before included.
  wire_all_cancels :
      (spec : Spec) (o o' : Orchestrator S) (e : WireError)
      → o.started ≡ false
      → spec.sources ≢ []
      → spec.sinks ≢ []
      → wire_all t spec o ≡ stop e o'
      → o'.cancelled ≡ true
  wire_all_cancels spec o o' e fresh some_source some_sink h =
      rw h at (wire_all-Ensures spec o fresh some_source some_sink)
