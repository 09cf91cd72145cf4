-- ===== src/Runner/Wiring/Faults.antt =====
-- To which component a failure of WireAll (internal/runner/stream_orchestrator.go) is put down.
use flowctl.Prelude.{
  String, ◌≡◌, refl, ◌≢◌, true, false, ◌||◌, Option, none, List, [], ◌∷◌, eq_iff, arith,
}
use flowctl.Prelude.Texts.{concat}
use flowctl.Proto.Messages.{ComponentInfo}
use flowctl.Pipeline.Model.{Component, Spec}
use flowctl.Pipeline.Loader.{is_empty}
use flowctl.Runner.Failure.{failed_component}
use flowctl.Runner.Stream.{unknown, DeliveryError}
use flowctl.Runner.Wiring.{
  Opening, fail_at, get_component_endpoint, reach, stream_events, stream_params, answer, Transport,
  Orchestrator, stop, at_edge, find_component, wire_sources, wire_all,
}

-- The error of a source that is not registered, where `p` is the first processor.
abbrev pub unregistered_error : Component → Component → DeliveryError
unregistered_error source p = record {
  from = source.id;
  to = p.id;
  kind = "source-processor";
  operation = "registration";
  event = none;
  err = unknown (concat ("component " ∷ source.id ∷ " not registered" ∷ []));
}

module _ {S : Type 0} (t : Transport S) where
  reach_unregistered :
      (from to kind id : String) (opening : Opening) (o : Orchestrator S)
      (services : List (Option ComponentInfo))
      → (t.list_components o.net).1 ≡ answer services
      → find_component id services ≡ none
      → reach t from to kind id opening o
        ≡ fail_at from to kind "registration"
            (unknown (concat ("component " ∷ id ∷ " not registered" ∷ [])))
            (record o { net = (t.list_components o.net).0 })
  unfolding reach get_component_endpoint
  reach_unregistered from to kind id opening o services listed absent =
      rw (listed, absent, reach, get_component_endpoint)
        (rw (listed, absent, get_component_endpoint) refl)

  wire_unregistered :
      (source p : Component) (sources ps all_sources processors sinks : List Component)
      (o : Orchestrator S) (services : List (Option ComponentInfo))
      → all_sources ≡ source ∷ sources
      → processors ≡ p ∷ ps
      → (t.list_components o.net).1 ≡ answer services
      → find_component source.id services ≡ none
      → wire_sources t processors sinks all_sources o
        ≡ stop
            (at_edge (unregistered_error source p))
            (record o { net = (t.list_components o.net).0; cancelled = true })
  unfolding wire_sources
  wire_unregistered source p sources ps all_sources processors sinks o services ss pp listed
        absent =
      rw (ss, pp)
        (rw
          (reach_unregistered source.id p.id "source-processor" source.id
            (stream_events (stream_params source.env)) o services listed absent)
          refl)

  -- If the first source is not registered when WireAll looks it up, in a pipeline with processors and
  -- sinks, WireAll fails with an error that is put down to the first processor, unless that one's
  -- identifier is "sinks".
  pub unregistered_source_blames :
      (spec : Spec) (o : Orchestrator S) (source p : Component) (sources ps : List Component)
      (services : List (Option ComponentInfo))
      → o.started ≡ false
      → spec.sources ≡ source ∷ sources
      → spec.processors ≡ p ∷ ps
      → spec.sinks ≢ []
      → (t.list_components o.net).1 ≡ answer services
      → find_component source.id services ≡ none
      → p.id ≢ "sinks"
      → ((o' : Orchestrator S) × (wire_all t spec o
            ≡ stop (at_edge (unregistered_error source p)) o'))
        × (failed_component (unregistered_error source p) ≡ p.id)
  unfolding wire_all failed_component
  unregistered_source_blames spec o source p sources ps services fresh ss pp some_sink listed absent
        named =
      (
        let ends : (is_empty spec.sources || is_empty spec.sinks) ≡ false =
              ground (arith, ss, some_sink) in
            (
              record o { started = true; net = (t.list_components o.net).0; cancelled = true },
              rw (fresh, ends, wire_all)
                  (wire_unregistered source p sources ps spec.sources spec.processors spec.sinks
                    (record o { started = true }) services ss pp listed absent),
            ),
        ground (arith, named, eq_iff p.id "sinks"),
      )
