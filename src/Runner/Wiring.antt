-- ===== src/Runner/Wiring.antt =====
-- WireAll of internal/runner/stream_orchestrator.go, with getComponentEndpoint and getConnection: the
-- streams that are opened and the edges that are launched, in order. The network and the control plane's
-- list of components are a state of any type and functions on it.
pub mod Plan
pub mod Edges
pub mod Faults
use flowctl.Prelude.{
  ℕ, String, Bool, true, false, ◌&&◌, ◌||◌, not, Option, none, some, List, [], ◌∷◌, ◌++◌, map,
  str_eq, if◌then◌else◌, any,
}
use flowctl.Prelude.Map.{StringMap, read}
use flowctl.Prelude.Texts.{concat}
use flowctl.Proto.Messages.{ComponentInfo}
use flowctl.Pipeline.Model.{Component, Spec}
use flowctl.Pipeline.Loader.{is_empty}
use flowctl.Runner.Stream.{Cause, unknown, DeliveryError, source_bounded, has_input}

-- What a launched edge runs: forwardSource, forward, or fanOut behind the last processor or behind a
-- source. A sink stands as its identifier and the event types that it accepts.
pub data Edge : Type 0 where
  source_edge : (from to : String) → (bounded : Bool) → Edge
  processor_edge : (from to : String) → Edge
  sink_edge : (from : String) → List (String × List String) → Edge
  direct_edge : (from : String) → (bounded : Bool) → List (String × List String) → Edge

pub data WireError : Type 0 where
  already_wired no_ends : WireError
  no_sink : String → WireError
  at_edge : DeliveryError → WireError

-- The streams that are opened: of a source, with its parameters, of a processor, of a sink.
pub data Opening : Type 0 where
  stream_events : StringMap String → Opening
  process consume : Opening

-- A failure, or an answer.
pub data Answer (A : Type 0) : Type 0 where
  answer : A → Answer A
  failure : Cause → Answer A

-- The list holds `none` for a service without a component.
pub record Transport (S : Type 0) : Type 0 where
  pub list_components : S → S × Answer (List (Option ComponentInfo))
  pub connect : String → S → S × Option Cause
  pub open_stream : String → Opening → S → S × Option Cause

pub record Orchestrator (S : Type 0) : Type 0 where
  pub net : S
  pub started : Bool
  pub cancelled : Bool
  pub connections : List String
  pub launched : List Edge

pub data Wired (S A : Type 0) : Type 0 where
  done : A → Orchestrator S → Wired S A
  stop : WireError → Orchestrator S → Wired S A

abbrev pub then_with : {S A B : Type 0} → Wired S A → (A → Orchestrator S → Wired S B) → Wired S B
then_with (done x o) next = next x o
then_with (stop e o) next = stop e o

unfoldable pub find_component : String → List (Option ComponentInfo) → Option ComponentInfo
find_component id [] = none
find_component id (none ∷ services) = find_component id services
find_component id (some c ∷ services) =
    let rest = find_component id services in if str_eq c.id id then some c else rest

unfoldable pub stream_params : StringMap String → StringMap String
stream_params env =
    (if str_eq (read "START_LEDGER" env) ""
      then []
      else (("start_ledger", read "START_LEDGER" env) ∷ []))
    ++ (if str_eq (read "END_LEDGER" env) ""
        then []
        else (("end_ledger", read "END_LEDGER" env) ∷ []))

-- Cancel, and return the edge's error.
abbrev pub fail_at :
    {S A : Type 0} → (from to kind operation : String) → Cause → Orchestrator S → Wired S A
fail_at from to kind operation err o =
    stop
      (at_edge (record {
        from = from;
        to = to;
        kind = kind;
        operation = operation;
        event = none;
        err = err;
      }))
      (record o { cancelled = true })

module _ {S : Type 0} (t : Transport S) where
  unfoldable pub get_component_endpoint : String → S → S × Answer ComponentInfo
  unfolding find_component
  get_component_endpoint id s =
      let (s', reply) = t.list_components s in
      elim reply [
        | failure e ↦ (s', failure e)
        | answer services ↦ elim (find_component id services) [
          | none ↦ (s', failure (unknown (concat ("component " ∷ id ∷ " not registered" ∷ []))))
          | some info ↦ (s', answer info)
        ]
      ]

  -- A connection is made once for an endpoint.
  unfoldable pub get_connection : String → Orchestrator S → Orchestrator S × Option Cause
  get_connection endpoint o =
      if any (λ known. str_eq known endpoint) o.connections
      then (o, none)
      else let (s', e) = t.connect endpoint o.net in
        elim e [
          | none ↦ (record o { net = s'; connections = endpoint ∷ o.connections }, none)
          | some cause ↦ (record o { net = s' }, some cause)
        ]

  unfoldable pub open_at :
      (from to kind id : String) → Opening → ComponentInfo → Orchestrator S → Wired S ComponentInfo
  open_at from to kind id opening info o =
      let (s', e) = t.open_stream id opening o.net in
      elim e [
        | none ↦ done info (record o { net = s' })
        | some cause ↦ fail_at from to kind "open" cause (record o { net = s' })
      ]

  -- The steps that lead to the stream of one component, with the names of the edge in an error.
  unfoldable pub reach :
      (from to kind id : String) → Opening → Orchestrator S → Wired S ComponentInfo
  unfolding get_component_endpoint get_connection open_at
  reach from to kind id opening o =
      let (s', endpoint) = get_component_endpoint id o.net in
      let found = record o { net = s' } in
      elim endpoint [
        | failure e ↦ fail_at from to kind "registration" e found
        | answer info ↦
            let (connected, e) = get_connection info.endpoint found in
            elim e [
              | some cause ↦ fail_at from to kind "connect" cause connected
              | none ↦ open_at from to kind id opening info connected
            ]
      ]

  unfoldable pub open_processors : String → List Component → Orchestrator S → Wired S (Unit {0})
  unfolding reach
  open_processors source [] o = done tt o
  open_processors source (p ∷ ps) o =
      then_with (reach source p.id "processor" p.id process o)
        (λ info o'. open_processors source ps o')

  -- `direct` says that there is no processor: then the inputs of a sink say which sources it takes.
  unfoldable pub open_sinks :
      (last kind source : String)
      → Bool
      → List Component
      → Orchestrator S
      → Wired S (List (String × List String))
  unfolding reach
  open_sinks last kind source direct [] o = done [] o
  open_sinks last kind source direct (sink ∷ sinks) o =
      if direct && not (has_input sink.inputs source)
      then open_sinks last kind source direct sinks o
      else then_with (reach last sink.id kind sink.id consume o) (λ info o'.
        then_with (open_sinks last kind source direct sinks o')
          (λ streams o''. done ((sink.id, info.input_event_types) ∷ streams) o''))

-- The edges between processors.
unfoldable pub chain_edges : List Component → List Edge
chain_edges [] = []
chain_edges (p ∷ []) = []
chain_edges (p ∷ q ∷ ps) = processor_edge p.id q.id ∷ chain_edges (q ∷ ps)

abbrev pub last_id : String → List Component → String
last_id id [] = id
last_id id (p ∷ ps) = last_id p.id ps

abbrev pub first_id : String → List Component → String
first_id id [] = id
first_id id (p ∷ ps) = p.id

-- What is launched for a source, once its streams are open.
unfoldable pub launch_edges :
    {S : Type 0}
    → List Component
    → Component
    → List (String × List String)
    → Orchestrator S
    → Wired S (Unit {0})
unfolding chain_edges
launch_edges [] source [] o = stop (no_sink source.id) (record o { cancelled = true })
launch_edges [] source (sink ∷ sinks) o = done tt (record o {
  launched = o.launched ++ (direct_edge source.id (source_bounded source.env) (sink ∷ sinks) ∷ []);
})
launch_edges (p ∷ ps) source sinks o = done tt (record o {
  launched =
      o.launched
      ++ ((source_edge source.id p.id (source_bounded source.env) ∷ chain_edges (p ∷ ps))
          ++ (sink_edge (last_id source.id (p ∷ ps)) sinks ∷ []));
})

module _ {S : Type 0} (t : Transport S) (processors sinks : List Component) where
  unfoldable pub wire_source : Component → Orchestrator S → Wired S (Unit {0})
  unfolding reach open_processors open_sinks launch_edges stream_params
  wire_source source o =
      let direct = is_empty processors in
      then_with
        (reach t source.id (first_id "sinks" processors) "source-processor" source.id
          (stream_events (stream_params source.env)) o)
        (λ info o₁. then_with (open_processors t source.id processors o₁) (λ u o₂.
          then_with
            (open_sinks t (last_id source.id processors)
              (if direct then "source-sink" else "processor-sink") source.id direct sinks o₂)
            (λ streams o₃. launch_edges processors source streams o₃)))

  unfoldable pub wire_sources : List Component → Orchestrator S → Wired S (Unit {0})
  unfolding wire_source
  wire_sources [] o = done tt o
  wire_sources (source ∷ sources) o =
      then_with (wire_source source o) (λ u o'. wire_sources sources o')

unfoldable pub wire_all : {S : Type 0} → Transport S → Spec → Orchestrator S → Wired S (Unit {0})
unfolding wire_sources
wire_all t spec o =
    if o.started
    then stop already_wired o
    else if is_empty spec.sources || is_empty spec.sinks
    then stop no_ends (record o { started = true })
    else wire_sources t spec.processors spec.sinks spec.sources (record o { started = true })
