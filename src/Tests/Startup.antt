-- ===== src/Tests/Startup.antt =====
-- Examples for the start of components and the wiring of their streams.
use flowctl.Prelude.{
  ℕ, suc, ◌<◌, String, ◌≡◌, refl, true, false, Option, none, some, List, [], ◌∷◌, str_eq, eq_iff,
  arith, All, map, if◌then◌else◌, inl,
}
use flowctl.Prelude.Map.{lookup}
use mathlib.Core.List.{Memᴰ}
use flowctl.Proto.Enums.{HealthStatus}
use flowctl.Proto.Messages.{ComponentInfo}
use flowctl.Pipeline.Model.{Component}
use flowctl.Pipeline.Loader.{has_id}
use flowctl.ControlPlane.State.{Service}
use flowctl.Runner.Stream.{
  source_bounded, has_input, Code, canceled, deadline_exceeded, other, status, DeliveryError,
}
use flowctl.Runner.Failure.{failed_component, mark_delivery_failure}
use flowctl.Runner.Failure.Health.{heartbeats, failure_stays_unhealthy}
use flowctl.Runner.Startup.{running, exhausted, start_all}
use flowctl.Runner.Startup.Order.{IsOrdered}
use flowctl.Runner.Startup.Calls.{logged, start_all-IsOrdered}
use flowctl.Runner.Startup.Termination.{finishes, Descends, start_all-finishes, start_all_endless}
use flowctl.Runner.Wiring.{
  source_edge, sink_edge, Transport, answer, Orchestrator, done, stop, at_edge, wire_all,
  chain_edges, find_component,
}
use flowctl.Runner.Wiring.Plan.{shape}
use flowctl.Runner.Wiring.Edges.{wire_all-plan}
use flowctl.Runner.Wiring.Faults.{unregistered_error, unregistered_source_blames}
use flowctl.Tests.Data.{memory, server, entry, ledger, healthy_beat}
use flowctl.Tests.Loading.{component, pipeline}

-- Every component starts; the state counts the starts.
abbrev starts_all : String → Component → ℕ → ℕ × Option String
starts_all role c n = (suc n, none)

abbrev first_stage : Component
first_stage = component "ingest" []

abbrev second_stage : Component
second_stage = record (component "report" []) { depends_on = "ingest" ∷ [] }

abbrev stages : List Component
stages = second_stage ∷ first_stage ∷ []

abbrev looped_stage : Component
looped_stage = record (component "loop" []) { depends_on = "loop" ∷ [] }

abbrev stage_rank : String → ℕ
stage_rank id = if str_eq id "report" then 1 else 0

stages_run : start_all starts_all stages 2 stages 0 [] ≡ running 2 ("report" ∷ "ingest" ∷ [])
unfolding start_all
stages_run = refl

stages_called :
    start_all (logged starts_all) stages 2 stages ([], 0) []
    ≡ running ("report" ∷ "ingest" ∷ [], 2) ("report" ∷ "ingest" ∷ [])
unfolding start_all
stages_called = refl

start_all-IsOrdered_example :
    IsOrdered stages ("report" ∷ "ingest" ∷ [])
    × All (λ p. has_id ("report" ∷ "ingest" ∷ []) p.id ≡ true) stages
start_all-IsOrdered_example =
    start_all-IsOrdered starts_all stages 2 0 2 ("report" ∷ "ingest" ∷ [])
      ("report" ∷ "ingest" ∷ []) stages_called

stages_descend : (p : Component) → Memᴰ p stages → Descends stage_rank p
stages_descend p (Memᴰ.head e) = rw e (omega arith, tt)
stages_descend p (Memᴰ.tail (Memᴰ.head e)) = rw e tt
stages_descend p (Memᴰ.tail (Memᴰ.tail h)) = elim h [ ]

stages_low : (p : Component) → Memᴰ p stages → stage_rank p.id < 2
stages_low p (Memᴰ.head e) = rw e (omega arith)
stages_low p (Memᴰ.tail (Memᴰ.head e)) = rw e (omega arith)
stages_low p (Memᴰ.tail (Memᴰ.tail h)) = elim h [ ]

start_all-finishes_example : finishes (start_all starts_all stages 2 stages 0 []) ≡ true
start_all-finishes_example =
    start_all-finishes starts_all stages stage_rank stages_descend 2 stages_low 0

start_all_endless_example :
    start_all starts_all (looped_stage ∷ []) 1000 (looped_stage ∷ []) 0 [] ≡ exhausted
start_all_endless_example = start_all_endless starts_all looped_stage [] [] refl 1000 0

-- The control plane lists the given components, and every connection and stream opens.
abbrev opens_all : List (Option ComponentInfo) → Transport ℕ
opens_all services = record {
  list_components = λ n. (n, answer services);
  connect = λ endpoint n. (suc n, none);
  open_stream = λ id opening n. (suc n, none);
}

abbrev unwired : Orchestrator ℕ
unwired = record { net = 0; started = false; cancelled = false; connections = []; launched = [] }

abbrev registered : List (Option ComponentInfo)
registered =
    some (record ledger { id = "source" })
    ∷ none
    ∷ some (record ledger { id = "processor" })
    ∷ some (record ledger { id = "sink" })
    ∷ []

abbrev wired : Orchestrator ℕ
wired = record {
  net = 4;
  started = true;
  cancelled = false;
  connections = "localhost:9090" ∷ [];
  launched =
      source_edge "source" "processor" false ∷ sink_edge "processor" (("sink", []) ∷ []) ∷ [];
}

wired_run : wire_all (opens_all registered) pipeline.spec unwired ≡ done tt wired
unfolding wire_all source_bounded lookup
wired_run = refl

wire_all-plan_example :
    map shape wired.launched
    ≡ source_edge "source" "processor" false ∷ sink_edge "processor" (("sink", []) ∷ []) ∷ []
unfolding source_bounded lookup chain_edges has_input
wire_all-plan_example =
    wire_all-plan (opens_all registered) pipeline.spec unwired wired refl refl
      (λ e. ground (arith, e)) (λ e. ground (arith, e)) wired_run

abbrev given_up : Orchestrator ℕ
given_up = record unwired { started = true; cancelled = true }

unregistered_run :
    wire_all (opens_all []) pipeline.spec unwired
    ≡ stop
        (at_edge
          (unregistered_error (component "source" []) (component "processor" ("source" ∷ []))))
        given_up
unfolding wire_all source_bounded lookup
unregistered_run = refl

unregistered_source_blames_example :
    ((o' : Orchestrator ℕ) × (wire_all (opens_all []) pipeline.spec unwired
        ≡ stop
            (at_edge
              (unregistered_error (component "source" []) (component "processor" ("source" ∷ []))))
            o'))
    × (failed_component
          (unregistered_error (component "source" []) (component "processor" ("source" ∷ [])))
        ≡ "processor")
unfolding find_component
unregistered_source_blames_example =
    unregistered_source_blames (opens_all []) pipeline.spec unwired (component "source" [])
      (component "processor" ("source" ∷ [])) [] [] [] refl refl refl (λ e. ground (arith, e)) refl
      refl (λ e. ground (arith, eq_iff "processor" "sinks"))

abbrev code_names : Code → String
code_names canceled = "Canceled"
code_names deadline_exceeded = "DeadlineExceeded"
code_names (other n) = "Unavailable"

abbrev lost_ledger : DeliveryError
lost_ledger = record {
  from = "ledger";
  to = "sinks";
  kind = "processor-sink";
  operation = "recv";
  event = none;
  err = status (other 14);
}

failure_stays_unhealthy_example :
    (after : Service) × (lookup "ledger"
        (heartbeats memory
          ((130, healthy_beat) ∷ (140, healthy_beat) ∷ [])
          (mark_delivery_failure code_names memory 120 "run-7" lost_ledger server)).services
      ≡ some after)
    × (after.status.status ≡ HealthStatus.unhealthy)
unfolding lookup failed_component
failure_stays_unhealthy_example =
    failure_stays_unhealthy memory code_names "run-7" lost_ledger server 120 entry
      ((130, healthy_beat) ∷ (140, healthy_beat) ∷ []) refl (λ e. ground (arith, eq_iff "run-7" ""))
      ((refl, inl refl), ((refl, inl refl), tt))
