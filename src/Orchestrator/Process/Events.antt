-- ===== src/Orchestrator/Process/Events.antt =====
-- What happens to a ProcessOrchestrator of internal/orchestrator/process.go: calls, the end of a process,
-- and the ticks of heartbeat goroutines, in any order. Each holds the lock of the orchestrator.
use flowctl.Prelude.{ℕ, zero, suc, String, Option, none, some, List, [], ◌∷◌, get_elem?}
use flowctl.Prelude.Map.{StringMap}
use flowctl.Orchestrator.{Component}
use flowctl.Orchestrator.Process.Command.{Host}
use flowctl.Orchestrator.Process.{
  ProcessOrchestrator, start_component, stop_component, stop_all, monitor_process, beat_tick,
}

-- A process ends by its pointer; a goroutine ticks by its place in `beats`.
pub data Event : Type 0 where
  starts : Component → Event
  stops : String → Event
  stops_all : Event
  exits : ℕ → Option String → Event
  ticks : ℕ → Event

abbrev pub without : {A : Type 0} → List A → ℕ → List A
without [] k = []
without (x ∷ xs) zero = xs
without (x ∷ xs) (suc k) = x ∷ without xs k

-- The goroutine ends if its tick finds the process over.
unfoldable pub tick : ℕ → ProcessOrchestrator → ProcessOrchestrator
unfolding beat_tick
tick k o = elim (get_elem? o.beats k) [
  | none ↦ o
  | some id ↦ elim (beat_tick id o) [
    | none ↦ record o { beats = without o.beats k }
    | some request ↦ o
  ]
]

module _ {S : Type 0} (host : Host S) (visit : StringMap String → StringMap String)
    (visit_processes : StringMap ℕ → StringMap ℕ) where
  unfoldable pub step : Event → S → ProcessOrchestrator → S × ProcessOrchestrator
  unfolding start_component stop_component stop_all monitor_process tick
  step (starts c) s o = let (s', o', e) = start_component host visit c s o in (s', o')
  step (stops id) s o = let (s', o', e) = stop_component host id s o in (s', o')
  step stops_all s o = let (s', o', e) = stop_all host visit_processes s o in (s', o')
  step (exits n err) s o = (s, monitor_process n err o)
  step (ticks k) s o = (s, tick k o)

  unfoldable pub steps : List Event → S → ProcessOrchestrator → S × ProcessOrchestrator
  unfolding step
  steps [] s o = (s, o)
  steps (e ∷ es) s o = let (s', o') = step e s o in steps es s' o'

-- NewProcessOrchestrator.
unfoldable pub new_process_orchestrator : String → ProcessOrchestrator
new_process_orchestrator endpoint = record {
  endpoint = endpoint;
  log_dir = "logs";
  processes = [];
  infos = [];
  beats = [];
}
