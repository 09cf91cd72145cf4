-- ===== src/Orchestrator/Process/Shared.antt =====
-- What a component that starts again shares with others, in internal/orchestrator/process.go: its old
-- heartbeat goroutine, and the default of its health port.
use flowctl.Prelude.{
  ℕ, ◌+◌, ◌≡◌, ◌≢◌, refl, sym, ap, ◌∙◌, String, false, ◌||◌, suc, none, some, List, [], ◌∷◌, ◌==◌,
  ==_iff, str_eq, arith, Bool-cases, inl, inr, length, get_elem?, get_elem?-concat, get_elem?-bound,
}
use flowctl.Prelude.Map.{StringMap, lookup, insert, HasUniqueKeys}
use flowctl.Prelude.Decimal.{show_ℕ}
use flowctl.Orchestrator.{Component, status_running}
use flowctl.Orchestrator.Environment.{VisitsOnce, last_value, environment_values, flowctl_env}
use flowctl.Orchestrator.Process.Command.{Cmd}
use flowctl.Orchestrator.Process.{
  ProcessInfo, ProcessOrchestrator, find_process, add_process, is_over, is_stopping, full_command,
  beat_tick, beat_request,
}
use flowctl.Orchestrator.Process.Events.{tick}
use flowctl.Orchestrator.Process.Restart.{find_process-add}

beat_tick-running :
    (id : String) (n : ℕ) (info : ProcessInfo) (o : ProcessOrchestrator)
    → find_process id o ≡ some (n, info)
    → info.status ≡ status_running
    → beat_tick id o ≡ some (beat_request id info)
unfolding beat_tick
beat_tick-running id n info o found runs =
    let live = ap (λ t. is_over t || is_stopping t) runs in rw (beat_tick, found) (rw live refl)

tick-running :
    (k : ℕ) (c : Component) (info : ProcessInfo) (o : ProcessOrchestrator)
    → info.status ≡ status_running
    → get_elem? (add_process c info o).beats k ≡ some c.id
    → tick k (add_process c info o) ≡ add_process c info o
unfolding tick
tick-running k c info o runs here =
    rw
      (
        tick,
        here,
        beat_tick-running c.id _ info (add_process c info o) (find_process-add c info o) runs,
      )
      refl

-- A heartbeat goroutine of a component's earlier process that has not ended when the component
-- starts again goes on beside the one of the new process: no tick ends either, and both send the
-- new process's heartbeat.
restart_keeps_beat :
    (k : ℕ) (c : Component) (info : ProcessInfo) (o : ProcessOrchestrator)
    → get_elem? o.beats k ≡ some c.id
    → info.status ≡ status_running
    → let o' = add_process c info o in
      (k ≢ length o.beats)
      × (tick k o' ≡ o')
      × (tick (length o.beats) o' ≡ o')
      × (beat_tick c.id o' ≡ some (beat_request c.id info))
unfolding add_process
restart_keeps_beat k c info o old runs =
    let bound = get_elem?-bound o.beats k c.id old in
    let apart : (length o.beats == k) ≡ false = ground arith in
    (
      λ e. omega arith,
      tick-running k c info o runs (get_elem?-concat o.beats c.id k ∙ rw apart old),
      tick-running (length o.beats) c info o runs (
          get_elem?-concat o.beats c.id (length o.beats)
          ∙ rw ((==_iff (length o.beats) (length o.beats)).1 refl) refl),
      beat_tick-running c.id _ info (add_process c info o) (find_process-add c info o) runs,
    )

length-insert_old {ℓ} :
    {V : Type ℓ} (key : String) (v old : V) (m : StringMap V)
    → lookup key m ≡ some old
    → length (insert key v m) ≡ length m
unfolding lookup insert
length-insert_old key v old [] h = cc
length-insert_old key v old ((name, w) ∷ m) h = elim (Bool-cases (str_eq name key)) [
  | inl same ↦ rw same refl
  | inr other ↦ rw other (ap suc (length-insert_old key v old m (rw other at h)))
]

-- The health port that a command is given by default, if it has none of its own.
default_health_port :
    (visit : StringMap String → StringMap String) (os : List (String × String)) (c : Component)
    (cmd : Cmd) (o : ProcessOrchestrator)
    → VisitsOnce visit
    → HasUniqueKeys c.environment
    → lookup "HEALTH_PORT" c.environment ≡ none
    → last_value "HEALTH_PORT" (full_command visit os c cmd o).env
      ≡ some (show_ℕ (18080 + length o.processes + 1))
unfolding full_command flowctl_env last_value
default_health_port visit os c cmd o visits unique unset =
    environment_values visit os o.endpoint (length o.processes) c.id c.environment visits unique
      "HEALTH_PORT"
    ∙ rw unset refl

-- If a component that was started before starts again, and another one after it, and neither has a
-- HEALTH_PORT of its own, both processes are given the same one.
pub restart_shares_port :
    (visit : StringMap String → StringMap String) (os : List (String × String)) (c d : Component)
    (cmd cmd' : Cmd) (o : ProcessOrchestrator) (n : ℕ) (info : ProcessInfo)
    → VisitsOnce visit
    → HasUniqueKeys c.environment
    → HasUniqueKeys d.environment
    → lookup "HEALTH_PORT" c.environment ≡ none
    → lookup "HEALTH_PORT" d.environment ≡ none
    → lookup c.id o.processes ≡ some n
    → last_value "HEALTH_PORT" (full_command visit os d cmd' (add_process c info o)).env
      ≡ last_value "HEALTH_PORT" (full_command visit os c cmd o).env
unfolding add_process
restart_shares_port visit os c d cmd cmd' o n info visits unique unique' unset unset' old =
    default_health_port visit os d cmd' (add_process c info o) visits unique' unset'
    ∙ (ap (λ k. some (show_ℕ (18080 + k + 1)))
          (length-insert_old c.id (length o.infos) n o.processes old)
        ∙ sym (default_health_port visit os c cmd o visits unique unset))
