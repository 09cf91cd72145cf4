-- ===== src/Orchestrator/Process/Restart.antt =====
-- What stops and starts of a component do in internal/orchestrator/process.go.
use flowctl.Prelude.{
  ℕ, ◌≡◌, refl, String, true, false, Option, none, some, ==_iff, eq_refl, Bool-cases, Option-cases,
  inl, inr, length, get_elem?-set, get_elem?-concat,
}
use flowctl.Prelude.Map.{StringMap, lookup-insert}
use flowctl.Orchestrator.{Component, status_running, status_stopped, status_failed}
use flowctl.Orchestrator.Process.Command.{Host, Try-cases, build_command}
use flowctl.Orchestrator.Process.{
  ProcessInfo, ProcessOrchestrator, ProcessError, find_process, write_info, add_process,
  runs_already, terminate, stop_component, launch_component, start_component, monitor_process,
  is_over, get_status, status_of, is_healthy, full_command, new_process, log_path,
}
use flowctl.Orchestrator.Process.Reachable.{find_process-at}
use flowctl.Orchestrator.Process.Valid.{some_eq}

find_process-write :
    (id : String) (n : ℕ) (old info : ProcessInfo) (o : ProcessOrchestrator)
    → find_process id o ≡ some (n, old)
    → find_process id (write_info n info o) ≡ some (n, info)
unfolding find_process write_info
find_process-write id n old info o found =
    let (entry, here) = find_process-at id n old o found in
    rw (find_process, entry)
      (rw (get_elem?-set o.infos n n info old here) (rw ((==_iff n n).1 refl) refl))

pub find_process-add :
    (c : Component) (info : ProcessInfo) (o : ProcessOrchestrator)
    → find_process c.id (add_process c info o) ≡ some (length o.infos, info)
unfolding find_process add_process
find_process-add c info o =
    rw (find_process, lookup-insert c.id c.id (length o.infos) o.processes, eq_refl c.id)
      (rw (get_elem?-concat o.infos info (length o.infos))
        (rw ((==_iff (length o.infos) (length o.infos)).1 refl) refl))

get_status-found :
    (id : String) (n : ℕ) (info : ProcessInfo) (o : ProcessOrchestrator)
    → find_process id o ≡ some (n, info)
    → get_status id o ≡ some (status_of id info)
unfolding get_status
get_status-found id n info o found = rw (get_status, found) refl

-- The end of a process by an error.
monitor_process-found :
    (id : String) (n : ℕ) (info : ProcessInfo) (e : String) (o : ProcessOrchestrator)
    → find_process id o ≡ some (n, info)
    → find_process id (monitor_process n (some e) o)
      ≡ some (n, record info { status = status_failed; log_open = false; error = some e })
unfolding monitor_process
monitor_process-found id n info e o found =
    rw (monitor_process, (find_process-at id n info o found).1)
      (find_process-write id n info
        (record info { status = status_failed; log_open = false; error = some e }) o found)

abbrev stopped_info : ProcessInfo → ProcessInfo
stopped_info info = record info { status = status_stopped; log_open = false }

abbrev failed_info : ProcessInfo → String → ProcessInfo
failed_info info e = record info { status = status_failed; log_open = false; error = some e }

stop_component-found :
    {S : Type 0} (host : Host S) (s : S) (o : ProcessOrchestrator) (id : String) (n : ℕ)
    (info : ProcessInfo)
    → find_process id o ≡ some (n, info)
    → is_over info.status ≡ false
    → stop_component host id s o
      ≡ ((terminate host info.pid s).0, write_info n (stopped_info info) o, none)
unfolding stop_component
stop_component-found host s o id n info found live = rw (stop_component, found, live) refl

-- A component that is stopped, and whose process then ends by the signal, is reported as stopped in
-- between, and as failed in the end, with the error of the signal.
pub stopped_then_failed :
    {S : Type 0} (host : Host S) (s : S) (o : ProcessOrchestrator) (id : String) (n : ℕ)
    (info : ProcessInfo) (e : String)
    → find_process id o ≡ some (n, info)
    → is_over info.status ≡ false
    → let (s', o', refusal) = stop_component host id s o in
      (refusal ≡ none)
      × (get_status id o' ≡ some (status_of id (stopped_info info)))
      × (get_status id (monitor_process n (some e) o') ≡ some (status_of id (failed_info info e)))
stopped_then_failed host s o id n info e found live =
    let o' = write_info n (stopped_info info) o in
    let found' = find_process-write id n info (stopped_info info) o found in
    rw (stop_component-found host s o id n info found live) (
      refl,
      get_status-found id n (stopped_info info) o' found',
      get_status-found id n (failed_info info e) (monitor_process n (some e) o')
          (monitor_process-found id n (stopped_info info) e o' found'),
    )

-- What a start leaves: the process of the component, running, or nothing changed.
abbrev pub Started :
    Component → ProcessOrchestrator → ProcessOrchestrator → Option ProcessError → Type 0
Started c o o' none = is_healthy c.id o' ≡ some true
Started c o o' (some e) = o' ≡ o

is_healthy-add :
    (c : Component) (info : ProcessInfo) (o : ProcessOrchestrator)
    → info.status ≡ status_running
    → is_healthy c.id (add_process c info o) ≡ some true
unfolding is_healthy status_of
is_healthy-add c info o runs =
    rw
      (
        is_healthy,
        get_status-found c.id (length o.infos) info (add_process c info o)
            (find_process-add c info o),
        runs,
      )
      refl

runs_already-healthy :
    (id : String) (o : ProcessOrchestrator)
    → is_healthy id o ≡ some true
    → runs_already (find_process id o) ≡ true
unfolding is_healthy get_status status_of
runs_already-healthy id o h = elim (Option-cases (find_process id o)) [
  | inl missing ↦ absurd (cc (rw (is_healthy, get_status, missing) at h))
  | inr ((n, info), found) ↦ rw found (some_eq (rw (is_healthy, get_status, found) at h))
]

launch-Started :
    {S : Type 0} (host : Host S) (visit : StringMap String → StringMap String) (c : Component)
    (s : S) (o : ProcessOrchestrator)
    → let (s', o', e) = launch_component host visit c s o in Started c o o' e
unfolding launch_component
launch-Started host visit c s o =
    let s₁ = (build_command host c s).0 in
    elim (Try-cases (build_command host c s).1) [
      | inl (e, unbuilt) ↦ rw (unbuilt, launch_component) refl
      | inr (cmd, built) ↦ elim (Option-cases (host.create_log (log_path o c.id) s₁).1) [
        | inr (e, unlogged) ↦ rw (built, unlogged, launch_component) refl
        | inl logged ↦
            rw (built, logged, launch_component)
              (let full = full_command visit (host.environ s₁) c cmd o in
                let s₂ = (host.create_log (log_path o c.id) s₁).0 in
                elim (Try-cases (host.start full s₂).1) [
                  | inl (e, unstarted) ↦ rw (unstarted, launch_component) refl
                  | inr (pid, started) ↦
                      rw (started, launch_component)
                        (is_healthy-add c (new_process c full (host.now (host.start full s₂).0) pid)
                          o refl)
                ])
      ]
    ]

-- A component that counts as running is not started again: the call is refused and changes nothing.
start_refused :
    {S : Type 0} (host : Host S) (visit : StringMap String → StringMap String) (c : Component)
    (s : S) (o : ProcessOrchestrator)
    → is_healthy c.id o ≡ some true
    → start_component host visit c s o ≡ (s, o, some (ProcessError.already_running c.id))
unfolding start_component
start_refused host visit c s o healthy =
    rw (start_component, runs_already-healthy c.id o healthy) refl

-- A start that succeeds leaves the component healthy, and one that fails changes nothing.
start_outcome :
    {S : Type 0} (host : Host S) (visit : StringMap String → StringMap String) (c : Component)
    (s : S) (o : ProcessOrchestrator)
    → let (s', o', e) = start_component host visit c s o in Started c o o' e
unfolding start_component
start_outcome host visit c s o = elim (Bool-cases (runs_already (find_process c.id o))) [
  | inl busy ↦ rw (start_component, busy) refl
  | inr idle ↦ rw (start_component, idle) (launch-Started host visit c s o)
]
