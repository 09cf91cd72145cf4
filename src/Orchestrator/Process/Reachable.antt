-- ===== src/Orchestrator/Process/Reachable.antt =====
-- Every event that reaches a ProcessOrchestrator of internal/orchestrator/process.go keeps it valid.
use flowctl.Prelude.{
  ℕ, ◌≡◌, refl, sym, ap, ◌∙◌, String, false, Option, none, some, List, [], ◌∷◌, Bool-cases,
  Option-cases, inl, inr, get_elem?,
}
use flowctl.Prelude.Map.{StringMap, lookup}
use flowctl.Orchestrator.{Component, status_running, status_stopped, status_failed}
use flowctl.Orchestrator.Process.Command.{Host, Try-cases, build_command}
use flowctl.Orchestrator.Process.{
  ProcessInfo, ProcessOrchestrator, find_process, runs_already, stop_process, stop_component,
  stop_each, stop_all, launch_component, start_component, monitor_process, is_over, beat_tick,
  log_path, full_command, new_process,
}
use flowctl.Orchestrator.Process.Valid.{IsValid, some_eq, write_info-IsValid, add_process-IsValid}
use flowctl.Orchestrator.Process.Events.{
  Event, starts, stops, stops_all, exits, ticks, tick, step, steps, new_process_orchestrator,
}

stop_process-IsValid :
    (n : ℕ) (info : ProcessInfo) (o : ProcessOrchestrator)
    → get_elem? o.infos n ≡ some info
    → IsValid o
    → IsValid (stop_process n info o)
unfolding stop_process
stop_process-IsValid n info o here h =
    write_info-IsValid n info (record info { status = status_stopped; log_open = false }) o here
      refl (λ e. cc e) h

monitor_process-IsValid :
    (n : ℕ) (err : Option String) (o : ProcessOrchestrator)
    → IsValid o
    → IsValid (monitor_process n err o)
unfolding monitor_process
monitor_process-IsValid n none o h = elim (Option-cases (get_elem? o.infos n)) [
  | inl missing ↦ rw (monitor_process, missing) h
  | inr (info, here) ↦
      rw (monitor_process, here)
        (write_info-IsValid n info (record info { status = status_stopped; log_open = false }) o
          here refl (λ e. cc e) h)
]
monitor_process-IsValid n (some e) o h = elim (Option-cases (get_elem? o.infos n)) [
  | inl missing ↦ rw (monitor_process, missing) h
  | inr (info, here) ↦
      rw (monitor_process, here)
        (write_info-IsValid n info
          (record info { status = status_failed; log_open = false; error = some e }) o here refl
          (λ e. cc e) h)
]

tick-IsValid : (k : ℕ) (o : ProcessOrchestrator) → IsValid o → IsValid (tick k o)
unfolding tick
tick-IsValid k o h = elim (Option-cases (get_elem? o.beats k)) [
  | inl missing ↦ rw (tick, missing) h
  | inr (id, here) ↦ elim (Option-cases (beat_tick id o)) [
    | inl over ↦
        rw (tick, here, over)
          (record { unique = h.unique; entries = h.entries; current = h.current })
    | inr (request, sent) ↦ rw (tick, here, sent) h
  ]
]

-- The process that is found is behind its pointer.
pub find_process-at :
    (id : String) (n : ℕ) (info : ProcessInfo) (o : ProcessOrchestrator)
    → find_process id o ≡ some (n, info)
    → (lookup id o.processes ≡ some n) × (get_elem? o.infos n ≡ some info)
unfolding find_process
find_process-at id n info o found = elim (Option-cases (lookup id o.processes)) [
  | inl missing ↦ absurd (cc (rw (find_process, missing) at found))
  | inr (m, entry) ↦ elim (Option-cases (get_elem? o.infos m)) [
    | inl dangling ↦ absurd (cc (rw (find_process, entry, dangling) at found))
    | inr (i, here) ↦
        let e = some_eq (rw (find_process, entry, here) at found) in
        let first = ap (λ (p : ℕ × ProcessInfo). p.0) e in
        (
          entry ∙ ap some first,
          ap (get_elem? o.infos) (sym first)
              ∙ (here ∙ ap some (ap (λ (p : ℕ × ProcessInfo). p.1) e)),
        )
  ]
]

module _ {S : Type 0} (host : Host S) where
  stop_component-IsValid :
      (id : String) (s : S) (o : ProcessOrchestrator)
      → IsValid o
      → IsValid (stop_component host id s o).1
  unfolding stop_component
  stop_component-IsValid id s o h = elim (Option-cases (find_process id o)) [
    | inl missing ↦ rw (stop_component, missing) h
    | inr ((n, info), found) ↦ elim (Bool-cases (is_over info.status)) [
      | inl over ↦ rw (stop_component, found, over) h
      | inr live ↦
          rw (stop_component, found, live)
            (stop_process-IsValid n info o (find_process-at id n info o found).1 h)
    ]
  ]

  stop_each-IsValid :
      (entries : StringMap ℕ) (s : S) (o : ProcessOrchestrator)
      → IsValid o
      → IsValid (stop_each host entries s o).1
  unfolding stop_each
  stop_each-IsValid [] s o h = h
  stop_each-IsValid ((id, n) ∷ entries) s o h = elim (Option-cases (get_elem? o.infos n)) [
    | inl missing ↦ rw (stop_each, missing) (stop_each-IsValid entries s o h)
    | inr (info, here) ↦ elim (Bool-cases (is_over info.status)) [
      | inl over ↦ rw (stop_each, here, over) (stop_each-IsValid entries s o h)
      | inr live ↦
          rw (stop_each, here, live)
            (stop_each-IsValid entries _ (stop_process n info o)
              (stop_process-IsValid n info o here h))
    ]
  ]

module _ {S : Type 0} (host : Host S) (visit : StringMap String → StringMap String)
    (visit_processes : StringMap ℕ → StringMap ℕ) where
  launch_component-IsValid :
      (c : Component) (s : S) (o : ProcessOrchestrator)
      → runs_already (find_process c.id o) ≡ false
      → IsValid o
      → IsValid (launch_component host visit c s o).1
  unfolding launch_component
  launch_component-IsValid c s o idle h =
      let s₁ = (build_command host c s).0 in
      elim (Try-cases (build_command host c s).1) [
        | inl (e, unbuilt) ↦ rw (unbuilt, launch_component) h
        | inr (cmd, built) ↦ elim (Option-cases (host.create_log (log_path o c.id) s₁).1) [
          | inr (e, unlogged) ↦ rw (built, unlogged, launch_component) h
          | inl logged ↦
              rw (built, logged, launch_component)
                (let full = full_command visit (host.environ s₁) c cmd o in
                  let s₂ = (host.create_log (log_path o c.id) s₁).0 in
                  elim (Try-cases (host.start full s₂).1) [
                    | inl (e, unstarted) ↦ rw (unstarted, launch_component) h
                    | inr (pid, started) ↦
                        rw (started, launch_component)
                          (add_process-IsValid c
                            (new_process c full (host.now (host.start full s₂).0) pid) o refl idle
                            h)
                  ])
        ]
      ]

  start_component-IsValid :
      (c : Component) (s : S) (o : ProcessOrchestrator)
      → IsValid o
      → IsValid (start_component host visit c s o).1
  unfolding start_component
  start_component-IsValid c s o h = elim (Bool-cases (runs_already (find_process c.id o))) [
    | inl busy ↦ rw (start_component, busy) h
    | inr idle ↦ rw (start_component, idle) (launch_component-IsValid c s o idle h)
  ]

  pub step-IsValid :
      (e : Event) (s : S) (o : ProcessOrchestrator)
      → IsValid o
      → IsValid (step host visit visit_processes e s o).1
  unfolding step stop_all
  step-IsValid (starts c) s o h = start_component-IsValid c s o h
  step-IsValid (stops id) s o h = stop_component-IsValid host id s o h
  step-IsValid stops_all s o h = stop_each-IsValid host (visit_processes o.processes) s o h
  step-IsValid (exits n err) s o h = monitor_process-IsValid n err o h
  step-IsValid (ticks k) s o h = tick-IsValid k o h

  pub steps-IsValid :
      (es : List Event) (s : S) (o : ProcessOrchestrator)
      → IsValid o
      → IsValid (steps host visit visit_processes es s o).1
  unfolding steps
  steps-IsValid [] s o h = h
  steps-IsValid (e ∷ es) s o h = steps-IsValid es _ _ (step-IsValid e s o h)

pub new-IsValid : (endpoint : String) → IsValid (new_process_orchestrator endpoint)
unfolding new_process_orchestrator lookup
new-IsValid endpoint = record {
  unique = tt;
  entries = λ id n h. absurd (cc h);
  current = λ n info h. absurd (cc h);
}

-- After any events that reach a new orchestrator, no two processes of one component count as running.
pub steps-single :
    {S : Type 0} (host : Host S) (visit : StringMap String → StringMap String)
    (visit_processes : StringMap ℕ → StringMap ℕ) (endpoint : String) (es : List Event) (s : S)
    (n m : ℕ) (i j : ProcessInfo)
    → let o = (steps host visit visit_processes es s (new_process_orchestrator endpoint)).1 in
      get_elem? o.infos n ≡ some i
      → get_elem? o.infos m ≡ some j
      → i.status ≡ status_running
      → j.status ≡ status_running
      → i.component.id ≡ j.component.id
      → n ≡ m
steps-single host visit visit_processes endpoint es s n m i j first second runs runs' same =
    let o = (steps host visit visit_processes es s (new_process_orchestrator endpoint)).1 in
    let h =
      steps-IsValid host visit visit_processes es s (new_process_orchestrator endpoint)
        (new-IsValid endpoint) in
    some_eq (
      sym (h.current n i first runs)
      ∙ (ap (λ k. lookup k o.processes) same ∙ h.current m j second runs'))
