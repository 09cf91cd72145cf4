-- ===== src/Orchestrator/Process.antt =====
-- internal/orchestrator/process.go: ProcessOrchestrator. A *ProcessInfo is shared by the map of processes
-- and the goroutine that waits for the process: it is an index into `infos`, where StartComponent adds one.
-- What the code asks of the operating system, of the image client and of path/filepath is a record of
-- functions on a state of any type.
pub mod Command
pub mod Events
pub mod Valid
pub mod Reachable
pub mod Restart
pub mod Shared
pub mod StopAll
use flowctl.Prelude.{
  ℕ, String, Bool, true, false, ◌&&◌, ◌||◌, not, Option, none, some, List, [], ◌∷◌, ◌++◌, map,
  if◌then◌else◌, length, get_elem?, set, str_eq, is_some,
}
use flowctl.Prelude.Map.{StringMap, lookup, insert}
use flowctl.Prelude.Texts.{concat}
use flowctl.Prelude.Decimal.{show_ℕ}
use flowctl.Proto.Enums.{HealthStatus, unknown}
use flowctl.Proto.Messages.{HeartbeatRequest}
use flowctl.Orchestrator.{
  Component, Status, status_running, status_stopping, status_stopped, status_failed,
  ComponentStatus,
}
use flowctl.Orchestrator.Environment.{build_environment}
use flowctl.Orchestrator.Process.Command.{Cmd, Try, gives, fails, Host, build_command}

pub record ProcessInfo : Type 0 where
  pub component : Component
  pub cmd : Cmd
  pub status : Status
  pub start_time : ℕ
  pub log_open : Bool
  pub error : Option String
  pub pid : ℕ

-- `beats` are the components of the heartbeat goroutines that run.
pub record ProcessOrchestrator : Type 0 where
  pub endpoint : String
  pub log_dir : String
  pub processes : StringMap ℕ
  pub infos : List ProcessInfo
  pub beats : List String

pub data ProcessError : Type 0 where
  already_running not_found : String → ProcessError
  command_failed log_failed start_failed : String → ProcessError
  stop_errors : List String → ProcessError

abbrev pub is_running : Status → Bool
is_running status_running = true
is_running _ = false

-- StatusStopped or StatusFailed.
abbrev pub is_over : Status → Bool
is_over status_stopped = true
is_over status_failed = true
is_over _ = false

abbrev pub is_stopping : Status → Bool
is_stopping status_stopping = true
is_stopping _ = false

-- The process of a component: the pointer in the map, and what is behind it.
unfoldable pub find_process : String → ProcessOrchestrator → Option (ℕ × ProcessInfo)
find_process id o = elim (lookup id o.processes) [
  | none ↦ none
  | some n ↦ elim (get_elem? o.infos n) [ none ↦ none | some info ↦ some (n, info) ]
]

unfoldable pub write_info : ℕ → ProcessInfo → ProcessOrchestrator → ProcessOrchestrator
write_info n info o = record o { infos = set o.infos n info }

unfoldable pub new_process : Component → Cmd → (now pid : ℕ) → ProcessInfo
new_process c cmd now pid = record {
  component = c;
  cmd = cmd;
  status = status_running;
  start_time = now;
  log_open = true;
  error = none;
  pid = pid;
}

-- The process is stored, and its heartbeat goroutine starts.
unfoldable pub add_process : Component → ProcessInfo → ProcessOrchestrator → ProcessOrchestrator
add_process c info o = record o {
  processes = insert c.id (length o.infos) o.processes;
  infos = o.infos ++ (info ∷ []);
  beats = o.beats ++ (c.id ∷ []);
}

abbrev pub log_path : ProcessOrchestrator → String → String
log_path o id = concat (o.log_dir ∷ "/" ∷ id ∷ ".log" ∷ [])

-- The command with its environment and its directory.
unfoldable pub full_command :
    (StringMap String → StringMap String)
    → List (String × String)
    → Component
    → Cmd
    → ProcessOrchestrator
    → Cmd
unfolding build_environment
full_command order os c cmd o = record cmd {
  env = build_environment order os o.endpoint (length o.processes) c.id c.environment;
  dir = c.working_dir;
}

abbrev pub runs_already : Option (ℕ × ProcessInfo) → Bool
runs_already none = false
runs_already (some (n, info)) = is_running info.status

unfoldable pub stop_process : ℕ → ProcessInfo → ProcessOrchestrator → ProcessOrchestrator
unfolding write_info
stop_process n info o = write_info n (record info { status = status_stopped; log_open = false }) o

module _ {S : Type 0} (host : Host S) where
  -- SIGTERM, and a kill if that fails: the error of the kill.
  unfoldable pub terminate : ℕ → S → S × Option String
  terminate pid s =
      let (s', failed) = host.signal pid s in
      if is_some failed then host.kill pid s' else (s', none)

  unfoldable pub stop_component :
      String → S → ProcessOrchestrator → S × ProcessOrchestrator × Option ProcessError
  unfolding find_process terminate stop_process
  stop_component id s o = elim (find_process id o) [
    | none ↦ (s, o, some (not_found id))
    | some (n, info) ↦
        if is_over info.status
        then (s, o, none)
        else ((terminate info.pid s).0, stop_process n info o, none)
  ]

  -- The loop of StopAll, with the errors of the kills.
  unfoldable pub stop_each :
      StringMap ℕ → S → ProcessOrchestrator → S × ProcessOrchestrator × List String
  unfolding terminate stop_process
  stop_each [] s o = (s, o, [])
  stop_each ((id, n) ∷ entries) s o = elim (get_elem? o.infos n) [
    | none ↦ stop_each entries s o
    | some info ↦
        if is_over info.status
        then stop_each entries s o
        else let (s', killed) = terminate info.pid s in
          let (s'', o', errors) = stop_each entries s' (stop_process n info o) in
          (s'', o', elim killed [ none ↦ errors | some e ↦ e ∷ errors ])
  ]

  unfoldable pub stop_all :
      (StringMap ℕ → StringMap ℕ)
      → S
      → ProcessOrchestrator
      → S × ProcessOrchestrator × Option ProcessError
  unfolding stop_each
  stop_all order s o =
      let (s', o', errors) = stop_each (order o.processes) s o in
      (s', o', elim errors [ [] ↦ none | e ∷ es ↦ some (stop_errors (e ∷ es)) ])

  -- The steps of StartComponent after the check.
  unfoldable pub launch_component :
      (StringMap String → StringMap String)
      → Component
      → S
      → ProcessOrchestrator
      → S × ProcessOrchestrator × Option ProcessError
  unfolding build_command full_command new_process add_process
  launch_component order c s o =
      let (s₁, built) = build_command host c s in
      elim built [
        | fails e ↦ (s₁, o, some (command_failed e))
        | gives cmd ↦
            let full = full_command order (host.environ s₁) c cmd o in
            let (s₂, unlogged) = host.create_log (log_path o c.id) s₁ in
            elim unlogged [
              | some e ↦ (s₂, o, some (log_failed e))
              | none ↦
                  let (s₃, started) = host.start full s₂ in
                  elim started [
                    | fails e ↦ (s₃, o, some (start_failed e))
                    | gives pid ↦ (s₃, add_process c (new_process c full (host.now s₃) pid) o, none)
                  ]
            ]
      ]

  unfoldable pub start_component :
      (StringMap String → StringMap String)
      → Component
      → S
      → ProcessOrchestrator
      → S × ProcessOrchestrator × Option ProcessError
  unfolding find_process launch_component
  start_component order c s o =
      if runs_already (find_process c.id o)
      then (s, o, some (already_running c.id))
      else launch_component order c s o

unfoldable pub status_of : String → ProcessInfo → ComponentStatus
status_of id info = record {
  id = id;
  status = info.status;
  pid = info.pid;
  start_time = info.start_time;
  error = elim info.error [ none ↦ "" | some e ↦ e ];
  metadata = ("type", info.component.type) ∷ ("name", info.component.name) ∷ [];
}

unfoldable pub get_status : String → ProcessOrchestrator → Option ComponentStatus
unfolding find_process status_of
get_status id o = elim (find_process id o) [
  | none ↦ none
  | some (n, info) ↦ some (status_of id info)
]

unfoldable pub get_all_status : StringMap ℕ → List ProcessInfo → StringMap ComponentStatus
unfolding status_of
get_all_status [] infos = []
get_all_status ((id, n) ∷ entries) infos =
    let rest = get_all_status entries infos in
    elim (get_elem? infos n) [ none ↦ rest | some info ↦ insert id (status_of id info) rest ]

unfoldable pub is_healthy : String → ProcessOrchestrator → Option Bool
unfolding get_status
is_healthy id o = elim (get_status id o) [
  | none ↦ none
  | some status ↦ some (is_running status.status)
]

-- The process has ended, with its error: the end of the goroutine that waits for it.
unfoldable pub monitor_process : ℕ → Option String → ProcessOrchestrator → ProcessOrchestrator
unfolding write_info
monitor_process n err o = elim (get_elem? o.infos n) [
  | none ↦ o
  | some info ↦ elim err [
    | none ↦ write_info n (record info { status = status_stopped; log_open = false }) o
    | some e ↦
        write_info n (record info { status = status_failed; log_open = false; error = some e }) o
  ]
]

unfoldable pub beat_request : String → ProcessInfo → HeartbeatRequest
beat_request id info = record {
  service_id = id;
  status = unknown;
  metrics = ("orchestrator", "process") ∷ ("pid", show_ℕ info.pid) ∷ [];
}

-- What a tick finds: the end of the goroutine, or the heartbeat that it sends.
unfoldable pub beat_tick : String → ProcessOrchestrator → Option HeartbeatRequest
unfolding find_process beat_request
beat_tick id o = elim (find_process id o) [
  | none ↦ none
  | some (n, info) ↦
      if is_over info.status || is_stopping info.status then none else some (beat_request id info)
]

-- The heartbeat that the goroutine sends before its first tick.
unfoldable pub first_beat : String → ProcessOrchestrator → Option HeartbeatRequest
unfolding find_process beat_request
first_beat id o = elim (find_process id o) [
  | none ↦ none
  | some (n, info) ↦ some (beat_request id info)
]
