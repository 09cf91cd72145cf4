-- ===== src/Tests/Orchestrator.antt =====
-- Examples for the process orchestrator.
use flowctl.Prelude.{
  ℕ, suc, ◌≡◌, ◌≢◌, refl, String, true, false, none, some, [], ◌∷◌, map, get_elem?,
}
use flowctl.Prelude.Map.{StringMap, lookup, insert, HasUniqueKeys}
use flowctl.Prelude.Texts.{join}
use flowctl.Orchestrator.{Component, status_running, status_stopped, status_failed}
use flowctl.Orchestrator.Environment.{
  build_environment, VisitsOnce, last_value, environment_values, flowctl_env,
}
use flowctl.Orchestrator.Process.Command.{command, gives, Host}
use flowctl.Orchestrator.Process.{
  ProcessInfo, ProcessOrchestrator, find_process, add_process, stop_component, stop_all,
  monitor_process, get_status, status_of, is_healthy, new_process, full_command,
}
use flowctl.Orchestrator.Process.Events.{starts, stops, exits, steps, new_process_orchestrator}
use flowctl.Orchestrator.Process.Reachable.{new-IsValid, steps-single, steps-IsValid}
use flowctl.Orchestrator.Process.Restart.{stopped_then_failed}
use flowctl.Orchestrator.Process.Shared.{restart_shares_port}
use flowctl.Orchestrator.Process.Valid.{IsValid}
use flowctl.Orchestrator.Process.StopAll.{stop_all-idle}

-- Everything succeeds; the state counts the processes.
abbrev host : Host ℕ
host = record {
  pull = λ ref n. (n, none);
  extract = λ ref n. (n, gives "/image");
  join_path = join "/";
  is_file = λ path n. false;
  environ = λ n. ("PATH", "/bin") ∷ [];
  create_log = λ path n. (n, none);
  start = λ cmd n. (suc n, gives n);
  signal = λ pid n. (n, none);
  kill = λ pid n. (n, none);
  now = λ n. n;
}

abbrev worker : String → Component
worker id = record {
  id = id;
  type = "worker";
  name = id;
  image = "";
  command = "./worker" ∷ [];
  args = "-v" ∷ [];
  environment = ("MODE", "fast") ∷ [];
  working_dir = "";
}

abbrev same_order : StringMap String → StringMap String
same_order m = m

abbrev same_processes : StringMap ℕ → StringMap ℕ
same_processes m = m

same_order-VisitsOnce : VisitsOnce same_order
same_order-VisitsOnce m h = (h, λ key. refl)

abbrev idle : ProcessOrchestrator
idle = record { endpoint = "cp:8080"; log_dir = "logs"; processes = []; infos = []; beats = [] }

abbrev running : ProcessInfo
running = record {
  component = worker "a";
  cmd = command "./worker" ("-v" ∷ []);
  status = status_running;
  start_time = 1;
  log_open = true;
  error = none;
  pid = 7;
}

abbrev busy : ProcessOrchestrator
busy = record idle { processes = ("a", 0) ∷ []; infos = running ∷ []; beats = "a" ∷ [] }

-- A restart while the first process has not ended, which then ends by its signal.
restarted :
    map
      (λ (i : ProcessInfo). i.status)
      (steps host same_order same_processes
        (starts (worker "a")
          ∷ stops "a"
          ∷ starts (worker "a")
          ∷ exits 0 (some "signal: terminated")
          ∷ [])
        1
        idle).1.infos
    ≡ status_failed ∷ status_running ∷ []
unfolding steps lookup insert
restarted = refl

environment_values_example :
    last_value "FLOWCTL_ENDPOINT"
      (build_environment same_order (("PATH", "/bin") ∷ []) "cp:8080" 0 "a" (("MODE", "fast") ∷ []))
    ≡ some "cp:8080"
unfolding last_value flowctl_env lookup
environment_values_example =
    environment_values same_order (("PATH", "/bin") ∷ []) "cp:8080" 0 "a" (("MODE", "fast") ∷ [])
      same_order-VisitsOnce (refl, tt) "FLOWCTL_ENDPOINT"

-- The process that the first start makes.
abbrev started : ProcessInfo
started =
    new_process (worker "a")
      (full_command same_order (("PATH", "/bin") ∷ []) (worker "a") (command "./worker" ("-v" ∷ []))
        idle)
      2 1

started_here :
    get_elem?
      (steps host same_order same_processes
        (starts (worker "a") ∷ [])
        1
        (new_process_orchestrator "cp:8080")).1.infos
      0
    ≡ some started
unfolding steps new_process_orchestrator lookup insert
started_here = refl

started_runs : started.status ≡ status_running
unfolding new_process
started_runs = refl

steps-single_example : ◌≡◌ {A = ℕ} 0 0
steps-single_example =
    steps-single host same_order same_processes "cp:8080" (starts (worker "a") ∷ []) 1 0 0 started
      started started_here started_here started_runs started_runs refl

busy_found : find_process "a" busy ≡ some (0, running)
unfolding find_process lookup
busy_found = refl

stopped_then_failed_example :
    let (s', o', refusal) = stop_component host "a" 8 busy in
    (refusal ≡ none)
    × (get_status "a" o'
        ≡ some (status_of "a" (record running { status = status_stopped; log_open = false })))
    × (get_status "a" (monitor_process 0 (some "signal: terminated") o')
        ≡ some (
            status_of "a" (record running {
              status = status_failed;
              log_open = false;
              error = some "signal: terminated";
            })))
stopped_then_failed_example =
    stopped_then_failed host 8 busy "a" 0 running "signal: terminated" busy_found refl

busy_entry : lookup "a" busy.processes ≡ some 0
unfolding lookup
busy_entry = refl

no_port : lookup "HEALTH_PORT" (worker "a").environment ≡ none
unfolding lookup
no_port = refl

mode_is_unique : HasUniqueKeys (worker "a").environment
unfolding lookup
mode_is_unique = (refl, tt)

restart_shares_port_example :
    last_value "HEALTH_PORT"
      (full_command same_order []
        (worker "b")
        (command "./worker" [])
        (add_process (worker "a") running busy)).env
    ≡ last_value "HEALTH_PORT"
        (full_command same_order [] (worker "a") (command "./worker" []) busy).env
restart_shares_port_example =
    restart_shares_port same_order [] (worker "a") (worker "b") (command "./worker" [])
      (command "./worker" []) busy 0 running same_order-VisitsOnce mode_is_unique mode_is_unique
      no_port no_port busy_entry

busy-is_healthy : is_healthy "a" busy ≡ some true
unfolding is_healthy lookup
busy-is_healthy = refl

-- What one start leaves.
abbrev one_started : ProcessOrchestrator
one_started =
    (steps host same_order same_processes (starts (worker "a") ∷ []) 1
      (new_process_orchestrator "cp:8080")).1

one_started-IsValid : IsValid one_started
one_started-IsValid =
    steps-IsValid host same_order same_processes (starts (worker "a") ∷ []) 1
      (new_process_orchestrator "cp:8080") (new-IsValid "cp:8080")

one_stopped :
    get_elem? (stop_all host same_processes 3 one_started).1.infos 0
    ≡ some (record started { status = status_stopped; log_open = false })
unfolding stop_all steps new_process_orchestrator lookup insert
one_stopped = refl

stop_all-idle_example : status_stopped ≢ status_running
stop_all-idle_example =
    stop_all-idle host same_processes 3 one_started (λ id. refl) one_started-IsValid 0
      (record started { status = status_stopped; log_open = false }) one_stopped
