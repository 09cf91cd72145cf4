-- ===== src/ControlPlane/Runs.antt =====
-- Pipeline runs: CreatePipelineRun, UpdatePipelineRun, GetPipelineRun, ListPipelineRuns and
-- StopPipelineRun.
pub mod History
pub mod Answers
pub mod Trace
use flowctl.Prelude.{
  ℕ, String, Bool, not, ◌&&◌, ◌||◌, Option, none, some, List, [], str_eq, if◌then◌else◌,
}
use flowctl.Prelude.Int.{ℤ, pos, eq_ℤ}
use flowctl.Prelude.Map.{lookup}
use flowctl.Proto.Enums.{RunStatus, run_status_eq}
use flowctl.Proto.Messages.{
  PipelineRun, CreatePipelineRunRequest, UpdatePipelineRunRequest, ListPipelineRunsRequest,
}
use flowctl.Storage.Types
use flowctl.Storage.Types.{Updater, StorageError, is_not_found}
use flowctl.Storage.Interface.{ServiceStorage}
use flowctl.ControlPlane.State.{
  Server, Reply, ok, err, fault, storage_not_configured, storage_error, run_missing,
}

-- The run that a request creates at `now`. The metrics start at zero.
unfoldable pub new_run : ℕ → CreatePipelineRunRequest → PipelineRun
new_run now req = record {
  run_id = req.run_id;
  pipeline_id = req.pipeline_name;
  pipeline_name = req.pipeline_name;
  status = RunStatus.starting;
  start_time = some now;
  end_time = none;
  config_yaml = req.config_yaml;
  metrics = some (record {
    events_processed = pos 0;
    events_per_second = 0;
    bytes_processed = pos 0;
    component_metrics = [];
  });
  error = "";
  component_ids = req.component_ids;
}

abbrev pub is_final : RunStatus → Bool
is_final status =
    run_status_eq status RunStatus.completed
    || run_status_eq status RunStatus.failed
    || run_status_eq status RunStatus.stopped

-- The run after the request's status, metrics and error are written: the unknown status, absent
-- metrics and an empty error write nothing, and the first error stays.
unfoldable pub updated_run : ℕ → UpdatePipelineRunRequest → PipelineRun → PipelineRun
updated_run now req run = record run {
  status = if run_status_eq req.status RunStatus.unknown then run.status else req.status;
  end_time = if is_final req.status then some now else run.end_time;
  metrics = elim req.metrics [ none ↦ run.metrics | some m ↦ some m ];
  error = if not (str_eq req.error "") && str_eq run.error "" then req.error else run.error;
}

unfoldable pub update_run : ℕ → UpdatePipelineRunRequest → Updater PipelineRun
unfolding updated_run
update_run now req run = (updated_run now req run, none)

unfoldable pub stopped_run : ℕ → PipelineRun → PipelineRun
stopped_run now run = record run { status = RunStatus.stopped; end_time = some now }

unfoldable pub stop_run : ℕ → Updater PipelineRun
unfolding stopped_run
stop_run now run = (stopped_run now run, none)

abbrev run_limit : ℤ → ℤ
run_limit limit = if eq_ℤ limit (pos 0) then pos 10 else limit

-- A read error: a missing record is reported as such, any other error is wrapped.
abbrev read_error : String → StorageError → Reply PipelineRun
read_error id e = if is_not_found e then err (run_missing id) else err (storage_error e)

module _ (st : ServiceStorage) where
  open st use {State}

  unfoldable pub create_pipeline_run :
      ℕ → CreatePipelineRunRequest → Server State → Server State × Reply PipelineRun
  unfolding new_run
  create_pipeline_run now req s = elim s.storage [
    | none ↦ (s, ok (new_run now req))
    | some d ↦
        let (d', failure) = st.create_pipeline_run (new_run now req) d in
        (
          record s { storage = some d' },
          elim failure [ none ↦ ok (new_run now req) | some e ↦ err (storage_error e) ],
        )
  ]

  -- The answer to an update: the record that the updater kept. (A success that never called the
  -- updater would answer a nil run.)
  abbrev pub run_answer : Option PipelineRun → Reply PipelineRun
  run_answer none = fault
  run_answer (some run) = ok run

  unfoldable pub update_pipeline_run :
      ℕ → UpdatePipelineRunRequest → Server State → Server State × Reply PipelineRun
  unfolding update_run
  update_pipeline_run now req s = elim s.storage [
    | none ↦ (s, err storage_not_configured)
    | some d ↦
        let (d', failure, kept) = st.update_pipeline_run req.run_id (update_run now req) d in
        (
          record s { storage = some d' },
          elim failure [ none ↦ run_answer kept | some e ↦ err (storage_error e) ],
        )
  ]

  -- The third part is the stop callback that is started, if the run has one.
  unfoldable pub stop_pipeline_run :
      ℕ → String → Server State → Server State × Reply PipelineRun × Option ℕ
  unfolding stop_run
  stop_pipeline_run now id s = elim s.storage [
    | none ↦ (s, err storage_not_configured, none)
    | some d ↦
        let (d', failure, kept) = st.update_pipeline_run id (stop_run now) d in
        (
          record s { storage = some d' },
          elim failure [ none ↦ run_answer kept | some e ↦ read_error id e ],
          lookup id s.run_stoppers,
        )
  ]

  unfoldable pub get_pipeline_run : String → Server State → Reply PipelineRun
  get_pipeline_run id s = elim s.storage [
    | none ↦ err storage_not_configured
    | some d ↦ elim (st.get_pipeline_run id d) [
      | Types.ok run ↦ ok run
      | Types.fail e ↦ read_error id e
    ]
  ]

  unfoldable pub list_pipeline_runs :
      ListPipelineRunsRequest → Server State → Reply (List PipelineRun)
  list_pipeline_runs req s = elim s.storage [
    | none ↦ ok []
    | some d ↦ elim (st.list_pipeline_runs req.pipeline_name req.status (run_limit req.limit) d) [
      | Types.ok runs ↦ ok runs
      | Types.fail e ↦ err (storage_error e)
    ]
  ]
