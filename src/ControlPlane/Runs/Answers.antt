-- ===== src/ControlPlane/Runs/Answers.antt =====
-- What UpdatePipelineRun and StopPipelineRun answer and leave to read, whether or not the run is stored.
use flowctl.Prelude.{
  ℕ, String, ◌≡◌, refl, ap, ◌∙◌, arith, eq_iff, not, ◌&&◌, Option, none, some, str_eq,
  if◌then◌else◌, Option-cases, inl, inr,
}
use flowctl.Prelude.Map.{lookup}
use flowctl.Proto.Enums.{RunStatus, run_status_eq}
use flowctl.Proto.Messages.{PipelineRun, UpdatePipelineRunRequest}
use flowctl.Storage.Types.{run_not_found}
use flowctl.Storage.Interface.{ServiceStorage, IsReliable}
use flowctl.ControlPlane.State.{Server, ok, err, storage_error, run_missing}
use flowctl.ControlPlane.Runs.{
  is_final, updated_run, update_pipeline_run, stop_pipeline_run, get_pipeline_run,
}
use flowctl.ControlPlane.Runs.History.{get-update, update_unknown, get-stop, stop_unknown}

abbrev pub status_after : RunStatus → RunStatus → RunStatus
status_after RunStatus.unknown old = old
status_after new old = new

abbrev pub end_after : RunStatus → ℕ → Option ℕ → Option ℕ
end_after RunStatus.completed now old = some now
end_after RunStatus.failed now old = some now
end_after RunStatus.stopped now old = some now
end_after _ now old = old

-- The run as an update leaves it: the status and the metrics that the request has, the end, if the
-- status is a final one, and the first error.
abbrev pub as_updated : ℕ → UpdatePipelineRunRequest → PipelineRun → PipelineRun
as_updated now req run = record run {
  status = status_after req.status run.status;
  end_time = end_after req.status now run.end_time;
  metrics = elim req.metrics [ none ↦ run.metrics | some m ↦ some m ];
  error = if str_eq run.error "" then req.error else run.error;
}

status_after_lem :
    (new old : RunStatus)
    → (if run_status_eq new RunStatus.unknown then old else new) ≡ status_after new old
status_after_lem new old = ground arith

end_after_lem :
    (new : RunStatus) (now : ℕ) (old : Option ℕ)
    → (if is_final new then some now else old) ≡ end_after new now old
end_after_lem new now old = ground arith

updated_run_lem :
    (now : ℕ) (req : UpdatePipelineRunRequest) (run : PipelineRun)
    → updated_run now req run ≡ as_updated now req run
unfolding updated_run
updated_run_lem now req run =
    let error : (if not (str_eq req.error "") && str_eq run.error "" then req.error else run.error)
        ≡ (if str_eq run.error "" then req.error else run.error) =
      ground (arith, eq_iff run.error "", eq_iff req.error "") in
    rw
      (
        updated_run,
        error,
        status_after_lem req.status run.status,
        end_after_lem req.status now run.end_time,
      )
      refl

-- The run as a stop leaves it.
abbrev pub as_stopped : ℕ → PipelineRun → PipelineRun
as_stopped now run = record run { status = RunStatus.stopped; end_time = some now }

module _ (st : ServiceStorage) (rel : IsReliable st) (s : Server (st.State)) (d : st.State)
    (on : s.storage ≡ some d) where
  -- Where the run is stored, an update answers it with the status and the metrics that the request
  -- has, the end if that status is a final one, and its first error, and that is what is then read
  -- under its identifier; where it is not, the answer is the storage's not-found error. All else
  -- that is read stays.
  pub update_answers :
      (now : ℕ) (req : UpdatePipelineRunRequest) (j : String)
      → ((update_pipeline_run st now req s).1 ≡ elim (rel.run d req.run_id) [
        | none ↦ err (storage_error (run_not_found req.run_id))
        | some run ↦ ok (as_updated now req run)
      ])
        × (get_pipeline_run st j (update_pipeline_run st now req s).0
            ≡ elim (rel.run d req.run_id) [
              | none ↦ get_pipeline_run st j s
              | some run ↦
                  if str_eq req.run_id j
                  then ok (as_updated now req run)
                  else get_pipeline_run st j s
            ])
  update_answers now req j = elim (Option-cases (rel.run d req.run_id)) [
    | inl absent ↦
        let (answer, read) = update_unknown st rel s d on now req j absent in
        (rw absent answer, rw absent read)
    | inr (run, present) ↦
        let (answer, read) = get-update st rel s d on now req j run present in
        (
          rw present (answer ∙ ap ok (updated_run_lem now req run)),
          rw present (
              read
              ∙ ap (λ x. if str_eq req.run_id j then ok x else get_pipeline_run st j s)
                  (updated_run_lem now req run)),
        )
  ]

  -- Where the run is stored, a stop answers it as stopped and ended now, and that is what is then read
  -- under its identifier; where it is not, the answer is the not-found error. All else that is read
  -- stays. In both cases the stop callback registered under the identifier, if any, is started.
  stop_answers :
      (now : ℕ) (id j : String)
      → ((stop_pipeline_run st now id s).2 ≡ lookup id s.run_stoppers)
        × ((stop_pipeline_run st now id s).1 ≡ elim (rel.run d id) [
          | none ↦ err (run_missing id)
          | some run ↦ ok (as_stopped now run)
        ])
        × (get_pipeline_run st j (stop_pipeline_run st now id s).0 ≡ elim (rel.run d id) [
          | none ↦ get_pipeline_run st j s
          | some run ↦ if str_eq id j then ok (as_stopped now run) else get_pipeline_run st j s
        ])
  stop_answers now id j = elim (Option-cases (rel.run d id)) [
    | inl absent ↦
        let (started, answer, read) = stop_unknown st rel s d on now id j absent in
        (started, rw absent answer, rw absent read)
    | inr (run, present) ↦
        let (started, answer, read) = get-stop st rel s d on now id j run present in
        (started, rw present answer, rw present read)
  ]
