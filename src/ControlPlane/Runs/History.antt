-- ===== src/ControlPlane/Runs/History.antt =====
-- What the run handlers leave in the history of pipeline runs.
use flowctl.Prelude.{
  ℕ, String, ◌≡◌, refl, ◌⊎◌, true, false, Option, none, some, str_eq, eq_iff, arith, if◌then◌else◌,
  is_some,
}
use flowctl.Prelude.Map.{lookup}
use flowctl.Proto.Enums.{RunStatus}
use flowctl.Proto.Messages.{PipelineRun, CreatePipelineRunRequest, UpdatePipelineRunRequest}
use flowctl.Storage.Types.{run_not_found, Updater}
use flowctl.Storage.Interface.{ServiceStorage, IsReliable}
use flowctl.ControlPlane.State.{Server, Reply, ok, err, storage_error, run_missing}
use flowctl.ControlPlane.Runs.{
  new_run, is_final, updated_run, update_run, stopped_run, stop_run, create_pipeline_run,
  update_pipeline_run, stop_pipeline_run, get_pipeline_run,
}

-- A run that has ended has an end time.
abbrev pub HasEnd : PipelineRun → Type 0
HasEnd run = (is_final run.status ≡ false) ⊎ (is_some run.end_time ≡ true)

pub updated_run-HasEnd :
    (now : ℕ) (req : UpdatePipelineRunRequest) (run : PipelineRun)
    → HasEnd run
    → HasEnd (updated_run now req run)
unfolding updated_run
updated_run-HasEnd now req run h = ground arith

-- The answer to a read, from the storage's record.
abbrev pub answer_of : String → Option PipelineRun → Reply PipelineRun
answer_of id none = err (run_missing id)
answer_of id (some run) = ok run

module _ (st : ServiceStorage) (rel : IsReliable st) (s : Server (st.State)) (d : st.State)
    (on : s.storage ≡ some d) where
  get-answer_of : (id : String) → get_pipeline_run st id s ≡ answer_of id (rel.run d id)
  unfolding get_pipeline_run
  get-answer_of id = rw (on, get_pipeline_run) (ground (arith, rel.get_run_lem id d))

  -- Creating a run under an identifier that the storage accepts makes it readable under it:
  -- starting since the time of the call, with no end, no error and zero metrics, under the
  -- pipeline's name; the answer is that run, and what is read under any other identifier stays.
  get-create :
      (now : ℕ) (req : CreatePipelineRunRequest) (j : String)
      → rel.accepts req.run_id ≡ true
      → (get_pipeline_run st j (create_pipeline_run st now req s).0
          ≡ (if str_eq req.run_id j then ok (new_run now req) else get_pipeline_run st j s))
        × ((create_pipeline_run st now req s).1 ≡ ok (new_run now req))
        × ((new_run now req).status ≡ RunStatus.starting)
        × ((new_run now req).start_time ≡ some now)
        × ((new_run now req).end_time ≡ none)
        × ((new_run now req).error ≡ "")
        × ((new_run now req).pipeline_id ≡ req.pipeline_name)
  unfolding create_pipeline_run get_pipeline_run new_run
  get-create now req j fine =
      let d' = (st.create_pipeline_run (new_run now req) d).0 in
      rw (on, create_pipeline_run)
        (
          ground (
            arith,
            rel.get_run_lem j d',
            rel.get_run_lem j d,
            rel.run-create (new_run now req) d j fine,
            eq_iff req.run_id j,
          ),
          rw (rel.create_error (new_run now req) d fine),
          refl,
          refl,
          refl,
          refl,
          refl,
        )

  -- What a write of one run leaves to read: the run as the updater made it, and the others as they were.
  get-updated :
      (f : Updater PipelineRun) (id j : String) (run : PipelineRun)
      → ((r : PipelineRun) → (f r).1 ≡ none)
      → rel.run d id ≡ some run
      → get_pipeline_run st j (record s { storage = some (st.update_pipeline_run id f d).0 })
        ≡ (if str_eq id j then ok (f run).0 else get_pipeline_run st j s)
  unfolding get_pipeline_run
  get-updated f id j run quiet present = ground (
    arith,
    on,
    rel.get_run_lem j (st.update_pipeline_run id f d).0,
    rel.get_run_lem j d,
    rel.run-update id f d j quiet,
    eq_iff id j,
  )

  get-not_updated :
      (f : Updater PipelineRun) (id j : String)
      → ((r : PipelineRun) → (f r).1 ≡ none)
      → rel.run d id ≡ none
      → get_pipeline_run st j (record s { storage = some (st.update_pipeline_run id f d).0 })
        ≡ get_pipeline_run st j s
  unfolding get_pipeline_run
  get-not_updated f id j quiet absent = ground (
    arith,
    on,
    rel.get_run_lem j (st.update_pipeline_run id f d).0,
    rel.get_run_lem j d,
    rel.run-update id f d j quiet,
    eq_iff id j,
  )

  update-state :
      (now : ℕ) (req : UpdatePipelineRunRequest)
      → (update_pipeline_run st now req s).0
        ≡ record s { storage = some (st.update_pipeline_run req.run_id (update_run now req) d).0 }
  unfolding update_pipeline_run
  update-state now req = rw (on, update_pipeline_run) refl

  stop-state :
      (now : ℕ) (id : String)
      → (stop_pipeline_run st now id s).0
        ≡ record s { storage = some (st.update_pipeline_run id (stop_run now) d).0 }
  unfolding stop_pipeline_run
  stop-state now id = rw (on, stop_pipeline_run) refl

  -- An update of a run that is not stored is an error, and what is read under any identifier stays.
  pub update_unknown :
      (now : ℕ) (req : UpdatePipelineRunRequest) (j : String)
      → rel.run d req.run_id ≡ none
      → ((update_pipeline_run st now req s).1 ≡ err (storage_error (run_not_found req.run_id)))
        × (get_pipeline_run st j (update_pipeline_run st now req s).0 ≡ get_pipeline_run st j s)
  unfolding update_pipeline_run
  update_unknown now req j absent =
      let f = update_run now req in
      (
        rw (on, update_pipeline_run)
            (ground (arith, rel.update_run_error req.run_id f d (λ r. refl), absent)),
        rw (update-state now req) (get-not_updated f req.run_id j (λ r. refl) absent),
      )

  -- An update of a stored run answers the run as it is then read; what is read under any other
  -- identifier stays.
  pub get-update :
      (now : ℕ) (req : UpdatePipelineRunRequest) (j : String) (run : PipelineRun)
      → rel.run d req.run_id ≡ some run
      → ((update_pipeline_run st now req s).1 ≡ ok (updated_run now req run))
        × (get_pipeline_run st j (update_pipeline_run st now req s).0 ≡ (
            if str_eq req.run_id j then ok (updated_run now req run) else get_pipeline_run st j s))
  unfolding update_pipeline_run
  get-update now req j run present =
      let f = update_run now req in
      (
        rw (on, update_pipeline_run)
            (ground (
              arith,
              rel.update_run_error req.run_id f d (λ r. refl),
              rel.update_run_kept req.run_id f d,
              present,
            )),
        rw (update-state now req) (get-updated f req.run_id j run (λ r. refl) present),
      )

  -- Stopping a run that is not stored is the not-found error, and what is read under any identifier
  -- stays; the stop callback registered under its identifier is started all the same.
  pub stop_unknown :
      (now : ℕ) (id j : String)
      → rel.run d id ≡ none
      → ((stop_pipeline_run st now id s).2 ≡ lookup id s.run_stoppers)
        × ((stop_pipeline_run st now id s).1 ≡ err (run_missing id))
        × (get_pipeline_run st j (stop_pipeline_run st now id s).0 ≡ get_pipeline_run st j s)
  unfolding stop_pipeline_run
  stop_unknown now id j absent =
      let f = stop_run now in
      (
        rw (on, stop_pipeline_run) refl,
        rw (on, stop_pipeline_run)
            (ground (arith, rel.update_run_error id f d (λ r. refl), absent)),
        rw (stop-state now id) (get-not_updated f id j (λ r. refl) absent),
      )

  -- Stopping a stored run answers it as stopped and ended now, and so it is then read; what is read
  -- under any other identifier stays, and the run's stop callback, if it has one, is started.
  pub get-stop :
      (now : ℕ) (id j : String) (run : PipelineRun)
      → rel.run d id ≡ some run
      → ((stop_pipeline_run st now id s).2 ≡ lookup id s.run_stoppers)
        × ((stop_pipeline_run st now id s).1
            ≡ ok (record run { status = RunStatus.stopped; end_time = some now }))
        × (get_pipeline_run st j (stop_pipeline_run st now id s).0 ≡ (
            if str_eq id j
            then ok (record run { status = RunStatus.stopped; end_time = some now })
            else get_pipeline_run st j s))
  unfolding stop_pipeline_run stopped_run
  get-stop now id j run present =
      let f = stop_run now in
      (
        rw (on, stop_pipeline_run) refl,
        rw (on, stop_pipeline_run)
            (ground (
              arith,
              rel.update_run_error id f d (λ r. refl),
              rel.update_run_kept id f d,
              present,
            )),
        rw (stop-state now id) (get-updated f id j run (λ r. refl) present),
      )
