-- ===== src/ControlPlane/Runs/Trace.antt =====
-- A run's record over any sequence of updates and stops.
use flowctl.Prelude.{
  ℕ, String, ◌≡◌, refl, sym, ◌∙◌, Bool, true, false, none, some, List, [], ◌∷◌, str_eq, eq_iff,
  arith, if◌then◌else◌, ◌⊎◌, inl, inr, Bool-cases,
}
use flowctl.Proto.Messages.{PipelineRun, UpdatePipelineRunRequest}
use flowctl.Storage.Types.{Updater}
use flowctl.Storage.Interface.{ServiceStorage, IsReliable}
use flowctl.ControlPlane.State.{Server}
use flowctl.ControlPlane.Runs.{
  updated_run, update_run, stopped_run, stop_run, update_pipeline_run, stop_pipeline_run,
}
use flowctl.ControlPlane.Runs.History.{HasEnd, updated_run-HasEnd}

-- A call that changes a stored run, with the time that it reads.
pub data RunCall : Type 0 where
  update : ℕ → UpdatePipelineRunRequest → RunCall
  stop : ℕ → String → RunCall

-- What no such call takes from a run: its origin, and its first error.
pub record Keeps (before after : PipelineRun) : Type 0 where
  pub run_id : after.run_id ≡ before.run_id
  pub pipeline_name : after.pipeline_name ≡ before.pipeline_name
  pub start_time : after.start_time ≡ before.start_time
  pub config_yaml : after.config_yaml ≡ before.config_yaml
  pub component_ids : after.component_ids ≡ before.component_ids
  pub error : (before.error ≡ "") ⊎ (after.error ≡ before.error)

Keeps-refl : (run : PipelineRun) → Keeps run run
Keeps-refl run = record {
  run_id = refl;
  pipeline_name = refl;
  start_time = refl;
  config_yaml = refl;
  component_ids = refl;
  error = inr refl;
}

first_error : {a b c : String} → (a ≡ "") ⊎ (b ≡ a) → (b ≡ "") ⊎ (c ≡ b) → (a ≡ "") ⊎ (c ≡ a)
first_error (inl e) k = inl e
first_error (inr e) (inl e') = inl (sym e ∙ e')
first_error (inr e) (inr e') = inr (e' ∙ e)

Keeps-trans : (a b c : PipelineRun) → Keeps a b → Keeps b c → Keeps a c
Keeps-trans a b c p q = record {
  run_id = q.run_id ∙ p.run_id;
  pipeline_name = q.pipeline_name ∙ p.pipeline_name;
  start_time = q.start_time ∙ p.start_time;
  config_yaml = q.config_yaml ∙ p.config_yaml;
  component_ids = q.component_ids ∙ p.component_ids;
  error = first_error p.error q.error;
}

Keeps-if :
    (b : Bool) (a r r' : PipelineRun) → Keeps a r → Keeps a r' → Keeps a (if b then r' else r)
Keeps-if true a r r' p q = q
Keeps-if false a r r' p q = p

HasEnd-if : (b : Bool) (r r' : PipelineRun) → HasEnd r → HasEnd r' → HasEnd (if b then r' else r)
HasEnd-if true r r' p q = q
HasEnd-if false r r' p q = p

update-Keeps :
    (now : ℕ) (req : UpdatePipelineRunRequest) (run : PipelineRun)
    → Keeps run (updated_run now req run)
unfolding updated_run
update-Keeps now req run = record {
  run_id = refl;
  pipeline_name = refl;
  start_time = refl;
  config_yaml = refl;
  component_ids = refl;
  error = elim (Bool-cases (str_eq run.error "")) [
    | inl e ↦ inl ((eq_iff run.error "").0 e)
    | inr e ↦ inr (ground arith)
  ];
}

stop-Keeps : (now : ℕ) (run : PipelineRun) → Keeps run (stopped_run now run)
unfolding stopped_run
stop-Keeps now run = record {
  run_id = refl;
  pipeline_name = refl;
  start_time = refl;
  config_yaml = refl;
  component_ids = refl;
  error = inr refl;
}

module _ (st : ServiceStorage) where
  open st use {State}

  unfoldable pub call : RunCall → Server State → Server State
  call (update now req) s = (update_pipeline_run st now req s).0
  call (stop now id) s = (stop_pipeline_run st now id s).0

  unfoldable pub calls : List RunCall → Server State → Server State
  unfolding call
  calls [] s = s
  calls (c ∷ cs) s = calls cs (call c s)

module _ (st : ServiceStorage) (rel : IsReliable st) where
  open st use {State}

  -- The server's storage holds a run under the identifier that keeps what `before` had, with an end
  -- time if it has ended.
  pub record Holds (id : String) (before : PipelineRun) (s : Server State) : Type 0 where
    pub state : State
    pub on : s.storage ≡ some state
    pub run : PipelineRun
    pub present : rel.run state id ≡ some run
    pub kept : Keeps before run
    pub ended : HasEnd run

  update_at-Holds :
      (id j : String) (before : PipelineRun) (f : Updater PipelineRun) (s : Server State)
      → ((r : PipelineRun) → (f r).1 ≡ none)
      → ((r : PipelineRun) → Keeps r (f r).0)
      → ((r : PipelineRun) → HasEnd r → HasEnd (f r).0)
      → (h : Holds id before s)
      → Holds id before (record s { storage = some (st.update_pipeline_run j f h.state).0 })
  update_at-Holds id j before f s quiet keep end h = record {
    state = (st.update_pipeline_run j f h.state).0;
    on = refl;
    run = if str_eq j id then (f h.run).0 else h.run;
    present = ground (arith, rel.run-update j f h.state id (quiet), h.present, eq_iff j id);
    kept =
        Keeps-if (str_eq j id) before h.run (f h.run).0 h.kept
          (Keeps-trans before h.run (f h.run).0 h.kept (keep h.run));
    ended = HasEnd-if (str_eq j id) h.run (f h.run).0 h.ended (end h.run h.ended);
  }

  call-Holds :
      (c : RunCall) (id : String) (before : PipelineRun) (s : Server State)
      → Holds id before s
      → Holds id before (call st c s)
  unfolding call update_pipeline_run stop_pipeline_run stopped_run
  call-Holds (update now req) id before s h =
      rw (h.on, update_pipeline_run)
        (update_at-Holds id req.run_id before (update_run now req) s (λ r. refl)
          (λ r. update-Keeps now req r) (λ r e. updated_run-HasEnd now req r e) h)
  call-Holds (stop now j) id before s h =
      rw (h.on, stop_pipeline_run)
        (update_at-Holds id j before (stop_run now) s (λ r. refl) (λ r. stop-Keeps now r)
          (λ r e. inr refl) h)

  -- After any sequence of updates and stops, of this run and of others, a stored run is still stored
  -- under its identifier. Its name, start, configuration and components are the ones it had, an error
  -- that was recorded stays the recorded one, and if its status is completed, failed or stopped, then
  -- it has an end time, as it did at first.
  pub calls-Holds :
      (cs : List RunCall) (id : String) (before : PipelineRun) (s : Server State)
      → Holds id before s
      → Holds id before (calls st cs s)
  unfolding calls
  calls-Holds [] id before s h = h
  calls-Holds (c ∷ cs) id before s h =
      calls-Holds cs id before (call st c s) (call-Holds c id before s h)

  pub Holds-now :
      (id : String) (run : PipelineRun) (s : Server State) (d : State)
      → s.storage ≡ some d
      → rel.run d id ≡ some run
      → HasEnd run
      → Holds id run s
  Holds-now id run s d on present ended = record {
    state = d;
    on = on;
    run = run;
    present = present;
    kept = Keeps-refl run;
    ended = ended;
  }
