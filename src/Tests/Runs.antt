-- ===== src/Tests/Runs.antt =====
-- Examples for the pipeline runs and the listings of the storage.
use flowctl.Prelude.{◌≡◌, refl, inl, [], ◌∷◌}
use flowctl.Prelude.Map.{lookup}
use flowctl.Proto.Messages.{UpdatePipelineRunRequest}
use flowctl.Storage.Types.{run_not_found}
use flowctl.Storage.Memory.Reliable.{memory_views}
use flowctl.ControlPlane.State.{ok, err, storage_error}
use flowctl.ControlPlane.Runs.{update_pipeline_run, get_pipeline_run}
use flowctl.ControlPlane.Runs.Answers.{as_updated, update_answers}
use flowctl.ControlPlane.Runs.Trace.{update, stop, calls, Holds, Holds-now, calls-Holds}
use flowctl.Tests.Data.{memory, reliable, run, disk, server, failure}

abbrev lost_update : UpdatePipelineRunRequest
lost_update = record failure { run_id = "run-9" }

update_answers_example :
    ((update_pipeline_run memory 40 failure server).1 ≡ ok (as_updated 40 failure run))
    × (get_pipeline_run memory "run-1" (update_pipeline_run memory 40 failure server).0
        ≡ ok (as_updated 40 failure run))
unfolding lookup memory_views
update_answers_example = update_answers memory reliable server disk refl 40 failure "run-1"

update_answers_unknown :
    ((update_pipeline_run memory 40 lost_update server).1
      ≡ err (storage_error (run_not_found "run-9")))
    × (get_pipeline_run memory "run-1" (update_pipeline_run memory 40 lost_update server).0
        ≡ get_pipeline_run memory "run-1" server)
unfolding lookup memory_views
update_answers_unknown = update_answers memory reliable server disk refl 40 lost_update "run-1"

server-Holds : Holds memory reliable "run-1" run server
unfolding lookup memory_views
server-Holds = Holds-now memory reliable "run-1" run server disk refl refl (inl refl)

calls-Holds_example :
    Holds memory reliable "run-1" run
      (calls memory (update 40 failure ∷ stop 50 "run-1" ∷ update 60 lost_update ∷ []) server)
calls-Holds_example =
    calls-Holds memory reliable (update 40 failure ∷ stop 50 "run-1" ∷ update 60 lost_update ∷ [])
      "run-1" run server server-Holds
