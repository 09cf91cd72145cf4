-- ===== src/Storage/Memory/Listing.antt =====
-- What the two listings of the in-memory storage answer.
use flowctl.Prelude.{String, ◌≡◌, select, ap}
use flowctl.Prelude.Int.{ℤ}
use flowctl.Prelude.Map.{StringMap}
use flowctl.Proto.Enums.{RunStatus, ChunkStatus}
use flowctl.Proto.Messages.{PipelineRun, ChunkRun}
use flowctl.Storage.Types.{ok}
use flowctl.Storage.Limit.{capped, collect-capped}
use flowctl.Storage.Memory.{
  MemoryStorage, values, run_matches, chunk_matches, list_pipeline_runs, list_chunk_runs,
}

-- In whatever orders the two maps are visited, a listing answers the records that pass its filters,
-- in that order: all of them if the limit is not positive, and else the first ones up to the limit.
listings-capped :
    (visit_runs : StringMap PipelineRun → StringMap PipelineRun)
    (visit_chunks : StringMap ChunkRun → StringMap ChunkRun) (s : MemoryStorage)
    (name run_id component_id : String) (run_status : RunStatus) (chunk_status : ChunkStatus)
    (limit : ℤ)
    → (list_pipeline_runs visit_runs name run_status limit s
        ≡ ok (
            capped limit
              (select (run_matches name run_status) (values (visit_runs s.pipeline_runs)))))
      × (list_chunk_runs visit_chunks run_id component_id chunk_status limit s
          ≡ ok (
              capped limit (
                select
                  (chunk_matches run_id component_id chunk_status)
                  (values (visit_chunks s.chunk_runs)))))
unfolding list_pipeline_runs list_chunk_runs
listings-capped visit_runs visit_chunks s name run_id component_id run_status chunk_status limit = (
  ap ok (collect-capped (run_matches name run_status) limit (values (visit_runs s.pipeline_runs))),
  ap ok (
      collect-capped (chunk_matches run_id component_id chunk_status) limit
        (values (visit_chunks s.chunk_runs))),
)
