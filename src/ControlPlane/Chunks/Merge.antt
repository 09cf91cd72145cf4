-- ===== src/ControlPlane/Chunks/Merge.antt =====
-- The merge of an update into a stored chunk run.
use flowctl.Prelude.{String, ◌≡◌, refl, none, eq_iff, arith}
use flowctl.Prelude.Map.{StringMap, lookup, or_else}
use flowctl.Proto.Enums.{ChunkStatus, FailureClass}
use flowctl.Proto.Messages.{ChunkRun}
use flowctl.ControlPlane.Registry.{merge_string_maps}
use flowctl.ControlPlane.Registry.Delivery.{lookup-merge_string_maps}
use flowctl.ControlPlane.Chunks.{merge_chunk_run}

-- Two chunk runs that no reader tells apart: equal fields, and maps that read the same.
pub record ReadsAs (a b : ChunkRun) : Type 0 where
  pub chunk_id : a.chunk_id ≡ b.chunk_id
  pub pipeline_run_id : a.pipeline_run_id ≡ b.pipeline_run_id
  pub component_id : a.component_id ≡ b.component_id
  pub chunk_start : a.chunk_start ≡ b.chunk_start
  pub chunk_end : a.chunk_end ≡ b.chunk_end
  pub attempt : a.attempt ≡ b.attempt
  pub status : a.status ≡ b.status
  pub failure_class : a.failure_class ≡ b.failure_class
  pub phase : a.phase ≡ b.phase
  pub error : a.error ≡ b.error
  pub recommended_action : a.recommended_action ≡ b.recommended_action
  pub started_at : a.started_at ≡ b.started_at
  pub completed_at : a.completed_at ≡ b.completed_at
  pub verified_at : a.verified_at ≡ b.verified_at
  pub row_counts : (k : String) → lookup k a.row_counts ≡ lookup k b.row_counts
  pub verification : (k : String) → lookup k a.verification ≡ lookup k b.verification
  pub metadata : (k : String) → lookup k a.metadata ≡ lookup k b.metadata

merge_twice :
    {V : Type 0} (base updates : StringMap V) (k : String)
    → lookup k (merge_string_maps (merge_string_maps base updates) updates)
      ≡ lookup k (merge_string_maps base updates)
merge_twice base updates k = ground (
  arith,
  lookup-merge_string_maps k (merge_string_maps base updates) updates,
  lookup-merge_string_maps k base updates,
)

-- A retried upsert changes nothing: merging the same update a second time gives a record that reads
-- as the first merge did.
merge_chunk_run_again :
    (existing update : ChunkRun)
    → ReadsAs
        (merge_chunk_run (merge_chunk_run existing update) update)
        (merge_chunk_run existing update)
unfolding merge_chunk_run
merge_chunk_run_again existing update = record {
  chunk_id = refl;
  pipeline_run_id = refl;
  component_id = refl;
  chunk_start = refl;
  chunk_end = refl;
  attempt = refl;
  status = ground arith;
  failure_class = ground arith;
  phase = ground arith;
  error = ground arith;
  recommended_action = ground arith;
  started_at = ground arith;
  completed_at = ground arith;
  verified_at = ground arith;
  row_counts = merge_twice existing.row_counts update.row_counts;
  verification = merge_twice existing.verification update.verification;
  metadata = merge_twice existing.metadata update.metadata;
}

-- An update that leaves the status, the failure class, the error and the times empty leaves the stored
-- ones as they are.
merge_chunk_run_silent :
    (existing update : ChunkRun)
    → update.status ≡ ChunkStatus.unknown
    → update.failure_class ≡ FailureClass.unknown
    → update.error ≡ ""
    → update.started_at ≡ none
    → update.completed_at ≡ none
    → ((merge_chunk_run existing update).status ≡ existing.status)
      × ((merge_chunk_run existing update).failure_class ≡ existing.failure_class)
      × ((merge_chunk_run existing update).error ≡ existing.error)
      × ((merge_chunk_run existing update).started_at ≡ existing.started_at)
      × ((merge_chunk_run existing update).completed_at ≡ existing.completed_at)
unfolding merge_chunk_run
merge_chunk_run_silent existing update status class error start end =
    (ground arith, ground arith, ground (arith, eq_iff update.error ""), ground arith, ground arith)

-- No key of the three maps is lost: each has the update's value if there is one, and else the stored
-- value.
merge_chunk_run_maps :
    (existing update : ChunkRun) (k : String)
    → (lookup k (merge_chunk_run existing update).row_counts
        ≡ or_else (lookup k update.row_counts) (lookup k existing.row_counts))
      × (lookup k (merge_chunk_run existing update).verification
          ≡ or_else (lookup k update.verification) (lookup k existing.verification))
      × (lookup k (merge_chunk_run existing update).metadata
          ≡ or_else (lookup k update.metadata) (lookup k existing.metadata))
unfolding merge_chunk_run
merge_chunk_run_maps existing update k = (
  lookup-merge_string_maps k existing.row_counts update.row_counts,
  lookup-merge_string_maps k existing.verification update.verification,
  lookup-merge_string_maps k existing.metadata update.metadata,
)
