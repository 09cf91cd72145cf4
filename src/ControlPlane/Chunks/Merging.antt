-- ===== src/ControlPlane/Chunks/Merging.antt =====
-- What the merge of two chunk records (mergeChunkRun of internal/api/control_plane.go) keeps of each.
use flowctl.Prelude.{String, ◌≡◌, refl, ◌≢◌, Option, none, some, str_eq, arith, if◌then◌else◌, ◌⊎◌}
use flowctl.Prelude.Int.{pos, eq_ℤ}
use flowctl.Prelude.Map.{StringMap, lookup, or_else}
use flowctl.Proto.Enums.{ChunkStatus, FailureClass, chunk_status_eq, failure_is_unknown}
use flowctl.Proto.Messages.{ChunkRun}
use flowctl.ControlPlane.Registry.Delivery.{lookup-merge_string_maps}
use flowctl.ControlPlane.Chunks.{merge_chunk_run}

abbrev pub status_after : ChunkStatus → ChunkStatus → ChunkStatus
status_after ChunkStatus.unknown old = old
status_after new old = new

abbrev pub failure_after : FailureClass → FailureClass → FailureClass
failure_after FailureClass.unknown old = old
failure_after new old = new

abbrev pub text_after : String → String → String
text_after new old = if str_eq new "" then old else new

-- The entries of a map are those of the update, and else the old ones.
abbrev pub AreMerged : {V : Type 0} → (old new merged : StringMap V) → Type 0
AreMerged old new merged =
    (key : String) → lookup key merged ≡ or_else (lookup key new) (lookup key old)

-- What a merge makes of a stored chunk and an update of it: what the update leaves empty stays, the
-- maps are merged, and all else is the update's.
pub record IsMerged (old update c : ChunkRun) : Type 0 where
  pub status : c.status ≡ status_after update.status old.status
  pub failure_class : c.failure_class ≡ failure_after update.failure_class old.failure_class
  pub phase : c.phase ≡ text_after update.phase old.phase
  pub error : c.error ≡ text_after update.error old.error
  pub recommended_action :
      c.recommended_action ≡ text_after update.recommended_action old.recommended_action
  pub started_at : c.started_at ≡ or_else update.started_at old.started_at
  pub completed_at : c.completed_at ≡ or_else update.completed_at old.completed_at
  pub verified_at : c.verified_at ≡ or_else update.verified_at old.verified_at
  pub row_counts : AreMerged old.row_counts update.row_counts c.row_counts
  pub verification : AreMerged old.verification update.verification c.verification
  pub metadata : AreMerged old.metadata update.metadata c.metadata
  pub chunk_id : c.chunk_id ≡ update.chunk_id
  pub owners : (c.pipeline_run_id ≡ update.pipeline_run_id) × (c.component_id ≡ update.component_id)
  pub range : (c.chunk_start ≡ update.chunk_start) × (c.chunk_end ≡ update.chunk_end)
  pub attempt : c.attempt ≡ update.attempt

-- What is stored for an update, from what was stored.
abbrev pub IsStored : Option ChunkRun → (update c : ChunkRun) → Type 0
IsStored none update c = c ≡ update
IsStored (some old) update c = IsMerged old update c

-- The update of a request: the request's, with an attempt and an identifier.
pub record IsDefaulted (chunk update : ChunkRun) : Type 0 where
  pub attempt : update.attempt ≡ (if eq_ℤ chunk.attempt (pos 0) then pos 1 else chunk.attempt)
  pub chunk_id :
      (update.chunk_id ≢ "") × ((update.chunk_id ≡ chunk.chunk_id) ⊎ (chunk.chunk_id ≡ ""))
  pub rest : update ≡ record chunk { attempt = update.attempt; chunk_id = update.chunk_id }

status_after_lem :
    (new old : ChunkStatus)
    → (if chunk_status_eq new ChunkStatus.unknown then old else new) ≡ status_after new old
status_after_lem new old = ground arith

failure_after_lem :
    (new old : FailureClass) → (if failure_is_unknown new then old else new) ≡ failure_after new old
failure_after_lem new old = ground arith

pub merge_chunk_run-IsMerged :
    (old update : ChunkRun) → IsMerged old update (merge_chunk_run old update)
unfolding merge_chunk_run
merge_chunk_run-IsMerged old update = record {
  status = status_after_lem update.status old.status;
  failure_class = failure_after_lem update.failure_class old.failure_class;
  phase = refl;
  error = refl;
  recommended_action = refl;
  started_at = ground arith;
  completed_at = ground arith;
  verified_at = ground arith;
  row_counts = λ key. lookup-merge_string_maps key old.row_counts update.row_counts;
  verification = λ key. lookup-merge_string_maps key old.verification update.verification;
  metadata = λ key. lookup-merge_string_maps key old.metadata update.metadata;
  chunk_id = refl;
  owners = (refl, refl);
  range = (refl, refl);
  attempt = refl;
}
