-- ===== src/ControlPlane/Chunks.antt =====
-- Historical chunk runs: UpsertChunkRun with its merge, GetChunkRun and ListChunkRuns.
pub mod Merge
pub mod Merging
pub mod Upserts
pub mod Race
use Prim.Native.String
use flowctl.Prelude.{ℕ, String, Option, none, some, List, [], str_eq, if◌then◌else◌}
use flowctl.Prelude.Int.{ℤ, pos, eq_ℤ, ltb_ℤ}
use flowctl.Prelude.Decimal.{show_ℤ}
use flowctl.Proto.Enums.{ChunkStatus, chunk_status_eq, failure_is_unknown}
use flowctl.Proto.Messages.{ChunkRun, ListChunkRunsRequest}
use flowctl.Storage.Types
use flowctl.Storage.Types.{is_not_found}
use flowctl.Storage.Interface.{ServiceStorage}
use flowctl.ControlPlane.State.{
  Server, ServerError, Reply, ok, err, storage_not_configured, storage_error, chunk_missing,
  chunk_required, chunk_run_id_required, chunk_component_id_required, chunk_bounds,
}
use flowctl.ControlPlane.Registry.{merge_string_maps}

infixr 66 ◌^^◌
abbrev ◌^^◌ : String → String → String
s ^^ t = String.◌++◌ s t

abbrev or_text : String → String → String
or_text new old = if str_eq new "" then old else new

abbrev or_time : Option ℕ → Option ℕ → Option ℕ
or_time none old = old
or_time (some t) old = some t

-- mergeChunkRun: the identity and the bounds are the update's; a value that the update leaves empty
-- stays; the three maps are merged.
unfoldable pub merge_chunk_run : ChunkRun → ChunkRun → ChunkRun
unfolding merge_string_maps
merge_chunk_run existing update = record update {
  status =
      if chunk_status_eq update.status ChunkStatus.unknown then existing.status else update.status;
  failure_class =
      if failure_is_unknown update.failure_class
      then existing.failure_class
      else update.failure_class;
  phase = or_text update.phase existing.phase;
  error = or_text update.error existing.error;
  recommended_action = or_text update.recommended_action existing.recommended_action;
  started_at = or_time update.started_at existing.started_at;
  completed_at = or_time update.completed_at existing.completed_at;
  verified_at = or_time update.verified_at existing.verified_at;
  row_counts = merge_string_maps existing.row_counts update.row_counts;
  verification = merge_string_maps existing.verification update.verification;
  metadata = merge_string_maps existing.metadata update.metadata;
}

-- The first check that a chunk fails.
unfoldable pub chunk_error : ChunkRun → Option ServerError
chunk_error chunk =
    if str_eq chunk.pipeline_run_id ""
    then some chunk_run_id_required
    else if str_eq chunk.component_id ""
    then some chunk_component_id_required
    else if ltb_ℤ chunk.chunk_end chunk.chunk_start
    then some chunk_bounds
    else none

unfoldable pub default_chunk_id : ChunkRun → String
unfolding show_ℤ
default_chunk_id chunk =
    chunk.pipeline_run_id
    ^^ ":"
    ^^ chunk.component_id
    ^^ ":"
    ^^ show_ℤ chunk.chunk_start
    ^^ "-"
    ^^ show_ℤ chunk.chunk_end
    ^^ ":"
    ^^ show_ℤ chunk.attempt

unfoldable pub with_attempt : ChunkRun → ChunkRun
with_attempt chunk = if eq_ℤ chunk.attempt (pos 0) then record chunk { attempt = pos 1 } else chunk

-- The defaults of the attempt and of the identifier.
unfoldable pub with_defaults : ChunkRun → ChunkRun
unfolding default_chunk_id with_attempt
with_defaults chunk =
    let c = with_attempt chunk in
    if str_eq c.chunk_id "" then record c { chunk_id = default_chunk_id c } else c

abbrev chunk_limit : ℤ → ℤ
chunk_limit limit = if eq_ℤ limit (pos 0) then pos 100 else limit

module _ (st : ServiceStorage) where
  open st use {State}

  -- The last step of UpsertChunkRun: write the record and answer it.
  unfoldable pub write_chunk : ChunkRun → State → Server State → Server State × Reply ChunkRun
  write_chunk chunk d s =
      let (d', failure) = st.upsert_chunk_run chunk d in
      (
        record s { storage = some d' },
        elim failure [ none ↦ ok chunk | some e ↦ err (storage_error e) ],
      )

  -- The first storage call of UpsertChunkRun: what it is to write.
  unfoldable pub resolve : ChunkRun → State → Types.Outcome ChunkRun
  unfolding merge_chunk_run
  resolve chunk d = elim (st.get_chunk_run chunk.chunk_id d) [
    | Types.ok existing ↦ Types.ok (merge_chunk_run existing chunk)
    | Types.fail e ↦ if is_not_found e then Types.ok chunk else Types.fail e
  ]

  -- The chunk passed the checks and has its defaults.
  unfoldable pub upsert_checked : ChunkRun → State → Server State → Server State × Reply ChunkRun
  unfolding write_chunk resolve
  upsert_checked chunk d s = elim (resolve chunk d) [
    | Types.ok c ↦ write_chunk c d s
    | Types.fail e ↦ (s, err (storage_error e))
  ]

  unfoldable pub upsert_chunk_run : Option ChunkRun → Server State → Server State × Reply ChunkRun
  unfolding upsert_checked chunk_error with_defaults
  upsert_chunk_run request s = elim s.storage [
    | none ↦ (s, err storage_not_configured)
    | some d ↦ elim request [
      | none ↦ (s, err chunk_required)
      | some chunk ↦ elim (chunk_error chunk) [
        | some e ↦ (s, err e)
        | none ↦ upsert_checked (with_defaults chunk) d s
      ]
    ]
  ]

  unfoldable pub get_chunk_run : String → Server State → Reply ChunkRun
  get_chunk_run id s = elim s.storage [
    | none ↦ err storage_not_configured
    | some d ↦ elim (st.get_chunk_run id d) [
      | Types.ok chunk ↦ ok chunk
      | Types.fail e ↦ if is_not_found e then err (chunk_missing id) else err (storage_error e)
    ]
  ]

  unfoldable pub list_chunk_runs : ListChunkRunsRequest → Server State → Reply (List ChunkRun)
  list_chunk_runs req s = elim s.storage [
    | none ↦ ok []
    | some d ↦
        elim (st.list_chunk_runs req.pipeline_run_id req.component_id req.status
          (chunk_limit req.limit) d) [
            | Types.ok chunks ↦ ok chunks
            | Types.fail e ↦ err (storage_error e)
          ]
  ]
