-- ===== src/Tests/Chunks.antt =====
-- Examples for the chunk runs.
use flowctl.Prelude.{◌≡◌, refl, [], some}
use flowctl.Prelude.Int.{pos}
use flowctl.Prelude.Map.{lookup}
use flowctl.Proto.Enums.{ChunkStatus}
use flowctl.Proto.Messages.{ChunkRun}
use flowctl.Storage.Memory.Reliable.{memory_views}
use flowctl.ControlPlane.State.{ok}
use flowctl.ControlPlane.Chunks.{
  merge_chunk_run, with_defaults, chunk_error, upsert_chunk_run, get_chunk_run,
}
use flowctl.ControlPlane.Chunks.Merging.{IsDefaulted, IsStored}
use flowctl.ControlPlane.Chunks.Upserts.{chunk_error-IsComplete, get-upsert}
use flowctl.ControlPlane.Chunks.Race.{interleaved, interleaved_loses}
use flowctl.Tests.Data.{memory, reliable, chunk, progress, disk, server}

get-upsert_example :
    IsDefaulted progress progress
    × (c : ChunkRun) × IsStored (some chunk) progress c
    × ((upsert_chunk_run memory (some progress) server).1 ≡ ok c)
    × (get_chunk_run memory "chunk-1" (upsert_chunk_run memory (some progress) server).0 ≡ ok c)
unfolding lookup memory_views with_defaults chunk_error
get-upsert_example =
    get-upsert memory reliable server disk refl progress "chunk-1"
      (chunk_error-IsComplete progress refl) refl

-- Another worker's report on the same chunk.
abbrev report : ChunkRun
report = record chunk { status = ChunkStatus.verified; row_counts = [] }

interleaved_loses_example :
    get_chunk_run memory "chunk-1" (interleaved memory progress report disk server)
    ≡ ok (merge_chunk_run chunk report)
unfolding lookup memory_views
interleaved_loses_example = interleaved_loses memory reliable progress report disk server refl

-- A chunk that ends before it starts.
abbrev reversed : ChunkRun
reversed = record chunk { chunk_end = pos 0 }

-- A chunk with neither an attempt nor an identifier.
abbrev bare : ChunkRun
bare = record chunk { chunk_id = ""; attempt = pos 0 }
