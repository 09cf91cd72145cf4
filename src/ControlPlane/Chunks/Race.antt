-- ===== src/ControlPlane/Chunks/Race.antt =====
-- Two calls of UpsertChunkRun at once: its read and its write are two storage calls, with no lock
-- around them.
use flowctl.Prelude.{◌≡◌, refl, true, ◌∙◌, some, eq_refl}
use flowctl.Proto.Messages.{ChunkRun}
use flowctl.Storage.Types
use flowctl.Storage.Interface.{ServiceStorage, IsReliable}
use flowctl.ControlPlane.State.{Server, ok}
use flowctl.ControlPlane.Chunks.{resolve, write_chunk, get_chunk_run}
use flowctl.ControlPlane.Chunks.Upserts.{merged, merged-chunk_id, resolve_lem, write_chunk_lem}

module _ (st : ServiceStorage) where
  open st use {State}

  -- Both calls read the storage `d`; then the first one writes, and then the second one.
  unfoldable pub interleaved : ChunkRun → ChunkRun → State → Server State → Server State
  unfolding resolve write_chunk
  interleaved a b d s = elim (resolve st a d) [
    | Types.fail e ↦ s
    | Types.ok c₁ ↦
        let d₁ = (st.upsert_chunk_run c₁ d).0 in
        elim (resolve st b d) [
          | Types.fail e ↦ record s { storage = some d₁ }
          | Types.ok c₂ ↦ (write_chunk st c₂ d₁ (record s { storage = some d₁ })).0
        ]
  ]

  -- If two upserts, the second under an identifier that the storage accepts, both read before either
  -- writes, what is read afterwards under the second one's
  -- identifier is its update merged into the chunk that was there before both, also where the first
  -- one has the same identifier: its update is lost.
  pub interleaved_loses :
      (rel : IsReliable st) (a b : ChunkRun) (d : State) (s : Server State)
      → rel.accepts b.chunk_id ≡ true
      → get_chunk_run st b.chunk_id (interleaved a b d s) ≡ ok (merged (rel.chunk d b.chunk_id) b)
  unfolding interleaved write_chunk
  interleaved_loses rel a b d s fine =
      let c₁ = merged (rel.chunk d a.chunk_id) a in
      let c₂ = merged (rel.chunk d b.chunk_id) b in
      let d₁ = (st.upsert_chunk_run c₁ d).0 in
      let kept : c₂.chunk_id ≡ b.chunk_id = merged-chunk_id (rel.chunk d b.chunk_id) b in
      let reads =
        (write_chunk_lem st rel (record s { storage = some d₁ }) d₁ refl c₂ b.chunk_id b.chunk_id
          kept fine).1 in
      rw (resolve_lem st rel d a, resolve_lem st rel d b, interleaved)
        (reads ∙ rw (eq_refl b.chunk_id) refl)
