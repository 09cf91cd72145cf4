-- ===== src/ControlPlane/Chunks/Upserts.antt =====
-- What UpsertChunkRun stores, refuses and keeps.
use flowctl.Prelude.{
  String, ◌≡◌, refl, true, ap, sym, ◌≢◌, ◌∙◌, Option, none, some, str_eq, eq_iff, arith,
  if◌then◌else◌, inl, inr, Bool-cases,
}
use text.Mathlib.TextLemmas.{append-eq-nil_iff}
use flowctl.Prelude.Int.{pos, eq_ℤ, ◌≤ℤ◌}
use flowctl.Proto.Messages.{ChunkRun}
use flowctl.Storage.Types
use flowctl.Storage.Types.{chunk_not_found, is_not_found}
use flowctl.Storage.Interface.{ServiceStorage, IsReliable, found}
use flowctl.ControlPlane.State.{Server, ServerError, Reply, ok, err, chunk_missing}
use flowctl.ControlPlane.Chunks.{
  merge_chunk_run, resolve, chunk_error, with_attempt, default_chunk_id, with_defaults, write_chunk,
  upsert_checked, upsert_chunk_run, get_chunk_run,
}
use flowctl.ControlPlane.Chunks.Merging.{IsStored, IsDefaulted, merge_chunk_run-IsMerged}

-- A chunk that names its run and its component, and whose range is not empty.
pub record IsComplete (chunk : ChunkRun) : Type 0 where
  pub run_id : chunk.pipeline_run_id ≢ ""
  pub component_id : chunk.component_id ≢ ""
  pub range : chunk.chunk_start ≤ℤ chunk.chunk_end

pub chunk_error-IsComplete : (chunk : ChunkRun) → chunk_error chunk ≡ none → IsComplete chunk
unfolding chunk_error
chunk_error-IsComplete chunk h = record {
  run_id = ground (arith, eq_iff chunk.pipeline_run_id "");
  component_id = ground (arith, eq_iff chunk.component_id "");
  range = ground arith;
}

pub chunk_error_of_IsComplete : (chunk : ChunkRun) → IsComplete chunk → chunk_error chunk ≡ none
unfolding chunk_error
chunk_error_of_IsComplete chunk h =
    ground (arith, eq_iff chunk.pipeline_run_id "", eq_iff chunk.component_id "")

with_attempt-attempt : (chunk : ChunkRun) → (with_attempt chunk).attempt ≢ pos 0
unfolding with_attempt
with_attempt-attempt chunk = ground arith

-- What is stored for a chunk: it, or its merge into the record that is there.
abbrev pub merged : Option ChunkRun → ChunkRun → ChunkRun
merged none chunk = chunk
merged (some existing) chunk = merge_chunk_run existing chunk

abbrev pub chunk_answer : String → Option ChunkRun → Reply ChunkRun
chunk_answer id none = err (chunk_missing id)
chunk_answer id (some chunk) = ok chunk

merged-IsStored : (o : Option ChunkRun) (update : ChunkRun) → IsStored o update (merged o update)
merged-IsStored none update = refl
merged-IsStored (some old) update = merge_chunk_run-IsMerged old update

pub merged-chunk_id :
    (o : Option ChunkRun) (chunk : ChunkRun) → (merged o chunk).chunk_id ≡ chunk.chunk_id
unfolding merge_chunk_run
merged-chunk_id none chunk = refl
merged-chunk_id (some existing) chunk = refl

module _ (st : ServiceStorage) (rel : IsReliable st) (d : st.State) where
  pub resolve_lem :
      (chunk : ChunkRun) → resolve st chunk d ≡ Types.ok (merged (rel.chunk d chunk.chunk_id) chunk)
  unfolding resolve
  resolve_lem chunk =
      rw (rel.get_chunk_lem chunk.chunk_id d, resolve) (resolve_found (rel.chunk d chunk.chunk_id))
    where
      resolve_found :
          (o : Option ChunkRun)
          → elim (found (chunk_not_found chunk.chunk_id) o) [
            | Types.ok existing ↦ Types.ok (merge_chunk_run existing chunk)
            | Types.fail e ↦ if is_not_found e then Types.ok chunk else Types.fail e
          ]
            ≡ Types.ok (merged o chunk)
      resolve_found none = refl
      resolve_found (some existing) = refl

module _ (st : ServiceStorage) (rel : IsReliable st) (s : Server (st.State)) (d : st.State)
    (on : s.storage ≡ some d) where
  pub write_chunk_lem :
      (chunk : ChunkRun) (id j : String)
      → chunk.chunk_id ≡ id
      → rel.accepts id ≡ true
      → ((write_chunk st chunk d s).1 ≡ ok chunk)
        × (get_chunk_run st j (write_chunk st chunk d s).0
            ≡ (if str_eq id j then ok chunk else get_chunk_run st j s))
  unfolding write_chunk get_chunk_run
  write_chunk_lem chunk id j e fine = (
    rw (rel.upsert_error chunk d (ap rel.accepts e ∙ fine)),
    ground (
      arith,
      on,
      rel.get_chunk_lem j d,
      rel.get_chunk_lem j (st.upsert_chunk_run chunk d).0,
      rel.chunk-upsert chunk d j (ap rel.accepts e ∙ fine),
      eq_iff id j,
      eq_iff chunk.chunk_id j,
    ),
  )

  upsert_checked_lem :
      (chunk : ChunkRun)
      → upsert_checked st chunk d s ≡ write_chunk st (merged (rel.chunk d chunk.chunk_id) chunk) d s
  unfolding upsert_checked
  upsert_checked_lem chunk = rw (resolve_lem st rel d chunk, upsert_checked) refl

  -- An incomplete chunk is refused with the first check that it fails, and nothing changes.
  upsert_refused :
      (chunk : ChunkRun) (e : ServerError)
      → chunk_error chunk ≡ some e
      → upsert_chunk_run st (some chunk) s ≡ (s, err e)
  unfolding upsert_chunk_run
  upsert_refused chunk e h = ground (arith, on)

  upsert_accepted :
      (chunk : ChunkRun)
      → IsComplete chunk
      → upsert_chunk_run st (some chunk) s ≡ upsert_checked st (with_defaults chunk) d s
  unfolding upsert_chunk_run
  upsert_accepted chunk h = ground (arith, on, chunk_error_of_IsComplete chunk h)

default_chunk_id-ne : (chunk : ChunkRun) → chunk.pipeline_run_id ≢ "" → default_chunk_id chunk ≢ ""
unfolding default_chunk_id
default_chunk_id-ne chunk h = λ e. h (append-eq-nil_iff.0 e).0

with_attempt-run_id :
    (chunk : ChunkRun) → (with_attempt chunk).pipeline_run_id ≡ chunk.pipeline_run_id
unfolding with_attempt
with_attempt-run_id chunk = ground arith

with_attempt_lem :
    (chunk : ChunkRun)
    → with_attempt chunk
      ≡ record chunk { attempt = if eq_ℤ chunk.attempt (pos 0) then pos 1 else chunk.attempt }
unfolding with_attempt
with_attempt_lem chunk = elim (Bool-cases (eq_ℤ chunk.attempt (pos 0))) [
  | inl zero ↦ rw (with_attempt, zero) refl
  | inr set ↦ rw (with_attempt, set) refl
]

with_defaults-IsDefaulted :
    (chunk : ChunkRun) → chunk.pipeline_run_id ≢ "" → IsDefaulted chunk (with_defaults chunk)
unfolding with_defaults
with_defaults-IsDefaulted chunk h =
    let c : ChunkRun = record chunk {
      attempt = if eq_ℤ chunk.attempt (pos 0) then pos 1 else chunk.attempt;
    } in
    elim (Bool-cases (str_eq chunk.chunk_id "")) [
      | inl unnamed ↦
          rw (with_defaults, with_attempt_lem chunk, unnamed)
            (record {
              attempt = refl;
              chunk_id = (default_chunk_id-ne c h, inr ((eq_iff chunk.chunk_id "").0 unnamed));
              rest = refl;
            })
      | inr named ↦
          rw (with_defaults, with_attempt_lem chunk, named)
            (record {
              attempt = refl;
              chunk_id = (λ e. ground (arith, eq_iff chunk.chunk_id "", e), inl refl);
              rest = refl;
            })
    ]

-- A chunk that names its run gets an identifier, and an attempt other than zero.
with_defaults_filled :
    (chunk : ChunkRun)
    → chunk.pipeline_run_id ≢ ""
    → ((with_defaults chunk).attempt ≢ pos 0) × ((with_defaults chunk).chunk_id ≢ "")
unfolding with_defaults
with_defaults_filled chunk h =
    let c = with_attempt chunk in
    let named = default_chunk_id-ne c (λ e. h (sym (with_attempt-run_id chunk) ∙ e)) in
    ground (arith, with_attempt-attempt chunk, eq_iff c.chunk_id "")

module _ (st : ServiceStorage) (rel : IsReliable st) (s : Server (st.State)) (d : st.State)
    (on : s.storage ≡ some d) where
  -- The upsert of a chunk that names its run and its component, and whose start is not past its end, under
  -- an identifier that the storage accepts, succeeds. It answers what is then read under that identifier:
  -- the chunk, with the attempt one where it had none, and an identifier if it had none, as it is or, if
  -- there was a record, merged into it field by field. What is read under any other identifier stays.
  pub get-upsert :
      (chunk : ChunkRun) (j : String)
      → IsComplete chunk
      → rel.accepts (with_defaults chunk).chunk_id ≡ true
      → let update = with_defaults chunk in
        IsDefaulted chunk update
        × (c : ChunkRun) × IsStored (rel.chunk d update.chunk_id) update c
        × ((upsert_chunk_run st (some chunk) s).1 ≡ ok c)
        × (get_chunk_run st j (upsert_chunk_run st (some chunk) s).0
            ≡ (if str_eq update.chunk_id j then ok c else get_chunk_run st j s))
  get-upsert chunk j h fine =
      let u = with_defaults chunk in
      let o = rel.chunk d u.chunk_id in
      let (answer, read) =
        write_chunk_lem st rel s d on (merged o u) u.chunk_id j (merged-chunk_id o u) fine in
      let same = upsert_accepted st rel s d on chunk h ∙ upsert_checked_lem st rel s d on u in
      (
        with_defaults-IsDefaulted chunk h.run_id,
        merged o u,
        merged-IsStored o u,
        rw same answer,
        rw same read,
      )
