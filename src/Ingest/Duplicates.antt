-- ===== src/Ingest/Duplicates.antt =====
-- Text duplicates: `same_text_source` of app/rag/pipeline.py, and `_chunkless_done`, `_stranded`,
-- `stranded_duplicates`, `duplicates_of` and `release_duplicates` of app/services/ingestion.py.
use guru_alt.Common.{
  ℕ, Bool, true, false, not, ◌&&◌, Option, none, some, List, [], ◌∷◌, map, leb, ◌==◌, any, keep,
  elem,
}
use guru_alt.Common.Sort.{sort}
use guru_alt.Ingest.{
  Source, SourceKind, file, url, pending, Chunk, is_done, is_file, is_null, is_current_of,
  update_where,
}

abbrev pub has_chunks : ℕ → List Chunk → Bool
has_chunks source_id chunks = any (is_current_of source_id) chunks

-- Two columns that may be null are the same, `is_not_distinct_from`.
abbrev pub same_scope : Option ℕ → Option ℕ → Bool
same_scope none none = true
same_scope (some a) (some b) = a == b
same_scope _ _ = false

-- An equation in SQL with a column that may be null.
abbrev pub equals : Option ℕ → ℕ → Bool
equals none b = false
equals (some a) b = a == b

abbrev pub same_kind : SourceKind → SourceKind → Bool
same_kind file file = true
same_kind url url = true
same_kind _ _ = false

abbrev pub is_twin : List Chunk → Source → ℕ → Source → Bool
is_twin chunks source digest t =
    t.learner_id == source.learner_id
    && same_kind t.kind source.kind
    && equals t.text_sha256 digest
    && is_done t.status
    && is_null t.archived_at
    && not (t.id == source.id)
    && has_chunks t.id chunks
    && same_scope t.subject_id source.subject_id
    && same_scope t.topic_id source.topic_id

abbrev pub first : List Source → Option Source
first [] = none
first (r ∷ sources) = some r

abbrev pub twin_of : List Source → List Chunk → Source → Option ℕ → Option Source
twin_of sources chunks source none = none
twin_of sources chunks source (some digest) =
    first
      (sort (λ a b. leb a.created_at b.created_at) (keep (is_twin chunks source digest) sources))

unfoldable pub same_text_source : List Source → List Chunk → Source → Option Source
same_text_source sources chunks source = twin_of sources chunks source source.text_sha256

abbrev pub chunkless_done : List Chunk → Source → Bool
chunkless_done chunks r =
    is_done r.status && is_file r.kind && is_null r.archived_at && not (has_chunks r.id chunks)

-- The original that answers for the source.
abbrev pub answers_for : List Chunk → Source → Source → Bool
answers_for chunks r original =
    equals r.duplicate_of_id original.id
    && is_null original.archived_at
    && original.learner_id == r.learner_id
    && same_scope original.subject_id r.subject_id
    && same_scope original.topic_id r.topic_id
    && has_chunks original.id chunks

abbrev pub is_stranded_duplicate : List Source → List Chunk → Source → Bool
is_stranded_duplicate sources chunks r =
    chunkless_done chunks r && not (any (answers_for chunks r) sources)

abbrev pub ids : List Source → List ℕ
ids sources = map (λ (r : Source). r.id) sources

-- `learner_id`: only those of that learner, when it is given.
unfoldable pub stranded_duplicates : List Source → List Chunk → Option ℕ → List ℕ
stranded_duplicates sources chunks none = ids (
    sort (λ a b. leb a.updated_at b.updated_at)
      (keep (is_stranded_duplicate sources chunks) sources))
stranded_duplicates sources chunks (some learner_id) = ids (
    sort (λ a b. leb a.updated_at b.updated_at)
      (keep (λ r. is_stranded_duplicate sources chunks r && r.learner_id == learner_id) sources))

unfoldable pub duplicates_of : List Source → List ℕ → List ℕ
duplicates_of sources source_ids =
    ids (keep (λ r. any (equals r.duplicate_of_id) source_ids) sources)

abbrev pub released : ℕ → Source → Source
released now r = record r {
  status = pending;
  duplicate_of_id = none;
  attempts = 0;
  error = none;
  lease_expires_at = none;
  updated_at = now;
}

abbrev pub releases : List Source → List Chunk → List ℕ → List ℕ
releases sources chunks source_ids =
    ids (keep (λ r. elem r.id source_ids && is_stranded_duplicate sources chunks r) sources)

-- The sources after the update, and the ids that were released.
unfoldable pub release_duplicates : ℕ → List Source → List Chunk → List ℕ → List Source × List ℕ
release_duplicates now sources chunks source_ids =
    let found = releases sources chunks source_ids in
    (update_where (λ r. elem r.id found) (released now) sources, found)
