-- ===== src/Ingest/Stages.antt =====
-- The stages of a job: `_extract`, `_embed`, `_publish`, `_finish` and `supersede_chunks` of
-- app/rag/pipeline.py, and the end of `_tag_stage` of app/services/ingestion.py. The extracted
-- text, the answer of the chunker, the ids of new chunks and what is cited are arguments.
use guru_alt.Common.{
  ℕ, zero, suc, ◌+◌, Bool, not, ◌&&◌, ◌||◌, Option, none, some, List, ◌∷◌, ◌++◌, map, ltb, ◌==◌,
  any, keep, if◌then◌else◌,
}
use guru_alt.Ingest.{
  Source, done, SourceStage, embed, tag, Chunk, StagedChunk, Tables, Settings, is_null,
  is_current_of, update_at,
}
use guru_alt.Ingest.Claim.{lease_seconds, Failure, ingestion_error}
use guru_alt.Ingest.Duplicates.{same_text_source}

-- A current chunk that is cited is kept as history, any other is deleted.
unfoldable pub supersede_chunks : ℕ → (ℕ → Bool) → ℕ → List Chunk → List Chunk
supersede_chunks now is_cited source_id chunks =
    map (λ c. if is_current_of source_id c then record c { superseded_at = some now } else c)
      (keep (λ c. not (is_current_of source_id c) || is_cited c.id) chunks)

abbrev pub finish : ℕ → Option SourceStage → Source → Source
finish now stage r = record r {
  status = done;
  stage = stage;
  error = none;
  lease_expires_at = none;
  attempts = 0;
  updated_at = now;
}

-- What the adapter and the download of the blob give.
pub record Extraction : Type 0 where
  pub has_adapter : Bool
  pub characters : ℕ
  pub text_sha256 : ℕ

pub data Extracted : Type 0 where
  raises : Failure → Extracted
  duplicate : Tables → Extracted
  extracted : Tables → Extracted

abbrev pub with_text : ℕ → Source → Source
with_text digest r = record r { text_sha256 = some digest }

abbrev pub with_twin : ℕ → ℕ → Source → Source → Source
with_twin now digest twin r = record (finish now none r) {
  text_sha256 = some digest;
  duplicate_of_id = some twin.id;
}

abbrev pub to_embed : ℕ → ℕ → Source → Source
to_embed now digest r = record r {
  text_sha256 = some digest;
  duplicate_of_id = none;
  stage = some embed;
  updated_at = now;
}

abbrev pub settle_twin : ℕ → (ℕ → Bool) → ℕ → Source → Tables → Option Source → Extracted
settle_twin now is_cited digest source t none =
    extracted (record t { sources = update_at source.id (to_embed now digest) t.sources })
settle_twin now is_cited digest source t (some twin) = duplicate (record t {
  sources = update_at source.id (with_twin now digest twin) t.sources;
  chunks = supersede_chunks now is_cited source.id t.chunks;
})

unfoldable pub extract : Settings → ℕ → (ℕ → Bool) → Extraction → Source → Tables → Extracted
extract settings now is_cited e source t =
    if is_null source.blob_key
    then raises ingestion_error
    else if not e.has_adapter
    then raises ingestion_error
    else if ltb settings.ingest_max_extracted_chars e.characters
    then raises ingestion_error
    else settle_twin now is_cited e.text_sha256 source t
        (same_text_source t.sources t.chunks (with_text e.text_sha256 source))

pub data Embedded : Type 0 where
  raises : Failure → Embedded
  staged : List StagedChunk → Embedded

abbrev pub is_staged : ℕ → ℕ → StagedChunk → Bool
is_staged source_id ordinal c = c.source_id == source_id && c.ordinal == ordinal

-- The ordinals from `start` on, `count` of them, that are not staged yet are.
abbrev pub stage_from : ℕ → ℕ → ℕ → List StagedChunk → List StagedChunk
stage_from source_id start zero rows = rows
stage_from source_id start (suc count) rows =
    let rest = stage_from source_id (suc start) count rows in
    if any (is_staged source_id start) rows
    then rest
    else record { source_id = source_id; ordinal = start } ∷ rest

-- `chunks`: how many chunks the saved text gives.
unfoldable pub embed_chunks : Settings → Bool → ℕ → ℕ → List StagedChunk → Embedded
embed_chunks settings has_adapter source_id chunks rows =
    if not has_adapter
    then raises ingestion_error
    else if chunks == 0
    then raises ingestion_error
    else if ltb settings.ingest_max_chunks chunks
    then raises ingestion_error
    else staged (stage_from source_id 0 chunks rows)

abbrev pub live_chunk : (ℕ → ℕ) → StagedChunk → Chunk
live_chunk new_id c = record {
  id = new_id c.ordinal;
  source_id = c.source_id;
  superseded_at = none;
}

abbrev pub live_chunks : (ℕ → ℕ) → ℕ → List StagedChunk → List Chunk
live_chunks new_id source_id rows =
    map (live_chunk new_id) (keep (λ c. c.source_id == source_id) rows)

abbrev pub published : Settings → ℕ → Source → Source
published settings now r = record (finish now (some tag) r) {
  lease_expires_at = some (now + lease_seconds settings);
}

unfoldable pub publish : Settings → ℕ → (ℕ → Bool) → (ℕ → ℕ) → ℕ → Tables → Tables
publish settings now is_cited new_id source_id t = record {
  sources = update_at source_id (published settings now) t.sources;
  chunks =
      supersede_chunks now is_cited source_id t.chunks ++ live_chunks new_id source_id t.staged;
  staged = keep (λ c. not (c.source_id == source_id)) t.staged;
}

-- `succeeded`: whether the concept tags were written before the deadline.
unfoldable pub tag_stage : ℕ → Bool → ℕ → List Source → List Source
tag_stage now succeeded source_id sources =
    update_at source_id
      (λ r. record r {
        stage = if succeeded then none else r.stage;
        lease_expires_at = none;
        updated_at = now;
      })
      sources
