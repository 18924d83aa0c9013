-- ===== src/Ingest.antt =====
-- Ingestion of uploaded sources: app/services/ingestion.py, the stages of app/rag/pipeline.py, and
-- the rows of app/models/source.py. A time is a number of seconds of the database's clock.
pub mod Rows
pub mod Claim
pub mod Duplicates
pub mod Stages
pub mod Sweep
pub mod Jobs
pub mod Leases
pub mod Acts
pub mod OneJob
pub mod Offers
pub mod Released
use guru_alt.Common.{
  ℕ, Bool, true, false, not, ◌&&◌, Option, none, some, List, [], ◌∷◌, map, ltb, ◌==◌, if◌then◌else◌,
}

pub data SourceKind : Type 0 where
  file url : SourceKind

pub data SourceStatus : Type 0 where
  pending processing done failed : SourceStatus

pub data SourceStage : Type 0 where
  embed tag : SourceStage

pub record Source : Type 0 where
  pub id : ℕ
  pub learner_id : ℕ
  pub kind : SourceKind
  pub blob_key : Option ℕ
  pub text_sha256 : Option ℕ
  pub duplicate_of_id : Option ℕ
  pub archived_at : Option ℕ
  pub status : SourceStatus
  pub stage : Option SourceStage
  pub error : Option ℕ
  pub subject_id : Option ℕ
  pub topic_id : Option ℕ
  pub attempts : ℕ
  pub lease_expires_at : Option ℕ
  pub created_at : ℕ
  pub updated_at : ℕ

pub record Chunk : Type 0 where
  pub id : ℕ
  pub source_id : ℕ
  pub superseded_at : Option ℕ

pub record StagedChunk : Type 0 where
  pub source_id : ℕ
  pub ordinal : ℕ

pub record Tables : Type 0 where
  pub sources : List Source
  pub chunks : List Chunk
  pub staged : List StagedChunk

pub record Settings : Type 0 where
  pub ingest_job_timeout_seconds : ℕ
  pub ingest_lease_grace_seconds : ℕ
  pub ingest_max_attempts : ℕ
  pub ingest_max_extracted_chars : ℕ
  pub ingest_max_chunks : ℕ
  pub ingest_reconcile_grace_seconds : ℕ
  pub ingest_reconcile_batch : ℕ

abbrev pub is_pending : SourceStatus → Bool
is_pending pending = true
is_pending _ = false

abbrev pub is_processing : SourceStatus → Bool
is_processing processing = true
is_processing _ = false

abbrev pub is_done : SourceStatus → Bool
is_done done = true
is_done _ = false

abbrev pub is_tag : Option SourceStage → Bool
is_tag (some tag) = true
is_tag _ = false

abbrev pub is_file : SourceKind → Bool
is_file file = true
is_file url = false

abbrev pub is_null : Option ℕ → Bool
is_null none = true
is_null (some n) = false

-- `lease_expires_at < func.now()`, which a missing lease does not satisfy.
abbrev pub has_lapsed : ℕ → Option ℕ → Bool
has_lapsed now none = false
has_lapsed now (some until) = ltb until now

-- `func.now() < lease_expires_at`
abbrev pub is_live : ℕ → Option ℕ → Bool
is_live now none = false
is_live now (some until) = ltb now until

-- `session.get(Source, id)`
abbrev pub source_at : ℕ → List Source → Option Source
source_at id [] = none
source_at id (r ∷ sources) = if r.id == id then some r else source_at id sources

-- `UPDATE sources SET ... WHERE ...`
abbrev pub update_where : (Source → Bool) → (Source → Source) → List Source → List Source
update_where p f sources = map (λ r. if p r then f r else r) sources

abbrev pub update_at : ℕ → (Source → Source) → List Source → List Source
update_at id f sources = update_where (λ r. r.id == id) f sources

abbrev pub is_current_of : ℕ → Chunk → Bool
is_current_of source_id c = c.source_id == source_id && is_null c.superseded_at
