-- ===== src/Ingest/Jobs.antt =====
-- All jobs of all workers, the sweep and the callers, interleaved. A job is the source that it has
-- claimed and when its lease lapses. A job has a deadline below its lease (`asyncio.timeout` with
-- the timeout that `lease_seconds` adds the grace to), so that the clock does not pass the lease of
-- a job that still runs; a worker that is gone runs none.
use guru_alt.Common.{
  ℕ, ◌+◌, ◌≤◌, ◌<◌, ◌≡◌, Bool, true, false, not, ◌&&◌, ◌||◌, Option, none, some, List, [], ◌∷◌, leb,
  ltb, ◌==◌, any, all, keep, if◌then◌else◌, elem, Distinct, tally, All,
}
use guru_alt.Ingest.{
  Source, pending, Chunk, StagedChunk, Tables, Settings, is_processing, is_done, is_tag, is_null,
  source_at, SourceStatus, SourceStage, processing, done, failed, update_where,
}
use guru_alt.Ingest.Rows.{At}
use guru_alt.Ingest.Claim.{
  lease_seconds, claim_source, Failure, record_failure, reset_for_reingest, ready,
}
use guru_alt.Ingest.Duplicates.{has_chunks, ids}
use guru_alt.Ingest.Stages.{
  Extraction, extract, duplicate, extracted, embed_chunks, staged, publish, tag_stage,
}
use guru_alt.Ingest.Sweep.{reconcile_stranded}

pub record Job : Type 0 where
  pub source_id : ℕ
  pub until : ℕ

pub record World : Type 0 where
  pub tables : Tables
  pub jobs : List Job
  pub now : ℕ

abbrev pub is_on : ℕ → Job → Bool
is_on id j = j.source_id == id

abbrev pub others : ℕ → List Job → List Job
others id jobs = keep (λ j. not (is_on id j)) jobs

abbrev pub with_sources : Tables → List Source → Tables
with_sources t sources = record t { sources = sources }

abbrev pub started : Settings → ℕ → ℕ → List Job → Option Source → List Job
started settings now id jobs none = jobs
started settings now id jobs (some r) =
    record { source_id = id; until = now + lease_seconds settings } ∷ jobs

-- Another part of the program writes its own columns of a source.
pub record Edit (f : Source → Source) : Type 0 where
  pub id : (r : Source) → (f r).id ≡ r.id
  pub status : (r : Source) → (f r).status ≡ r.status
  pub stage : (r : Source) → (f r).stage ≡ r.stage
  pub attempts : (r : Source) → (f r).attempts ≡ r.attempts
  pub lease : (r : Source) → (f r).lease_expires_at ≡ r.lease_expires_at

-- A source is created: it waits, and its id is new.
pub record IsNew (w : World) (r : Source) : Type 0 where
  pub waits : r.status ≡ pending
  pub unclaimed : r.attempts ≡ 0
  pub free : r.lease_expires_at ≡ none
  pub new_id : elem r.id (ids w.tables.sources) ≡ false
  pub no_job : any (is_on r.id) w.jobs ≡ false

module _ (settings : Settings) where
  pub data Step : World → World → Type 0 where
    waits :
        {w : World} (later : ℕ)
        → w.now ≤ later
        → all (λ j. ltb later j.until) w.jobs ≡ true
        → Step w (record w { now = later })
    uploads :
        {w : World} (r : Source)
        → IsNew w r
        → Step w (record w { tables = with_sources w.tables (r ∷ w.tables.sources) })
    edits :
        {w : World} (f : Source → Source)
        → Edit f
        → (p : Source → Bool)
        → Step w (record w { tables = with_sources w.tables (update_where p f w.tables.sources) })
    claims :
        {w : World} (id : ℕ)
        → Step w (record w {
          tables = with_sources w.tables (claim_source settings w.now id w.tables.sources).0;
          jobs =
              started settings w.now id w.jobs (claim_source settings w.now id w.tables.sources).1;
        })
    finds_twin :
        {w : World} (is_cited : ℕ → Bool) (e : Extraction) (r : Source) (t : Tables)
        → any (is_on r.id) w.jobs ≡ true
        → source_at r.id w.tables.sources ≡ some r
        → extract settings w.now is_cited e r w.tables ≡ duplicate t
        → Step w (record w { tables = t; jobs = others r.id w.jobs })
    extracts :
        {w : World} (is_cited : ℕ → Bool) (e : Extraction) (r : Source) (t : Tables)
        → source_at r.id w.tables.sources ≡ some r
        → is_processing r.status ≡ true
        → extract settings w.now is_cited e r w.tables ≡ extracted t
        → Step w (record w { tables = t })
    embeds :
        {w : World} (id count : ℕ) (rows : List StagedChunk)
        → embed_chunks settings true id count w.tables.staged ≡ staged rows
        → Step w (record w { tables = record w.tables { staged = rows } })
    publishes :
        {w : World} (id : ℕ) (is_cited : ℕ → Bool) (new_id : ℕ → ℕ)
        → any (is_on id) w.jobs ≡ true
        → any (λ c. c.source_id == id) w.tables.staged ≡ true
        → Step w (record w {
          tables = publish settings w.now is_cited new_id id w.tables;
          jobs =
              record { source_id = id; until = w.now + lease_seconds settings } ∷ others id w.jobs;
        })
    tags :
        {w : World} (id : ℕ) (succeeded : Bool) (r : Source)
        → any (is_on id) w.jobs ≡ true
        → source_at id w.tables.sources ≡ some r
        → is_done r.status ≡ true
        → Step w (record w {
          tables = with_sources w.tables (tag_stage w.now succeeded id w.tables.sources);
          jobs = others id w.jobs;
        })
    fails :
        {w : World} (id message : ℕ) (exc : Failure) (sources : List Source)
        → any (is_on id) w.jobs ≡ true
        → record_failure settings w.now exc message id w.tables.sources ≡ some sources
        → Step w (record w { tables = with_sources w.tables sources; jobs = others id w.jobs })
    dies : {w : World} (id : ℕ) → Step w (record w { jobs = others id w.jobs })
    sweeps :
        {w : World} (message : ℕ)
        → Step w (record w {
          tables = with_sources w.tables (reconcile_stranded settings w.now message w.tables).0;
        })
    resets :
        {w : World} (id : ℕ) (t : Tables)
        → reset_for_reingest w.now id w.tables ≡ ready t
        → Step w (record w { tables = t })

  pub data Reached : World → Type 0 where
    start : {w : World} → w.tables.sources ≡ [] → w.jobs ≡ [] → Reached w
    step : {w w' : World} → Reached w → Step w w' → Reached w'

  -- What each status says of the lease, the attempts and the chunks.
  abbrev pub is_shaped : Bool → SourceStatus → Option SourceStage → ℕ → Option ℕ → Bool
  is_shaped has pending stage attempts lease =
      leb attempts settings.ingest_max_attempts && is_null lease
  is_shaped has processing stage attempts lease =
      leb attempts settings.ingest_max_attempts && not (is_null lease)
  is_shaped has done stage attempts lease =
      leb attempts settings.ingest_max_attempts && (if is_tag stage then has else is_null lease)
  is_shaped has failed stage attempts lease =
      leb attempts settings.ingest_max_attempts && is_null lease

  abbrev pub Shaped : List Chunk → ℕ → Source → Type 0
  Shaped chunks id r =
      is_shaped (has_chunks id chunks) r.status r.stage r.attempts r.lease_expires_at ≡ true

-- The source is being processed or tagged, under the job's lease.
abbrev pub Works : ℕ → Source → Type 0
Works until r =
    (r.lease_expires_at ≡ some until)
    × ((is_processing r.status || is_done r.status && is_tag r.stage) ≡ true)

abbrev pub Owned : ℕ → List Source → Job → Type 0
Owned now sources j = (now < j.until) × At (Works j.until) (source_at j.source_id sources)

module _ (settings : Settings) where
  -- Each source has at most one job, which holds its lease, and each row has the shape of its
  -- status.
  pub record IsLeased (w : World) : Type 0 where
    pub owned : All (Owned w.now w.tables.sources) w.jobs
    pub single : (id : ℕ) → tally (is_on id) w.jobs ≤ 1
    pub shaped : (id : ℕ) → At (Shaped settings w.tables.chunks id) (source_at id w.tables.sources)
    pub distinct : Distinct (ids w.tables.sources)
