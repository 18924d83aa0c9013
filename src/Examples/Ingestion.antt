-- ===== src/Examples/Ingestion.antt =====
-- Two uploads of one text, a worker that dies, and the sweep after it.
use guru_alt.Common.{any, ◌≡◌, refl, true, false, none, some, List, [], ◌∷◌, arith, elem}
use guru_alt.Common.Sort.{sort}
use guru_alt.Plan.Step.Horizon.{take}
use guru_alt.Ingest.{Source, Tables, Settings, file, pending, processing, done, source_at}
use guru_alt.Ingest.Rows.{At}
use guru_alt.Ingest.Claim.{claim_source}
use guru_alt.Ingest.Duplicates.{
  answers_for, is_stranded_duplicate, release_duplicates, same_text_source, stranded_duplicates,
}
use guru_alt.Ingest.Stages.{Extraction, extract, duplicate, supersede_chunks}
use guru_alt.Ingest.Sweep.{reconcile_stranded}
use guru_alt.Ingest.Jobs.{World, Reached, start, step, uploads, claims, IsLeased}
use guru_alt.Ingest.OneJob.{Reached-IsLeased}
use guru_alt.Ingest.Offers.{
  Answered, Claimed, reconcile_stranded-Answered, reconcile_stranded-Claimed,
}
use guru_alt.Ingest.Released.{extract_answered}

abbrev settings : Settings
settings = record {
  ingest_job_timeout_seconds = 3600;
  ingest_lease_grace_seconds = 120;
  ingest_max_attempts = 3;
  ingest_max_extracted_chars = 20000;
  ingest_max_chunks = 5000;
  ingest_reconcile_grace_seconds = 300;
  ingest_reconcile_batch = 100;
}

abbrev upload : Source
upload = record {
  id = 1;
  learner_id = 7;
  kind = file;
  blob_key = some 40;
  text_sha256 = none;
  duplicate_of_id = none;
  archived_at = none;
  status = pending;
  stage = none;
  error = none;
  subject_id = some 3;
  topic_id = none;
  attempts = 0;
  lease_expires_at = none;
  created_at = 1000;
  updated_at = 1000;
}

abbrev no_tables : Tables
no_tables = record { sources = []; chunks = []; staged = [] }

abbrev nothing : World
nothing = record { tables = no_tables; jobs = []; now = 1000 }

abbrev uploaded : World
uploaded = record nothing { tables = record no_tables { sources = upload ∷ [] } }

abbrev worked : World
worked = record {
  tables = record no_tables { sources = (claim_source settings 1000 1 (upload ∷ [])).0 };
  jobs = record { source_id = 1; until = 4720 } ∷ [];
  now = 1000;
}

worked_reached : Reached settings worked
unfolding claim_source
worked_reached =
    step
      (step (start {w = nothing} refl refl) (
        uploads {w = nothing} upload
          (record { waits = refl; unclaimed = refl; free = refl; new_id = refl; no_job = refl })))
      (claims {w = uploaded} 1)

Reached-IsLeased_example : IsLeased settings worked
Reached-IsLeased_example = Reached-IsLeased settings (omega arith) worked_reached

-- Two workers never claim one source.
claim_source-twice : (claim_source settings 1001 1 worked.tables.sources).1 ≡ none
unfolding claim_source
claim_source-twice = refl

-- The worker has died: its lease has lapsed.
abbrev dead : Source
dead = record upload { status = processing; attempts = 1; lease_expires_at = some 4720 }

abbrev left_behind : Tables
left_behind = record no_tables { sources = dead ∷ [] }

reconcile_stranded-Answered_example :
    Answered settings dead 1
      (reconcile_stranded settings 5000 9 left_behind).1
      (source_at 1 (reconcile_stranded settings 5000 9 left_behind).0)
reconcile_stranded-Answered_example =
    reconcile_stranded-Answered settings 5000 9 left_behind 1 dead (refl, tt) refl refl

enqueued : (reconcile_stranded settings 5000 9 left_behind).1 ≡ 1 ∷ []
unfolding reconcile_stranded release_duplicates stranded_duplicates sort take
enqueued = refl

one_enqueued : elem 1 (reconcile_stranded settings 5000 9 left_behind).1 ≡ true
unfolding reconcile_stranded release_duplicates stranded_duplicates sort take
one_enqueued = refl

reconcile_stranded-Claimed_example :
    Claimed (claim_source settings 5000 1 (reconcile_stranded settings 5000 9 left_behind).0)
reconcile_stranded-Claimed_example =
    reconcile_stranded-Claimed settings 5000 9 left_behind 1 (omega arith) (refl, tt) one_enqueued

-- The text of the first upload is searchable, and the second one says the same.
abbrev original : Source
original = record upload { id = 2; text_sha256 = some 55; status = done; created_at = 900 }

abbrev busy : Source
busy = record dead { lease_expires_at = some 4720 }

abbrev twins : Tables
twins = record {
  sources = busy ∷ original ∷ [];
  chunks = record { id = 70; source_id = 2; superseded_at = none } ∷ [];
  staged = [];
}

abbrev text : Extraction
text = record { has_adapter = true; characters = 900; text_sha256 = 55 }

abbrev finished : Source
finished = record busy {
  status = done;
  stage = none;
  error = none;
  lease_expires_at = none;
  attempts = 0;
  updated_at = 1200;
  text_sha256 = some 55;
  duplicate_of_id = some 2;
}

abbrev answered : Tables
answered = record twins { sources = finished ∷ original ∷ [] }

extract-twin : extract settings 1200 (λ c. false) text busy twins ≡ duplicate answered
unfolding extract same_text_source supersede_chunks sort
extract-twin = refl

extract_answered_example :
    At
      (λ x.
        (any (answers_for answered.chunks x) answered.sources ≡ true)
        × (is_stranded_duplicate answered.sources answered.chunks x ≡ false))
      (source_at 1 answered.sources)
extract_answered_example =
    extract_answered settings 1200 (λ c. false) text busy twins answered refl extract-twin

-- Without the original, the duplicate is released, once.
abbrev alone : List Source
alone = record finished { duplicate_of_id = none } ∷ []

release_duplicates-alone : (release_duplicates 1300 alone [] (1 ∷ [])).1 ≡ 1 ∷ []
unfolding release_duplicates
release_duplicates-alone = refl
