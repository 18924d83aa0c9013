-- ===== src/Ingest/Claim.antt =====
-- `lease_seconds`, `claim_source`, `reset_for_reingest`, `_is_terminal` and `_record_failure` of
-- app/services/ingestion.py.
use guru_alt.Common.{
  ℕ, suc, ◌+◌, Bool, true, false, not, ◌&&◌, ◌||◌, Option, none, some, List, ltb, leb, ◌==◌, keep,
  if◌then◌else◌,
}
use guru_alt.Ingest.{
  Source, pending, processing, done, failed, Settings, Tables, StagedChunk, is_pending,
  is_processing, is_done, is_tag, is_file, is_null, has_lapsed, is_live, source_at, update_at,
}

abbrev pub lease_seconds : Settings → ℕ
lease_seconds settings = settings.ingest_job_timeout_seconds + settings.ingest_lease_grace_seconds

abbrev pub is_claimable : Settings → ℕ → Source → Bool
is_claimable settings now r =
    (is_pending r.status
      || is_processing r.status && has_lapsed now r.lease_expires_at
      || is_done r.status
        && is_tag r.stage
        && (is_null r.lease_expires_at || has_lapsed now r.lease_expires_at))
    && ltb r.attempts settings.ingest_max_attempts

abbrev pub claimed : Settings → ℕ → Source → Source
claimed settings now r = record r {
  status = if is_done r.status then done else processing;
  attempts = suc r.attempts;
  lease_expires_at = some (now + lease_seconds settings);
  error = none;
  updated_at = now;
}

abbrev pub claim_row : Settings → ℕ → ℕ → List Source → Option Source → List Source × Option Source
claim_row settings now id sources none = (sources, none)
claim_row settings now id sources (some r) =
    if is_claimable settings now r
    then (update_at id (claimed settings now) sources, some (claimed settings now r))
    else (sources, none)

unfoldable pub claim_source : Settings → ℕ → ℕ → List Source → List Source × Option Source
claim_source settings now id sources = claim_row settings now id sources (source_at id sources)

-- What may go wrong in a job, by the class of the exception.
pub data Failure : Type 0 where
  ingestion_error fetch_error fetch_transport_error other : Failure

abbrev pub is_terminal : Failure → Bool
is_terminal ingestion_error = true
is_terminal fetch_error = true
is_terminal fetch_transport_error = false
is_terminal other = false

abbrev pub with_failure : Settings → ℕ → Failure → ℕ → Source → Source
with_failure settings now exc message r = record r {
  status =
      if not (is_terminal exc) && not (leb settings.ingest_max_attempts r.attempts)
      then pending
      else failed;
  error = some message;
  lease_expires_at = none;
  updated_at = now;
}

abbrev pub failure_row :
    Settings → ℕ → Failure → ℕ → ℕ → List Source → Option Source → Option (List Source)
failure_row settings now exc message id sources none = none
failure_row settings now exc message id sources (some r) =
    some (update_at id (with_failure settings now exc message) sources)

-- Without a row it raises.
unfoldable pub record_failure : Settings → ℕ → Failure → ℕ → ℕ → List Source → Option (List Source)
record_failure settings now exc message id sources =
    failure_row settings now exc message id sources (source_at id sources)

pub data Reset : Type 0 where
  missing web_ingestion_disabled running : Reset
  ready : Tables → Reset

abbrev pub started_over : ℕ → Source → Source
started_over now r = record r {
  status = pending;
  attempts = 0;
  error = none;
  lease_expires_at = none;
  stage = none;
  updated_at = now;
}

abbrev pub reset_row : ℕ → ℕ → Tables → Option Source → Reset
reset_row now id t none = missing
reset_row now id t (some r) =
    if not (is_file r.kind)
    then web_ingestion_disabled
    else if is_live now r.lease_expires_at
    then running
    else ready (record t {
      sources = update_at id (started_over now) t.sources;
      staged = keep (λ (c : StagedChunk). not (c.source_id == id)) t.staged;
    })

unfoldable pub reset_for_reingest : ℕ → ℕ → Tables → Reset
reset_for_reingest now id t = reset_row now id t (source_at id t.sources)
