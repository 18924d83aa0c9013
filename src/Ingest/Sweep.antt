-- ===== src/Ingest/Sweep.antt =====
-- `reconcile_stranded` of app/services/ingestion.py.
use guru_alt.Common.{ℕ, ◌+◌, Bool, ◌&&◌, ◌||◌, Option, none, some, List, ◌++◌, ltb, leb, keep}
use guru_alt.Common.Sort.{sort}
use guru_alt.Plan.Step.Horizon.{take}
use guru_alt.Ingest.{
  Source, failed, Tables, Settings, is_pending, is_processing, is_done, is_tag, is_null, has_lapsed,
  update_where,
}
use guru_alt.Ingest.Duplicates.{ids, stranded_duplicates, release_duplicates}

abbrev pub is_exhausted : Settings → ℕ → Source → Bool
is_exhausted settings now r =
    (is_pending r.status || is_processing r.status)
    && leb settings.ingest_max_attempts r.attempts
    && (is_null r.lease_expires_at || has_lapsed now r.lease_expires_at)

abbrev pub coalesce : Option ℕ → ℕ → Option ℕ
coalesce none message = some message
coalesce (some e) message = some e

abbrev pub abandoned : ℕ → ℕ → Source → Source
abandoned now message r = record r {
  status = failed;
  lease_expires_at = none;
  error = coalesce r.error message;
  updated_at = now;
}

-- `updated_at < now - grace`, without a negative time.
abbrev pub is_stranded : Settings → ℕ → Source → Bool
is_stranded settings now r =
    ltb r.attempts settings.ingest_max_attempts
    && (is_pending r.status && ltb (r.updated_at + settings.ingest_reconcile_grace_seconds) now
        || is_processing r.status && has_lapsed now r.lease_expires_at
        || is_done r.status
          && is_tag r.stage
          && ltb (r.updated_at + settings.ingest_reconcile_grace_seconds) now
          && (is_null r.lease_expires_at || has_lapsed now r.lease_expires_at))

abbrev pub stranded : Settings → ℕ → List Source → List ℕ
stranded settings now sources =
    take settings.ingest_reconcile_batch
      (ids (sort (λ a b. leb a.updated_at b.updated_at) (keep (is_stranded settings now) sources)))

abbrev pub abandon : Settings → ℕ → ℕ → List Source → List Source
abandon settings now message sources =
    update_where (is_exhausted settings now) (abandoned now message) sources

-- The sources after the sweep, and the ids that it enqueues, in order.
unfoldable pub reconcile_stranded : Settings → ℕ → ℕ → Tables → List Source × List ℕ
reconcile_stranded settings now message t =
    let parked = abandon settings now message t.sources in
    let (sources, recovered) =
      release_duplicates now parked t.chunks (stranded_duplicates parked t.chunks none) in
    (sources, stranded settings now parked ++ recovered)
