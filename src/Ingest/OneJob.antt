-- ===== src/Ingest/OneJob.antt =====
-- No two jobs ever work on one source.
use guru_alt.Common.{
  branch, ℕ, ◌≤◌, ◌<◌, ◌≡◌, inl, inr, refl, sym, ap, subst, ◌∙◌, Bool, true, false, not, Option,
  none, some, List, [], ◌∷◌, arith, ltb, ◌==◌, any, all, if◌then◌else◌, elem, Distinct, tally, All,
  Bool-cases,
}
use guru_alt.Ingest.{Source, Settings, source_at, update_where, is_live, is_file}
use guru_alt.Ingest.Rows.{both, At-map, At-some, At, source_at-id, kept-Has, Has-At}
use guru_alt.Ingest.Claim.{
  lease_seconds, claim_source, record_failure, reset_for_reingest, reset_row, Reset, ready,
  started_over,
}
use guru_alt.Ingest.Duplicates.{has_chunks, ids, release_duplicates, releases}
use guru_alt.Ingest.Sweep.{reconcile_stranded, abandon}
use guru_alt.Ingest.Jobs.{
  Job, World, is_on, with_sources, Edit, IsNew, Step, waits, uploads, edits, claims, finds_twin,
  extracts, embeds, publishes, tags, fails, dies, sweeps, resets, Reached, start, step, Shaped,
  Works, Owned, IsLeased,
}
use guru_alt.Ingest.Leases.{idle, elsewhere, written-IsLeased, swept-IsLeased}
use guru_alt.Ingest.Acts.{
  claims-IsLeased, Leaves, extract-Leaves, publishes-IsLeased, tags-IsLeased, Written,
  failure_row-Written, dies-IsLeased,
}

module _ (settings : Settings) where
  waits-IsLeased :
      (w : World) (later : ℕ)
      → w.now ≤ later
      → all (λ j. ltb later j.until) w.jobs ≡ true
      → IsLeased settings w
      → IsLeased settings (record w { now = later })
  waits-IsLeased w later after early inv = record {
    owned = go w.jobs early inv.owned;
    single = inv.single;
    shaped = inv.shaped;
    distinct = inv.distinct;
  }
    where
      go :
          (jobs : List Job)
          → all (λ j. ltb later j.until) jobs ≡ true
          → All (Owned w.now w.tables.sources) jobs
          → All (Owned later w.tables.sources) jobs
      go [] early owned = tt
      go (j ∷ jobs) early owned =
          ((ground (arith, early), owned.0.1), go jobs (ground (arith, early)) owned.1)

  uploads-IsLeased :
      (w : World) (r : Source)
      → IsNew w r
      → IsLeased settings w
      → IsLeased settings (record w { tables = with_sources w.tables (r ∷ w.tables.sources) })
  uploads-IsLeased w r new inv = record {
    owned = go w.jobs new.no_job inv.owned;
    single = inv.single;
    shaped = λ id. elim (Bool-cases (r.id == id)) [
      | inl hit ↦ rw hit (ground (arith, new.waits, new.unclaimed, new.free))
      | inr miss ↦ rw miss (inv.shaped id)
    ];
    distinct = (new.new_id, inv.distinct);
  }
    where
      go :
          (jobs : List Job)
          → any (is_on r.id) jobs ≡ false
          → All (Owned w.now w.tables.sources) jobs
          → All (Owned w.now (r ∷ w.tables.sources)) jobs
      go [] none_ owned = tt
      go (j ∷ jobs) none_ owned =
          let other : (r.id == j.source_id) ≡ false = ground (arith, none_) in
          ((owned.0.0, rw other owned.0.1), go jobs (ground (arith, none_)) owned.1)

  edits-IsLeased :
      (w : World) (f : Source → Source) (p : Source → Bool)
      → Edit f
      → IsLeased settings w
      → IsLeased settings
          (record w { tables = with_sources w.tables (update_where p f w.tables.sources) })
  edits-IsLeased w f p edit inv =
      swept-IsLeased settings w (λ r. if p r then f r else r) inv (λ r. ground (arith, edit.id r))
        (λ id.
          At-map
            (λ r h. elim (Bool-cases (p r)) [
              | inl hit ↦ rw hit (
                ground (arith, edit.status r, edit.stage r, edit.attempts r, edit.lease r, h),
                λ until live works.
                    (edit.lease r ∙ works.0, ground (arith, edit.status r, edit.stage r, works.1)),
              )
              | inr miss ↦ rw miss (h, λ until live works. works)
            ])
            (source_at id w.tables.sources) (inv.shaped id))

  abandon-IsLeased :
      (w : World) (message : ℕ)
      → IsLeased settings w
      → IsLeased settings (record w {
        tables = with_sources w.tables (abandon settings w.now message w.tables.sources);
      })
  abandon-IsLeased w message inv =
      swept-IsLeased settings w _ inv (λ r. ground arith)
        (λ id.
          At-map
            (λ r h.
              (ground (arith, h), λ until live works. ground (arith, h, live, works.0, works.1)))
            (source_at id w.tables.sources) (inv.shaped id))

  release_duplicates-IsLeased :
      (w : World) (source_ids : List ℕ)
      → IsLeased settings w
      → IsLeased settings (record w {
        tables =
            with_sources w.tables
              (release_duplicates w.now w.tables.sources w.tables.chunks source_ids).0;
      })
  unfolding release_duplicates
  release_duplicates-IsLeased w source_ids inv =
      swept-IsLeased settings w _ inv (λ r. ground arith)
        (λ id. elim (Bool-cases (elem id (releases w.tables.sources w.tables.chunks source_ids))) [
          | inl hit ↦
              At-map
                (λ r h.
                  rw
                    (ap (λ n. elem n (releases w.tables.sources w.tables.chunks source_ids)) h.0.0
                      ∙ hit)
                    (
                      ground (arith, h.0.1, h.1),
                      λ until live works. absurd (
                          ground (
                            arith,
                            h.0.1,
                            h.1,
                            works.0,
                            works.1,
                            ap (λ n. has_chunks n w.tables.chunks) h.0.0,
                          )),
                    ))
                (source_at id w.tables.sources)
                (both _ _ (source_at id w.tables.sources)
                  (both (λ r. r.id ≡ id) _ (source_at id w.tables.sources)
                    (source_at-id id w.tables.sources) (inv.shaped id))
                  (Has-At _ (source_at id w.tables.sources)
                    (kept-Has _ id w.tables.sources inv.distinct hit)))
          | inr miss ↦
              At-map
                (λ r h.
                  rw
                    (ap (λ n. elem n (releases w.tables.sources w.tables.chunks source_ids)) h.0
                      ∙ miss)
                    (h.1, λ until live works. works))
                (source_at id w.tables.sources)
                (both (λ r. r.id ≡ id) _ (source_at id w.tables.sources)
                  (source_at-id id w.tables.sources) (inv.shaped id))
        ])

  -- What a reset leaves, when it is granted.
  abbrev Restarted : World → Reset → Type 0
  Restarted w (ready t) = IsLeased settings (record w { tables = t })
  Restarted w _ = Unit

  reset_row-Restarted :
      (w : World) (id : ℕ) (o : Option Source)
      → source_at id w.tables.sources ≡ o
      → IsLeased settings w
      → Restarted w (reset_row w.now id w.tables o)
  reset_row-Restarted w id none e inv = tt
  reset_row-Restarted w id (some r) e inv =
      branch (Restarted w) (not (is_file r.kind)) _ _ tt
        (elim (Bool-cases (is_live w.now r.lease_expires_at)) [
          | inl live ↦ rw live tt
          | inr lapsed ↦
              let far =
                idle w.now id w.tables.sources w.jobs
                  (λ until live works.
                    let (lease, work) =
                      At-some (Works until) (source_at id w.tables.sources) e works in
                    ground (arith, ap (is_live w.now) lease, lapsed, live))
                  inv.owned in
              rw lapsed (
                written-IsLeased settings w id (started_over w.now) w.tables.chunks _ w.jobs
                  (Shaped settings w.tables.chunks id) inv (λ x. refl) (λ k other. refl)
                  (inv.shaped id) (λ x h. ground arith)
                  (elsewhere w.now id (started_over w.now) (λ x. refl) w.tables.sources w.jobs far
                    inv.owned)
                  inv.single)
        ])

  Step-IsLeased :
      {w w' : World}
      → 0 < lease_seconds settings
      → Step settings w w'
      → IsLeased settings w
      → IsLeased settings w'
  unfolding claim_source record_failure reset_for_reingest reconcile_stranded
  Step-IsLeased t (waits {w = w} later after early) inv = waits-IsLeased w later after early inv
  Step-IsLeased t (uploads {w = w} r new) inv = uploads-IsLeased w r new inv
  Step-IsLeased t (edits {w = w} f edit p) inv = edits-IsLeased w f p edit inv
  Step-IsLeased t (claims {w = w} id) inv =
      claims-IsLeased settings w id (source_at id w.tables.sources) t refl inv
  Step-IsLeased t (finds_twin {w = w} is_cited e r tables job here found) inv =
      subst (Leaves settings w r) found (extract-Leaves settings w is_cited e r here inv)
  Step-IsLeased t (extracts {w = w} is_cited e r tables here busy found) inv =
      subst (Leaves settings w r) found (extract-Leaves settings w is_cited e r here inv) busy
  Step-IsLeased t (embeds {w = w} id count rows found) inv = record {
    owned = inv.owned;
    single = inv.single;
    shaped = inv.shaped;
    distinct = inv.distinct;
  }
  Step-IsLeased t (publishes {w = w} id is_cited new_id job rows) inv =
      publishes-IsLeased settings w id is_cited new_id t rows inv
  Step-IsLeased t (tags {w = w} id succeeded r job here ready_) inv =
      tags-IsLeased settings w id succeeded r here ready_ inv
  Step-IsLeased t (fails {w = w} id message exc sources job written) inv =
      subst (Written settings w id) written
        (failure_row-Written settings w id message exc (source_at id w.tables.sources) inv)
  Step-IsLeased t (dies {w = w} id) inv = dies-IsLeased settings w id inv
  Step-IsLeased t (sweeps {w = w} message) inv =
      release_duplicates-IsLeased
        (record w {
          tables = with_sources w.tables (abandon settings w.now message w.tables.sources);
        })
        _ (abandon-IsLeased w message inv)
  Step-IsLeased t (resets {w = w} id tables found) inv =
      subst (Restarted w) found (reset_row-Restarted w id (source_at id w.tables.sources) refl inv)

  -- However the jobs, the sweep and the callers interleave, no two jobs ever work on one source:
  -- each job that runs holds the lease of its source, which has not lapsed and says that the source
  -- is processed or tagged; each row has the lease that its status asks for, and at most the
  -- allowed attempts, and a source that waits for tags has chunks to search.
  pub Reached-IsLeased :
      {w : World} → 0 < lease_seconds settings → Reached settings w → IsLeased settings w
  Reached-IsLeased t (start {w = w} no_source no_job) = record {
    owned = subst (All (Owned w.now w.tables.sources)) (sym no_job) tt;
    single = λ id. ground (arith, ap (tally (is_on id)) no_job);
    shaped = λ id.
        subst (λ s. At (Shaped settings w.tables.chunks id) (source_at id s)) (sym no_source) tt;
    distinct = subst (λ s. Distinct (ids s)) (sym no_source) tt;
  }
  Reached-IsLeased t (step before s) = Step-IsLeased t s (Reached-IsLeased t before)
