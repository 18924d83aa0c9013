-- ===== src/Ingest/Acts.antt =====
-- What a job does to the leases: it claims, extracts, publishes, tags, fails or dies.
use guru_alt.Common.{
  branch, ℕ, ◌+◌, ◌≤◌, ◌<◌, ◌≡◌, inl, inr, refl, sym, ap, subst, ◌∙◌, Bool, true, false, not, ◌||◌,
  Option, none, some, List, [], ◌∷◌, ◌++◌, arith, ltb, ◌==◌, ==_iff, any, tally, All, All-map,
  All-keep, Bool-cases,
}
use guru_alt.Ingest.{
  Source, Chunk, StagedChunk, Settings, is_processing, is_done, is_null, source_at, update_at,
}
use guru_alt.Ingest.Rows.{both, At-map, At-some, At-known, At, source_at-id, update_at-here}
use guru_alt.Ingest.Claim.{
  lease_seconds, is_claimable, claimed, claim_row, Failure, with_failure, failure_row,
}
use guru_alt.Ingest.Duplicates.{has_chunks, same_text_source}
use guru_alt.Ingest.Stages.{
  supersede_chunks, Extraction, Extracted, raises, duplicate, extracted, extract, settle_twin,
  with_text, with_twin, to_embed, publish, published, live_chunks, tag_stage,
}
use guru_alt.Ingest.Jobs.{
  Job, World, is_on, others, with_sources, started, Shaped, Works, Owned, IsLeased,
}
use guru_alt.Ingest.Leases.{
  tally_none, idle, elsewhere, others_far, tally-others, written-IsLeased, ended-IsLeased,
  swept-IsLeased,
}

pub has_chunks-supersede :
    (now k id : ℕ) (is_cited : ℕ → Bool) (chunks : List Chunk)
    → (k == id) ≡ false
    → has_chunks k (supersede_chunks now is_cited id chunks) ≡ has_chunks k chunks
unfolding supersede_chunks
has_chunks-supersede now k id is_cited [] other = refl
has_chunks-supersede now k id is_cited (c ∷ chunks) other =
    ground (arith, has_chunks-supersede now k id is_cited chunks other)

has_chunks-append :
    (k : ℕ) (old new : List Chunk)
    → has_chunks k (old ++ new) ≡ (has_chunks k old || has_chunks k new)
has_chunks-append k [] new = refl
has_chunks-append k (c ∷ old) new = ground (arith, has_chunks-append k old new)

has_chunks-live_other :
    (new_id : ℕ → ℕ) (k id : ℕ) (rows : List StagedChunk)
    → (k == id) ≡ false
    → has_chunks k (live_chunks new_id id rows) ≡ false
has_chunks-live_other new_id k id [] other = refl
has_chunks-live_other new_id k id (c ∷ rows) other =
    ground (arith, has_chunks-live_other new_id k id rows other)

has_chunks-live :
    (new_id : ℕ → ℕ) (id : ℕ) (rows : List StagedChunk)
    → any (λ c. c.source_id == id) rows ≡ true
    → has_chunks id (live_chunks new_id id rows) ≡ true
has_chunks-live new_id id [] h = h
has_chunks-live new_id id (c ∷ rows) h = ground (arith, has_chunks-live new_id id rows)

new_job-single :
    (id until : ℕ) (jobs : List Job)
    → All (λ (j : Job). (j.source_id == id) ≡ false) jobs
    → ((k : ℕ) → tally (is_on k) jobs ≤ 1)
    → (k : ℕ) → tally (is_on k) (record { source_id = id; until = until } ∷ jobs) ≤ 1
new_job-single id until jobs far single k = elim (Bool-cases (id == k)) [
  | inl hit ↦
      ground (arith, ap (λ n. tally (is_on n) jobs) ((==_iff id k).0 hit), tally_none id jobs far)
  | inr miss ↦ ground (arith, single k)
]

module _ (settings : Settings) where
  not_claimable :
      (now : ℕ) (r : Source)
      → is_claimable settings now r ≡ true
      → (until : ℕ) → now < until
      → Works until r
      → ⊥
  not_claimable now r can until live (lease, work) = ground (arith, lease, can, work)

  claimed-Shaped :
      (now id : ℕ) (chunks : List Chunk) (r : Source)
      → Shaped settings chunks id r × (is_claimable settings now r ≡ true)
      → Shaped settings chunks id (claimed settings now r)
  claimed-Shaped now id chunks r (shape, can) = ground (arith, shape, can)

  claimed-Works :
      (now : ℕ) (r : Source)
      → is_claimable settings now r ≡ true
      → Works (now + lease_seconds settings) (claimed settings now r)
  claimed-Works now r can = (refl, ground (arith, can))

  pub claims-IsLeased :
      (w : World) (id : ℕ) (o : Option Source)
      → 0 < lease_seconds settings
      → source_at id w.tables.sources ≡ o
      → IsLeased settings w
      → IsLeased settings (record w {
        tables = with_sources w.tables (claim_row settings w.now id w.tables.sources o).0;
        jobs = started settings w.now id w.jobs (claim_row settings w.now id w.tables.sources o).1;
      })
  claims-IsLeased w id none some_time e inv = inv
  claims-IsLeased w id (some r) some_time e inv =
      elim (Bool-cases (is_claimable settings w.now r)) [
        | inl can ↦
            let fits =
              At-known (λ x. is_claimable settings w.now x ≡ true) (source_at id w.tables.sources) e
                can in
            let far =
              idle w.now id w.tables.sources w.jobs
                (λ until live works.
                  not_claimable w.now r can until live
                    (At-some (Works until) (source_at id w.tables.sources) e works))
                inv.owned in
            rw can (
              written-IsLeased settings w id (claimed settings w.now) w.tables.chunks
                w.tables.staged _
                (λ x. Shaped settings w.tables.chunks id x × (is_claimable settings w.now x ≡ true))
                inv (λ x. refl) (λ k other. refl)
                (both (Shaped settings w.tables.chunks id)
                  (λ x. is_claimable settings w.now x ≡ true) (source_at id w.tables.sources)
                  (inv.shaped id) fits)
                (claimed-Shaped w.now id w.tables.chunks)
                (
                  (
                    omega arith,
                    update_at-here (claimed settings w.now) (λ x. refl)
                        (λ x. is_claimable settings w.now x ≡ true)
                        (Works (w.now + lease_seconds settings)) id (claimed-Works w.now)
                        w.tables.sources fits,
                  ),
                  elsewhere w.now id (claimed settings w.now) (λ x. refl) w.tables.sources w.jobs
                      far inv.owned,
                )
                (new_job-single id (w.now + lease_seconds settings) w.jobs far inv.single))
        | inr cannot ↦ rw cannot inv
      ]

  -- What an extraction leaves, when it ends as a duplicate or goes on.
  abbrev pub Leaves : World → Source → Extracted → Type 0
  Leaves w r (raises exc) = Unit
  Leaves w r (duplicate t) = IsLeased settings (record w { tables = t; jobs = others r.id w.jobs })
  Leaves w r (extracted t) =
      is_processing r.status ≡ true → IsLeased settings (record w { tables = t })

  to_embed-IsLeased :
      (w : World) (digest : ℕ) (r : Source)
      → source_at r.id w.tables.sources ≡ some r
      → is_processing r.status ≡ true
      → IsLeased settings w
      → IsLeased settings (record w {
        tables = with_sources w.tables (update_at r.id (to_embed w.now digest) w.tables.sources);
      })
  to_embed-IsLeased w digest r here busy inv =
      swept-IsLeased settings w _ inv (λ x. ground arith)
        (λ k. elim (Bool-cases (k == r.id)) [
          | inl hit ↦
              let same : At (λ x. is_processing x.status ≡ true) (source_at k w.tables.sources) =
                subst (λ n. At (λ x. is_processing x.status ≡ true) (source_at n w.tables.sources))
                  (sym ((==_iff k r.id).0 hit))
                  (At-known (λ x. is_processing x.status ≡ true) (source_at r.id w.tables.sources)
                    here busy) in
              At-map (λ x h. ground (arith, h.0, h.1)) (source_at k w.tables.sources)
                (both _ (λ x. is_processing x.status ≡ true) (source_at k w.tables.sources)
                  (inv.shaped k) same)
          | inr miss ↦
              At-map (λ x h. rw (ap (λ n. n == r.id) h.0 ∙ miss) (h.1, λ until live works. works))
                (source_at k w.tables.sources)
                (both (λ x. x.id ≡ k) _ (source_at k w.tables.sources)
                  (source_at-id k w.tables.sources) (inv.shaped k))
        ])

  settle_twin-Leaves :
      (w : World) (is_cited : ℕ → Bool) (digest : ℕ) (r : Source) (twin : Option Source)
      → source_at r.id w.tables.sources ≡ some r
      → IsLeased settings w
      → Leaves w r (settle_twin w.now is_cited digest r w.tables twin)
  settle_twin-Leaves w is_cited digest r none here inv =
      λ busy. to_embed-IsLeased w digest r here busy inv
  settle_twin-Leaves w is_cited digest r (some twin) here inv =
      ended-IsLeased settings w r.id (with_twin w.now digest twin) _ w.tables.staged
        (Shaped settings w.tables.chunks r.id) inv (λ x. refl)
        (λ k other. has_chunks-supersede w.now k r.id is_cited w.tables.chunks other)
        (inv.shaped r.id) (λ x h. ground arith)

  pub extract-Leaves :
      (w : World) (is_cited : ℕ → Bool) (e : Extraction) (r : Source)
      → source_at r.id w.tables.sources ≡ some r
      → IsLeased settings w
      → Leaves w r (extract settings w.now is_cited e r w.tables)
  unfolding extract
  extract-Leaves w is_cited e r here inv = branch (Leaves w r) (is_null r.blob_key) _ _ tt (
      branch (Leaves w r) (not e.has_adapter) _ _ tt (
        branch (Leaves w r) (ltb settings.ingest_max_extracted_chars e.characters) _ _ tt (
          settle_twin-Leaves w is_cited e.text_sha256 r
            (same_text_source w.tables.sources w.tables.chunks (with_text e.text_sha256 r)) here
            inv)))

  pub publishes-IsLeased :
      (w : World) (id : ℕ) (is_cited : ℕ → Bool) (new_id : ℕ → ℕ)
      → 0 < lease_seconds settings
      → any (λ c. c.source_id == id) w.tables.staged ≡ true
      → IsLeased settings w
      → IsLeased settings (record w {
        tables = publish settings w.now is_cited new_id id w.tables;
        jobs = record { source_id = id; until = w.now + lease_seconds settings } ∷ others id w.jobs;
      })
  unfolding publish
  publishes-IsLeased w id is_cited new_id some_time rows inv =
      let all_ : At (λ r. Unit) (source_at id w.tables.sources) =
        At-map (λ r h. tt) (source_at id w.tables.sources) (inv.shaped id) in
      let rest =
        All-map (λ j h. h.1) (others id w.jobs)
          (All-keep (Owned w.now w.tables.sources) _ w.jobs inv.owned) in
      written-IsLeased settings w id (published settings w.now) _ _ _ (λ r. Unit) inv (λ r. refl)
        (λ k other. ground (
          arith,
          has_chunks-append k (supersede_chunks w.now is_cited id w.tables.chunks)
              (live_chunks new_id id w.tables.staged),
          has_chunks-supersede w.now k id is_cited w.tables.chunks other,
          has_chunks-live_other new_id k id w.tables.staged other,
        ))
        all_
        (λ r h. ground (
          arith,
          has_chunks-append id (supersede_chunks w.now is_cited id w.tables.chunks)
              (live_chunks new_id id w.tables.staged),
          has_chunks-live new_id id w.tables.staged rows,
        ))
        (
          (
            omega arith,
            update_at-here (published settings w.now) (λ r. refl) (λ r. Unit)
                (Works (w.now + lease_seconds settings)) id (λ r h. (refl, refl)) w.tables.sources
                all_,
          ),
          elsewhere w.now id (published settings w.now) (λ r. refl) w.tables.sources
              (others id w.jobs) (others_far id w.jobs) rest,
        )
        (new_job-single id (w.now + lease_seconds settings) (others id w.jobs)
          (others_far id w.jobs) (λ k. omega (arith, tally-others k id w.jobs, inv.single k)))

  pub tags-IsLeased :
      (w : World) (id : ℕ) (succeeded : Bool) (r : Source)
      → source_at id w.tables.sources ≡ some r
      → is_done r.status ≡ true
      → IsLeased settings w
      → IsLeased settings (record w {
        tables = with_sources w.tables (tag_stage w.now succeeded id w.tables.sources);
        jobs = others id w.jobs;
      })
  unfolding tag_stage
  tags-IsLeased w id succeeded r here ready_ inv =
      ended-IsLeased settings w id _ w.tables.chunks w.tables.staged
        (λ x. Shaped settings w.tables.chunks id x × (is_done x.status ≡ true)) inv (λ x. refl)
        (λ k other. refl)
        (both (Shaped settings w.tables.chunks id) (λ x. is_done x.status ≡ true)
          (source_at id w.tables.sources) (inv.shaped id)
          (At-known (λ x. is_done x.status ≡ true) (source_at id w.tables.sources) here ready_))
        (λ x h. ground (arith, h.0, h.1))

  -- What the record of a failure leaves, when there is a row.
  abbrev pub Written : World → ℕ → Option (List Source) → Type 0
  Written w id none = Unit
  Written w id (some rows) =
      IsLeased settings (record w { tables = with_sources w.tables rows; jobs = others id w.jobs })

  pub failure_row-Written :
      (w : World) (id message : ℕ) (exc : Failure) (o : Option Source)
      → IsLeased settings w
      → Written w id (failure_row settings w.now exc message id w.tables.sources o)
  failure_row-Written w id message exc none inv = tt
  failure_row-Written w id message exc (some r) inv =
      ended-IsLeased settings w id (with_failure settings w.now exc message) w.tables.chunks
        w.tables.staged (Shaped settings w.tables.chunks id) inv (λ x. refl) (λ k other. refl)
        (inv.shaped id) (λ x h. ground (arith, h))

  pub dies-IsLeased :
      (w : World) (id : ℕ)
      → IsLeased settings w
      → IsLeased settings (record w { jobs = others id w.jobs })
  dies-IsLeased w id inv = record {
    owned =
        All-map (λ j h. h.1) (others id w.jobs)
          (All-keep (Owned w.now w.tables.sources) _ w.jobs inv.owned);
    single = λ k. omega (arith, tally-others k id w.jobs, inv.single k);
    shaped = inv.shaped;
    distinct = inv.distinct;
  }
