-- ===== src/Ingest/Leases.antt =====
-- Every step of every job, of the sweep and of the callers keeps the leases apart.
use guru_alt.Common.{
  ℕ, ◌≤◌, ◌<◌, ◌≡◌, inl, inr, refl, sym, subst, false, not, List, [], ◌∷◌, map, arith, ◌==◌, ==_iff,
  if◌then◌else◌, tally, tally-keep, All, All-map, All-keep, Bool-cases,
}
use guru_alt.Ingest.{Source, Chunk, StagedChunk, Settings, source_at, update_at}
use guru_alt.Ingest.Rows.{
  both, At-map, At, Keeps, map-At, update_at-elsewhere, update_at-here, ids-map-Distinct,
}
use guru_alt.Ingest.Duplicates.{has_chunks}
use guru_alt.Ingest.Jobs.{Job, World, is_on, others, with_sources, Shaped, Works, Owned, IsLeased}

pub tally_none :
    (id : ℕ) (jobs : List Job)
    → All (λ (j : Job). (j.source_id == id) ≡ false) jobs
    → tally (is_on id) jobs ≡ 0
tally_none id [] h = refl
tally_none id (j ∷ jobs) h = ground (arith, tally_none id jobs h.1)

-- No job is on a source whose row no job can have.
pub idle :
    (now id : ℕ) (sources : List Source) (jobs : List Job)
    → ((until : ℕ) → now < until → At (Works until) (source_at id sources) → ⊥)
    → All (Owned now sources) jobs
    → All (λ (j : Job). (j.source_id == id) ≡ false) jobs
idle now id sources jobs cannot owned =
    All-map
      (λ j h. elim (Bool-cases (j.source_id == id)) [
        | inl hit ↦ absurd (
            cannot j.until h.0 (
              subst (λ k. At (Works j.until) (source_at k sources)) ((==_iff j.source_id id).0 hit)
                h.1))
        | inr miss ↦ miss
      ])
      jobs owned

-- A job on another source keeps its row.
pub elsewhere :
    (now id : ℕ) (f : Source → Source)
    → Keeps f
    → (sources : List Source) (jobs : List Job)
    → All (λ (j : Job). (j.source_id == id) ≡ false) jobs
    → All (Owned now sources) jobs
    → All (Owned now (update_at id f sources)) jobs
elsewhere now id f keeps sources [] far owned = tt
elsewhere now id f keeps sources (j ∷ jobs) far owned = (
  (owned.0.0, update_at-elsewhere f keeps (Works j.until) id j.source_id far.0 sources owned.0.1),
  elsewhere now id f keeps sources jobs far.1 owned.1,
)

pub others_far :
    (id : ℕ) (jobs : List Job) → All (λ (j : Job). (j.source_id == id) ≡ false) (others id jobs)
others_far id [] = tt
others_far id (j ∷ jobs) = elim (Bool-cases (j.source_id == id)) [
  | inl hit ↦ rw hit (others_far id jobs)
  | inr miss ↦ rw miss (miss, others_far id jobs)
]

pub tally-others :
    (k id : ℕ) (jobs : List Job) → tally (is_on k) (others id jobs) ≤ tally (is_on k) jobs
tally-others k id jobs = tally-keep (is_on k) (λ j. not (is_on id j)) jobs

module _ (settings : Settings) where
  -- One row is written, its chunks may change, and the jobs are those of other sources, with one on
  -- this source or none.
  pub written-IsLeased :
      (w : World) (id : ℕ) (f : Source → Source) (chunks : List Chunk) (staged : List StagedChunk)
      (jobs : List Job) (P : Source → Type 0)
      → IsLeased settings w
      → Keeps f
      → ((k : ℕ) → (k == id) ≡ false → has_chunks k chunks ≡ has_chunks k w.tables.chunks)
      → At P (source_at id w.tables.sources)
      → ((r : Source) → P r → Shaped settings chunks id (f r))
      → All (Owned w.now (update_at id f w.tables.sources)) jobs
      → ((k : ℕ) → tally (is_on k) jobs ≤ 1)
      → IsLeased settings (record w {
        tables = record {
          sources = update_at id f w.tables.sources;
          chunks = chunks;
          staged = staged;
        };
        jobs = jobs;
      })
  written-IsLeased w id f chunks staged jobs P inv keeps same here fits owned single = record {
    owned = owned;
    single = single;
    shaped = λ k. elim (Bool-cases (k == id)) [
      | inl hit ↦
          subst (λ n. At (Shaped settings chunks n) (source_at n (update_at id f w.tables.sources)))
            (sym ((==_iff k id).0 hit))
            (update_at-here f keeps P (Shaped settings chunks id) id fits w.tables.sources here)
      | inr miss ↦
          update_at-elsewhere f keeps (Shaped settings chunks k) id k miss w.tables.sources (
            At-map (λ r h. ground (arith, same k miss, h)) (source_at k w.tables.sources)
              (inv.shaped k))
    ];
    distinct =
        ids-map-Distinct (λ r. if r.id == id then f r else r) (λ r. ground (arith, keeps r))
          w.tables.sources inv.distinct;
  }

  -- A row is written and its job ends.
  pub ended-IsLeased :
      (w : World) (id : ℕ) (f : Source → Source) (chunks : List Chunk) (staged : List StagedChunk)
      (P : Source → Type 0)
      → IsLeased settings w
      → Keeps f
      → ((k : ℕ) → (k == id) ≡ false → has_chunks k chunks ≡ has_chunks k w.tables.chunks)
      → At P (source_at id w.tables.sources)
      → ((r : Source) → P r → Shaped settings chunks id (f r))
      → IsLeased settings (record w {
        tables = record {
          sources = update_at id f w.tables.sources;
          chunks = chunks;
          staged = staged;
        };
        jobs = others id w.jobs;
      })
  ended-IsLeased w id f chunks staged P inv keeps same here fits =
      written-IsLeased w id f chunks staged (others id w.jobs) P inv keeps same here fits
        (elsewhere w.now id f keeps w.tables.sources (others id w.jobs) (others_far id w.jobs) (
          All-map (λ j h. h.1) (others id w.jobs)
            (All-keep (Owned w.now w.tables.sources) _ w.jobs inv.owned)))
        (λ k. omega (arith, tally-others k id w.jobs, inv.single k))

  -- All rows are written, each in a way that its job and its shape allow.
  pub swept-IsLeased :
      (w : World) (g : Source → Source)
      → IsLeased settings w
      → Keeps g
      → ((id : ℕ)
          → At
              (λ r.
                Shaped settings w.tables.chunks id (g r)
                × ((until : ℕ) → w.now < until → Works until r → Works until (g r)))
              (source_at id w.tables.sources))
      → IsLeased settings (record w { tables = with_sources w.tables (map g w.tables.sources) })
  swept-IsLeased w g inv keeps fits = record {
    owned =
        All-map
          (λ j h. (
            h.0,
            map-At g keeps _ (Works j.until) j.source_id (λ r e p. p.0.1 j.until h.0 p.1)
                w.tables.sources
                (both _ (Works j.until) (source_at j.source_id w.tables.sources) (fits j.source_id)
                  h.1),
          ))
          w.jobs inv.owned;
    single = inv.single;
    shaped = λ id.
        map-At g keeps _ (Shaped settings w.tables.chunks id) id (λ r e p. p.0) w.tables.sources
          (fits id);
    distinct = ids-map-Distinct g keeps w.tables.sources inv.distinct;
  }
