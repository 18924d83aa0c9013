-- ===== src/Ingest/Released.antt =====
-- A duplicate waits for its original: it is released once the original stops answering, and not
-- before.
use guru_alt.Common.{
  branch, ℕ, ◌≡◌, ◌⊎◌, All, All-map, inl, inr, refl, sym, ap, subst, ◌∙◌, Bool, true, false, not,
  ◌&&◌, ◌||◌, Option, none, some, List, [], ◌∷◌, map, arith, leb, ltb, ◌==◌, ==_self, any, keep,
  if◌then◌else◌, elem, Bool-cases,
}
use guru_alt.Common.Any.{any-map, any-sort, any_mono}
use guru_alt.Common.Sort.{sort}
use guru_alt.Ingest.{Source, Chunk, Tables, Settings, is_null, source_at, update_where, update_at}
use guru_alt.Ingest.Rows.{At, At-map, At-known, update_at-here}
use guru_alt.Ingest.Duplicates.{
  is_twin, first, twin_of, same_text_source, answers_for, is_stranded_duplicate, ids, releases,
  released, release_duplicates,
}
use guru_alt.Ingest.Acts.{has_chunks-supersede}
use guru_alt.Ingest.Stages.{
  supersede_chunks, Extraction, Extracted, duplicate, extract, settle_twin, with_text, with_twin,
}

answers-released :
    (now : ℕ) (chunks : List Chunk) (found : List ℕ) (r : Source) (sources : List Source)
    → any (answers_for chunks r) (update_where (λ x. elem x.id found) (released now) sources)
      ≡ any (answers_for chunks r) sources
answers-released now chunks found r [] = refl
answers-released now chunks found r (x ∷ sources) = elim (Bool-cases (elem x.id found)) [
  | inl hit ↦
      rw hit (ap (λ b. answers_for chunks r x || b) (answers-released now chunks found r sources))
  | inr miss ↦
      rw miss (ap (λ b. answers_for chunks r x || b) (answers-released now chunks found r sources))
]

-- A row fits the query, or its id is in the answer.
kept_or_not :
    (p : Source → Bool) (found : List ℕ) (sources : List Source)
    → ((a : ℕ) → elem a (ids (keep p sources)) ≡ true → elem a found ≡ true)
    → All (λ x. (elem x.id found ≡ true) ⊎ (p x ≡ false)) sources
kept_or_not p found [] h = tt
kept_or_not p found (x ∷ sources) h = (
  elim (Bool-cases (p x)) [
    | inl fits ↦ inl (h x.id (ground (arith, fits, ==_self x.id)))
    | inr misfit ↦ inr misfit
  ],
  kept_or_not p found sources (λ a e. h a (ground (arith, e))),
)

keep-none :
    {A : Type 0} (p : A → Bool) (f : A → A) (xs : List A)
    → All (λ x. p (f x) ≡ false) xs
    → keep p (map f xs) ≡ []
keep-none p f [] h = refl
keep-none p f (x ∷ xs) h = rw h.0 (keep-none p f xs h.1)

update_where_none :
    (f : Source → Source) (sources : List Source)
    → update_where (λ x. elem x.id []) f sources ≡ sources
update_where_none f [] = refl
update_where_none f (x ∷ sources) = ap (λ rows. x ∷ rows) (update_where_none f sources)

-- A second release of the same sources finds nothing to do: the released ones are no longer done,
-- and what answers for the others is as before.
release_duplicates_once :
    (now later : ℕ) (sources : List Source) (chunks : List Chunk) (source_ids : List ℕ)
    → release_duplicates later
        (release_duplicates now sources chunks source_ids).0
        chunks
        source_ids
      ≡ ((release_duplicates now sources chunks source_ids).0, [])
unfolding release_duplicates
release_duplicates_once now later sources chunks source_ids =
    let found = releases sources chunks source_ids in
    let after = update_where (λ x. elem x.id found) (released now) sources in
    let none_left : releases after chunks source_ids ≡ [] = ap ids (
      keep-none _ (λ x. if elem x.id found then released now x else x) sources
        (All-map
          (λ x h. elim (Bool-cases (elem x.id found)) [
            | inl hit ↦ rw hit (ground arith)
            | inr miss ↦
                rw miss (ground (arith, answers-released now chunks found x sources, h, miss))
          ])
          sources
          (kept_or_not (λ x. elem x.id source_ids && is_stranded_duplicate sources chunks x) found
            sources (λ a e. e)))) in
    ap (λ l. (update_where (λ x. elem x.id l) (released later) after, l)) none_left
    ∙ ap (λ rows. (rows, [])) (update_where_none (released later) after)

any-keep :
    {A : Type 0} (p q : A → Bool) (xs : List A) → any q (keep p xs) ≡ any (λ x. p x && q x) xs
any-keep p q [] = refl
any-keep p q (x ∷ xs) = ground (arith, any-keep p q xs)

first-At :
    (sources : List Source) → At (λ t. any (λ x. x.id == t.id) sources ≡ true) (first sources)
first-At [] = tt
first-At (x ∷ sources) = ground (arith, ==_self x.id)

-- The twin that the search gives is one of the sources, and fits.
twin_of-At :
    (sources : List Source) (chunks : List Chunk) (r : Source) (digest : ℕ)
    → At
        (λ t. any (λ x. is_twin chunks r digest x && x.id == t.id) sources ≡ true)
        (twin_of sources chunks r (some digest))
twin_of-At sources chunks r digest =
    At-map
      (λ t h.
        sym (any-keep (is_twin chunks r digest) (λ x. x.id == t.id) sources)
        ∙ (sym (any-sort (λ x. x.id == t.id) (λ a b. leb a.created_at b.created_at) _) ∙ h))
      (first (sort (λ a b. leb a.created_at b.created_at) (keep (is_twin chunks r digest) sources)))
      (first-At _)

abbrev Answered : Source → Extracted → Type 0
Answered r (duplicate t) =
    At
      (λ x.
        (any (answers_for t.chunks x) t.sources ≡ true)
        × (is_stranded_duplicate t.sources t.chunks x ≡ false))
      (source_at r.id t.sources)
Answered r _ = Unit

settle_twin-Answered :
    (now digest : ℕ) (is_cited : ℕ → Bool) (r : Source) (t : Tables) (twin : Option Source)
    → source_at r.id t.sources ≡ some r
    → At
        (λ o.
          any (λ x. is_twin t.chunks (with_text digest r) digest x && x.id == o.id) t.sources
          ≡ true)
        twin
    → Answered r (settle_twin now is_cited digest r t twin)
settle_twin-Answered now digest is_cited r t none here h = tt
settle_twin-Answered now digest is_cited r t (some twin) here h =
    let f = with_twin now digest twin in
    let chunks = supersede_chunks now is_cited r.id t.chunks in
    let answered : any (answers_for chunks (f r)) (update_at r.id f t.sources) ≡ true =
      any-map (answers_for chunks (f r)) (λ x. if x.id == r.id then f x else x) t.sources
      ∙ any_mono _ _ t.sources
          (λ x e. ground (arith, e, has_chunks-supersede now x.id r.id is_cited t.chunks)) h in
    update_at-here f (λ x. refl) (λ x. x ≡ r)
      (λ x.
        (any (answers_for chunks x) (update_at r.id f t.sources) ≡ true)
        × (is_stranded_duplicate (update_at r.id f t.sources) chunks x ≡ false))
      r.id
      (λ x e.
        subst
          (λ y.
            (any (answers_for chunks (f y)) (update_at r.id f t.sources) ≡ true)
            × (is_stranded_duplicate (update_at r.id f t.sources) chunks (f y) ≡ false))
          (sym e) (answered, ground (arith, answered)))
      t.sources (At-known (λ x. x ≡ r) (source_at r.id t.sources) here refl)

-- In the tables that an extraction leaves which finishes a source as a duplicate, another source
-- answers for it, and the query of the sweep does not count it as stranded.
pub extract_answered :
    (settings : Settings) (now : ℕ) (is_cited : ℕ → Bool) (e : Extraction) (r : Source)
    (t t' : Tables)
    → source_at r.id t.sources ≡ some r
    → extract settings now is_cited e r t ≡ duplicate t'
    → At
        (λ x.
          (any (answers_for t'.chunks x) t'.sources ≡ true)
          × (is_stranded_duplicate t'.sources t'.chunks x ≡ false))
        (source_at r.id t'.sources)
unfolding extract same_text_source
extract_answered settings now is_cited e r t t' here found = subst (Answered r) found (
    branch (Answered r) (is_null r.blob_key) _ _ tt (
      branch (Answered r) (not e.has_adapter) _ _ tt (
        branch (Answered r) (ltb settings.ingest_max_extracted_chars e.characters) _ _ tt (
          settle_twin-Answered now e.text_sha256 is_cited r t _ here
            (twin_of-At t.sources t.chunks (with_text e.text_sha256 r) e.text_sha256)))))
