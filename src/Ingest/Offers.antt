-- ===== src/Ingest/Offers.antt =====
-- The sweep reaches every source that no one works on, and what it enqueues is there to be claimed.
use guru_alt.Common.{
  ℕ, zero, suc, ◌+◌, ◌≤◌, ◌<◌, ◌≡◌, ◌⊎◌, inl, inr, refl, sym, ap, subst, ◌∙◌, Bool, true, false,
  ◌&&◌, ◌||◌, Option, none, some, List, [], ◌∷◌, ◌++◌, arith, ltb, ◌==◌, elem, elem-append,
  Distinct, length, length-append, Bool-cases,
}
use guru_alt.Common.Sort.{sort, insert}
use guru_alt.Plan.Step.Horizon.{take, elem-take}
use guru_alt.Ingest.{
  Source, failed, Tables, Settings, is_pending, is_processing, is_done, is_tag, is_null, has_lapsed,
  source_at, update_where,
}
use guru_alt.Ingest.Rows.{At, Has, kept-Has, spared-kept, map-Has, map-At, ids-map-Distinct}
use guru_alt.Ingest.Claim.{is_claimable, claim_row, claim_source}
use guru_alt.Ingest.Duplicates.{ids, releases, released, stranded_duplicates, release_duplicates}
use guru_alt.Ingest.Sweep.{
  is_exhausted, abandoned, abandon, is_stranded, stranded, reconcile_stranded,
}

elem-ids-insert :
    (before : Source → Source → Bool) (a : ℕ) (x : Source) (sources : List Source)
    → elem a (ids (insert before x sources)) ≡ (x.id == a || elem a (ids sources))
elem-ids-insert before a x [] = refl
elem-ids-insert before a x (y ∷ sources) = ground (arith, elem-ids-insert before a x sources)

elem-ids-sort :
    (before : Source → Source → Bool) (a : ℕ) (sources : List Source)
    → elem a (ids (sort before sources)) ≡ elem a (ids sources)
unfolding sort
elem-ids-sort before a [] = refl
elem-ids-sort before a (x ∷ sources) =
    ground (arith, elem-ids-insert before a x (sort before sources), elem-ids-sort before a sources)

take_or_full :
    (a n : ℕ) (xs : List ℕ)
    → elem a xs ≡ true
    → (elem a (take n xs) ≡ true) ⊎ (n ≤ length (take n xs))
unfolding take
take_or_full a zero xs h = inr (omega arith)
take_or_full a (suc n) [] h = absurd (ground arith)
take_or_full a (suc n) (x ∷ xs) h = elim (Bool-cases (x == a)) [
  | inl here ↦ inl (ground (arith, here))
  | inr later ↦ elim (take_or_full a n xs (ground (arith, later))) [
    | inl there ↦ inl (ground (arith, there))
    | inr full ↦ inr (omega (arith, full))
  ]
]

-- What the sweep does with a source that needs work, `kept` being its row after the sweep.
abbrev pub Answered : Settings → Source → ℕ → List ℕ → Option Source → Type 0
Answered settings r id enqueued kept =
    (ltb r.attempts settings.ingest_max_attempts ≡ true)
      × ((elem id enqueued ≡ true) ⊎ (settings.ingest_reconcile_batch ≤ length enqueued))
    ⊎ (ltb r.attempts settings.ingest_max_attempts ≡ false)
      × ((is_done r.status ≡ true)
          ⊎ At (λ x. (x.status ≡ failed) × (x.lease_expires_at ≡ none)) kept)

-- No job is on the source and it is not finished: it waits, its lease has lapsed, or its tags are
-- missing.
abbrev pub needs_work : Settings → ℕ → Source → Bool
needs_work settings now r =
    ltb (r.updated_at + settings.ingest_reconcile_grace_seconds) now
    && (is_pending r.status && is_null r.lease_expires_at
        || is_processing r.status && has_lapsed now r.lease_expires_at
        || is_done r.status
          && is_tag r.stage
          && (is_null r.lease_expires_at || has_lapsed now r.lease_expires_at))

offered :
    (settings : Settings) (now message id : ℕ) (sources : List Source) (r : Source)
    → source_at id sources ≡ some r
    → needs_work settings now r ≡ true
    → ltb r.attempts settings.ingest_max_attempts ≡ true
    → (elem id (stranded settings now (abandon settings now message sources)) ≡ true)
      ⊎ (settings.ingest_reconcile_batch
          ≤ length (stranded settings now (abandon settings now message sources)))
offered settings now message id sources r here work left =
    take_or_full id settings.ingest_reconcile_batch _ (
      elem-ids-sort _ id _
      ∙ spared-kept (is_exhausted settings now) (is_stranded settings now) (abandoned now message)
          id sources (subst (Has _) (sym here) (ground (arith, left), ground (arith, left, work))))

clash :
    (P Q : Source → Type 0)
    → ((r : Source) → P r → Q r → ⊥)
    → (o : Option Source) → Has P o
    → At Q o
    → ⊥
clash P Q apart none h k = h
clash P Q apart (some r) h k = apart r h k

-- What the sweep enqueues can be claimed.
abbrev pub Claimed : List Source × Option Source → Type 0
Claimed (sources, none) = ⊥
Claimed (sources, some r) = Unit

claim_row-Claimed :
    (settings : Settings) (now id : ℕ) (sources : List Source) (o : Option Source)
    → Has (λ r. is_claimable settings now r ≡ true) o
    → Claimed (claim_row settings now id sources o)
claim_row-Claimed settings now id sources none h = h
claim_row-Claimed settings now id sources (some r) h = rw h tt

module _ (settings : Settings) (now message : ℕ) (t : Tables) where
  abbrev parked : List Source
  parked = abandon settings now message t.sources

  abbrev recovered : List ℕ
  recovered = releases parked t.chunks (stranded_duplicates parked t.chunks none)

  parked-Distinct : Distinct (ids t.sources) → Distinct (ids parked)
  parked-Distinct distinct = ids-map-Distinct _ (λ r. ground arith) t.sources distinct

  park :
      (id : ℕ) (r : Source)
      → Distinct (ids t.sources)
      → source_at id t.sources ≡ some r
      → is_exhausted settings now r ≡ true
      → At
          (λ x. (x.status ≡ failed) × (x.lease_expires_at ≡ none))
          (source_at id (update_where (λ x. elem x.id recovered) (released now) parked))
  park id r distinct here exhausted =
      let at_end : At (λ x. (x.status ≡ failed) × (x.lease_expires_at ≡ none))
          (source_at id parked) =
        map-At _ (λ x. ground arith) (λ x. is_exhausted settings now x ≡ true)
          (λ x. (x.status ≡ failed) × (x.lease_expires_at ≡ none)) id (λ x e p. rw p (refl, refl))
          t.sources (subst (At _) (sym here) exhausted) in
      elim (Bool-cases (elem id recovered)) [
        | inl hit ↦ absurd (
            clash _ _ (λ x p q. ground (arith, p, q.0)) (source_at id parked)
              (kept-Has _ id parked (parked-Distinct distinct) hit) at_end)
        | inr miss ↦
            map-At _ (λ x. ground arith) _ _ id
              (λ x e p. rw (ap (λ n. elem n recovered) e ∙ miss) p) parked at_end
      ]

  -- Once no job is on it and the grace is over, the sweep reaches every unfinished source: one
  -- with attempts left is enqueued, unless as many as a sweep takes are, and one without is
  -- shown as failed, unless it is searchable and only its tags are missing.
  pub reconcile_stranded-Answered :
      (id : ℕ) (r : Source)
      → Distinct (ids t.sources)
      → source_at id t.sources ≡ some r
      → needs_work settings now r ≡ true
      → Answered settings r id
          (reconcile_stranded settings now message t).1
          (source_at id (reconcile_stranded settings now message t).0)
  unfolding reconcile_stranded release_duplicates
  reconcile_stranded-Answered id r distinct here work =
      elim (Bool-cases (ltb r.attempts settings.ingest_max_attempts)) [
        | inl left ↦ inl (
          left,
          elim (offered settings now message id t.sources r here work left) [
            | inl there ↦
                inl (ground (arith, there, elem-append id (stranded settings now parked) recovered))
            | inr full ↦
                inr (omega (arith, full, length-append (stranded settings now parked) recovered))
          ],
        )
        | inr none_left ↦ inr (
          none_left,
          elim (Bool-cases (is_done r.status)) [
            | inl searchable ↦ inl searchable
            | inr unfinished ↦
                inr (park id r distinct here (ground (arith, work, none_left, unfinished)))
          ],
        )
      ]

  can_claim :
      (id : ℕ)
      → 0 < settings.ingest_max_attempts
      → Distinct (ids t.sources)
      → elem id (stranded settings now parked ++ recovered) ≡ true
      → Has
          (λ r. is_claimable settings now r ≡ true)
          (source_at id (update_where (λ x. elem x.id recovered) (released now) parked))
  can_claim id some_ distinct h = elim (Bool-cases (elem id recovered)) [
    | inl hit ↦
        map-Has _ (λ x. ground arith) _ _ id
          (λ x e p. rw (ap (λ n. elem n recovered) e ∙ hit) (ground (arith, some_))) parked
          (kept-Has _ id parked (parked-Distinct distinct) hit)
    | inr miss ↦
        let among : elem id (stranded settings now parked) ≡ true =
          ground (arith, h, elem-append id (stranded settings now parked) recovered, miss) in
        map-Has _ (λ x. ground arith) (λ x. is_stranded settings now x ≡ true) _ id
          (λ x e p. rw (ap (λ n. elem n recovered) e ∙ miss) (ground (arith, p))) parked
          (kept-Has (is_stranded settings now) id parked (parked-Distinct distinct)
            (sym (elem-ids-sort _ id _) ∙ elem-take id settings.ingest_reconcile_batch _ among))
  ]

  -- Every source that a sweep enqueues is claimed by the first job that gets it at once.
  pub reconcile_stranded-Claimed :
      (id : ℕ)
      → 0 < settings.ingest_max_attempts
      → Distinct (ids t.sources)
      → elem id (reconcile_stranded settings now message t).1 ≡ true
      → Claimed (claim_source settings now id (reconcile_stranded settings now message t).0)
  unfolding reconcile_stranded release_duplicates claim_source
  reconcile_stranded-Claimed id some_ distinct h =
      claim_row-Claimed settings now id _ _ (can_claim id some_ distinct h)
