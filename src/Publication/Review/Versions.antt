-- ===== src/Publication/Review/Versions.antt =====
-- The versions of one subject in the shared library: `_supersede_previous`.
use guru_alt.Common.{
  ℕ, ◌≡◌, refl, ap, subst, Bool, true, false, not, ◌&&◌, inl, inr, Option, none, some, List, [],
  ◌∷◌, ◌++◌, map, arith, ◌==◌, ==_self, keep, any, all, Bool-cases,
}
use guru_alt.Publication.{Learner, SubjectRow, PublicationRow, Database}
use guru_alt.Publication.Review.{
  done, is_none, is_pending, names, supersede, is_previous, supersede_previous, copy_row, approve,
}
use guru_alt.Publication.Review.Steps.{load}

-- A publication of the source has made the subject, and it has no successor.
abbrev pub is_made_from : List PublicationRow → ℕ → SubjectRow → Bool
is_made_from publications source s =
    any (λ (q : PublicationRow). names s.publication_id q.id && names q.source_subject_id source)
      publications

abbrev pub is_version : List PublicationRow → ℕ → SubjectRow → Bool
is_version publications source s = is_made_from publications source s && is_none s.superseded_by_id

-- Nothing in the table is the new copy already.
abbrev pub is_fresh : PublicationRow → ℕ → SubjectRow → Bool
is_fresh p copy_id s = not (s.id == copy_id) && not (names s.publication_id p.id)

made_before :
    (publications : List PublicationRow) (source : ℕ) (p : PublicationRow)
    (publication_id : Option ℕ)
    → names publication_id p.id ≡ false
    → any
        (λ (q : PublicationRow). names publication_id q.id && names q.source_subject_id source)
        publications
      ≡ true
    → any
        (λ (q : PublicationRow).
          names publication_id q.id && names q.source_subject_id source && not (q.id == p.id))
        publications
      ≡ true
made_before [] source p publication_id n h = h
made_before (q ∷ rows) source p none n h = ground (arith, made_before rows source p none)
made_before (q ∷ rows) source p (some k) n h = elim (Bool-cases (k == q.id)) [
  | inl hit ↦
      let other : (q.id == p.id) ≡ false = ground arith in
      ground (arith, made_before rows source p (some k))
  | inr miss ↦ ground (arith, made_before rows source p (some k))
]

made_by_another :
    (publications : List PublicationRow) (source : ℕ) (p : PublicationRow)
    (publication_id : Option ℕ)
    → any
        (λ (q : PublicationRow).
          names publication_id q.id && names q.source_subject_id source && not (q.id == p.id))
        publications
      ≡ true
    → any
        (λ (q : PublicationRow). names publication_id q.id && names q.source_subject_id source)
        publications
      ≡ true
made_by_another [] source p publication_id h = h
made_by_another (q ∷ rows) source p publication_id h =
    ground (arith, made_by_another rows source p publication_id)

module _ (publications : List PublicationRow) (source : ℕ) (p : PublicationRow) (copy_id : ℕ) where
  is_version-supersede :
      (s : SubjectRow)
      → is_fresh p copy_id s ≡ true
      → is_version publications source (supersede publications source p copy_id s) ≡ false
  is_version-supersede s fresh = elim (Bool-cases (is_previous publications source p copy_id s)) [
    | inl older ↦ rw older (ground arith)
    | inr kept ↦ elim (Bool-cases (is_made_from publications source s)) [
      | inl made ↦
          rw kept
            (ground (arith, made_before publications source p s.publication_id (ground arith) made))
      | inr foreign ↦ rw kept (ground arith)
    ]
  ]

  supersede_self :
      (copy : SubjectRow) → copy.id ≡ copy_id → supersede publications source p copy_id copy ≡ copy
  supersede_self copy id = elim (Bool-cases (is_previous publications source p copy_id copy)) [
    | inl older ↦ absurd (ground arith)
    | inr kept ↦ rw kept refl
  ]

  supersede_foreign :
      (s : SubjectRow)
      → is_made_from publications source s ≡ false
      → supersede publications source p copy_id s ≡ s
  supersede_foreign s foreign = elim (Bool-cases (is_previous publications source p copy_id s)) [
    | inl older ↦
        absurd
          (ground (arith, made_by_another publications source p s.publication_id (ground arith)))
    | inr kept ↦ rw kept refl
  ]

  is_made_from-supersede :
      (s : SubjectRow)
      → is_made_from publications source (supersede publications source p copy_id s)
        ≡ is_made_from publications source s
  is_made_from-supersede s = elim (Bool-cases (is_previous publications source p copy_id s)) [
    | inl older ↦ rw older refl
    | inr kept ↦ rw kept refl
  ]

  keep-supersede :
      (rows : List SubjectRow) (copy : SubjectRow)
      → all (is_fresh p copy_id) rows ≡ true
      → copy.id ≡ copy_id
      → is_version publications source copy ≡ true
      → keep
          (is_version publications source)
          (map (supersede publications source p copy_id) (rows ++ copy ∷ []))
        ≡ copy ∷ []
  keep-supersede [] copy h id listed = rw (supersede_self copy id, listed) refl
  keep-supersede (s ∷ rows) copy h id listed =
      rw (is_version-supersede s (ground arith)) (keep-supersede rows copy (ground arith) id listed)

  keep_foreign :
      (rows : List SubjectRow) (copy : SubjectRow)
      → is_made_from publications source copy ≡ true
      → keep
          (λ s. not (is_made_from publications source s))
          (map (supersede publications source p copy_id) (rows ++ copy ∷ []))
        ≡ keep (λ s. not (is_made_from publications source s)) rows
  keep_foreign [] copy made = rw (is_made_from-supersede copy, made) refl
  keep_foreign (s ∷ rows) copy made = elim (Bool-cases (is_made_from publications source s)) [
    | inl mine ↦ rw (is_made_from-supersede s, mine) (keep_foreign rows copy made)
    | inr foreign ↦
        rw (supersede_foreign s foreign, foreign) (ap (λ l. s ∷ l) (keep_foreign rows copy made))
  ]

any-load :
    (rows : List PublicationRow) (id source : ℕ) (p : PublicationRow)
    → load rows id ≡ some p
    → p.source_subject_id ≡ some source
    → any (λ (q : PublicationRow). names (some id) q.id && names q.source_subject_id source) rows
      ≡ true
any-load [] id source p e h = absurd (ground arith)
any-load (q ∷ rows) id source p e h = elim (Bool-cases (q.id == id)) [
  | inl hit ↦
      let first : q ≡ p = ground arith in
      ground (arith, ap (λ (x : PublicationRow). x.source_subject_id) first, ==_self source)
  | inr miss ↦ ground (arith, any-load rows id source p)
]

-- After an approval exactly one version of the source subject is listed, the new copy, whatever
-- versions there were; and no subject that another source was published as is changed. The request
-- is a stored one, and neither the new copy's id nor the request's is on a subject yet.
pub approve_lists_one :
    (concept_of : ℕ → Option ℕ) (db result : Database) (p : PublicationRow) (copy : SubjectRow)
    (reviewer : Learner) (excluded : List ℕ) (text : Option (List ℕ)) (slug now source : ℕ)
    → load db.publications p.id ≡ some p
    → p.source_subject_id ≡ some source
    → all (is_fresh p db.next_id) db.subjects ≡ true
    → approve concept_of db p reviewer excluded text slug now ≡ done (result, copy)
    → (keep (is_version db.publications source) result.subjects ≡ copy ∷ [])
      × (keep (λ s. not (is_made_from db.publications source s)) result.subjects
          ≡ keep (λ s. not (is_made_from db.publications source s)) db.subjects)
unfolding approve supersede_previous
approve_lists_one concept_of db result p copy reviewer excluded text slug now source there from
      fresh e =
    elim (Bool-cases (is_pending p.status)) [
      | inl waits ↦
          let c : SubjectRow = copy_row p slug db.next_id in
          let same : c ≡ copy = ground arith in
          let made = any-load db.publications p.id source p there from in
          let subjects : map (supersede db.publications source p db.next_id) (db.subjects ++ c ∷ [])
              ≡ result.subjects =
            ground arith in
          subst
            (λ k.
              (keep (is_version db.publications source) result.subjects ≡ k ∷ [])
              × (keep (λ s. not (is_made_from db.publications source s)) result.subjects
                  ≡ keep (λ s. not (is_made_from db.publications source s)) db.subjects))
            same
            (subst
              (λ rows.
                (keep (is_version db.publications source) rows ≡ c ∷ [])
                × (keep (λ s. not (is_made_from db.publications source s)) rows
                    ≡ keep (λ s. not (is_made_from db.publications source s)) db.subjects))
              subjects
              (
                keep-supersede db.publications source p db.next_id db.subjects c fresh refl
                    (ground (arith, made)),
                keep_foreign db.publications source p db.next_id db.subjects c made,
              ))
      | inr over ↦ absurd (ground arith)
    ]
