-- ===== src/Publication/Review/Outcome.antt =====
-- What an operation that was not refused has done to the publications.
use guru_alt.Common.{
  ap, map, ◌∙◌, ◌⊎◌, ◌==◌, ℕ, ◌≡◌, refl, sym, subst, Bool, true, false, not, ◌&&◌, inl, inr, Option,
  none, some, List, [], ◌∷◌, ◌++◌, ltb, ◌≢◌, arith, any, length, Bool-cases,
}
use guru_alt.Publication.{
  Learner, SubjectRow, PublicationStatus, pending, approved, rejected, cancelled, PublicationRow,
  Database,
}
use guru_alt.Publication.Snapshot.{snapshot_of}
use guru_alt.Publication.Snapshot.Sealed.{is_sealed, snapshot_of_sealed}
use guru_alt.Publication.Review.{
  done, is_pending, is_none, waits_for, save, request_publication, cancel, approve, reject,
  approved_row, strip, rejection_note_min,
}
use guru_alt.Publication.Review.Steps.{
  load, unset, forget_learner, forget_subject, Step, requests, cancels, approves, rejects,
  erases_account, deletes_subject, edits,
}

-- A request waits and nothing is said of a review, or it was approved by a reviewer whose name it
-- keeps, or so rejected, with a note and without a copy, or it was cancelled without a reviewer;
-- and its snapshot is closed.
abbrev is_none_text : Option (List ℕ) → Bool
is_none_text none = true
is_none_text (some cs) = false

abbrev has_outcome : PublicationRow → PublicationStatus → Bool
has_outcome p pending =
    is_none p.reviewed_at
    && (is_none p.reviewer_id && (is_none p.reviewer_handle && is_none p.published_subject_id))
has_outcome p approved = not (is_none p.reviewed_at) && not (is_none p.reviewer_handle)
has_outcome p rejected =
    not (is_none p.reviewed_at)
    && (not (is_none p.reviewer_handle)
        && (is_none p.published_subject_id && not (is_none_text p.review_note)))
has_outcome p cancelled =
    not (is_none p.reviewed_at)
    && (is_none p.reviewer_id && (is_none p.reviewer_handle && is_none p.published_subject_id))

unfoldable pub is_sound : PublicationRow → Bool
is_sound p = has_outcome p p.status && is_sealed p.snapshot

-- What is there is as it was, or it is cleared.
abbrev pub IsLess : Option ℕ → Option ℕ → Type 0
IsLess before after = (after ≡ before) ⊎ (after ≡ none)

-- The row says the same, less some of the ids that it names.
pub record IsCleared (p q : PublicationRow) : Type 0 where
  pub id : q.id ≡ p.id
  pub status : q.status ≡ p.status
  pub snapshot : q.snapshot ≡ p.snapshot
  pub source : IsLess p.source_subject_id q.source_subject_id
  pub author : IsLess p.author_id q.author_id
  pub reviewer : IsLess p.reviewer_id q.reviewer_id
  pub published : IsLess p.published_subject_id q.published_subject_id
  pub reviewer_handle : q.reviewer_handle ≡ p.reviewer_handle
  pub reviewed_at : q.reviewed_at ≡ p.reviewed_at
  pub review_note : q.review_note ≡ p.review_note
  pub excluded_item_ids : q.excluded_item_ids ≡ p.excluded_item_ids

-- The table is as before, or has a new request, or one request in it has been decided, or ids in it
-- have been cleared.
pub data Change : List PublicationRow → List PublicationRow → Type 0 where
  same : {rows : List PublicationRow} → Change rows rows
  appended :
      {rows : List PublicationRow} (p : PublicationRow) (subject_id : ℕ)
      → p.source_subject_id ≡ some subject_id
      → any (waits_for subject_id) rows ≡ false
      → is_pending p.status ≡ true
      → is_sound p ≡ true
      → Change rows (rows ++ p ∷ [])
  decided :
      {rows : List PublicationRow} (p q : PublicationRow)
      → load rows p.id ≡ some p
      → is_pending p.status ≡ true
      → is_pending q.status ≡ false
      → q.id ≡ p.id
      → q.snapshot ≡ p.snapshot
      → q.source_subject_id ≡ p.source_subject_id
      → q.author_id ≡ p.author_id
      → (is_sound p ≡ true → is_sound q ≡ true)
      → Change rows (save q rows)
  cleared :
      {rows : List PublicationRow} (f : PublicationRow → PublicationRow)
      → ((p : PublicationRow) → IsCleared p (f p))
      → ((p : PublicationRow) → is_sound p ≡ true → is_sound (f p) ≡ true)
      → Change rows (map f rows)

unset-IsLess : (id : ℕ) (o : Option ℕ) → IsLess o (unset id o)
unset-IsLess id none = inl refl
unset-IsLess id (some n) = elim (Bool-cases (n == id)) [
  | inl hit ↦ inr (rw hit refl)
  | inr miss ↦ inl (rw miss refl)
]

forget_learner-IsCleared :
    (learner_id : ℕ) (p : PublicationRow) → IsCleared p (forget_learner learner_id p)
unfolding forget_learner
forget_learner-IsCleared learner_id p = record {
  id = refl;
  status = refl;
  snapshot = refl;
  source = inl refl;
  author = unset-IsLess learner_id p.author_id;
  reviewer = unset-IsLess learner_id p.reviewer_id;
  published = inl refl;
  reviewer_handle = refl;
  reviewed_at = refl;
  review_note = refl;
  excluded_item_ids = refl;
}

forget_subject-IsCleared :
    (subject_id : ℕ) (p : PublicationRow) → IsCleared p (forget_subject subject_id p)
unfolding forget_subject
forget_subject-IsCleared subject_id p = record {
  id = refl;
  status = refl;
  snapshot = refl;
  source = unset-IsLess subject_id p.source_subject_id;
  author = inl refl;
  reviewer = inl refl;
  published = unset-IsLess subject_id p.published_subject_id;
  reviewer_handle = refl;
  reviewed_at = refl;
  review_note = refl;
  excluded_item_ids = refl;
}

is_none-IsLess : (a b : Option ℕ) → IsLess a b → is_none a ≡ true → is_none b ≡ true
is_none-IsLess a b (inl e) h = ap is_none e ∙ h
is_none-IsLess a b (inr e) h = ap is_none e

cleared-is_sound : (p q : PublicationRow) → IsCleared p q → is_sound p ≡ true → is_sound q ≡ true
unfolding is_sound
cleared-is_sound p q c h = ground (
  arith,
  h,
  c.status,
  ap is_sealed c.snapshot,
  ap is_none c.reviewed_at,
  ap is_none c.reviewer_handle,
  ap is_none_text c.review_note,
  is_none-IsLess p.reviewer_id q.reviewer_id c.reviewer,
  is_none-IsLess p.published_subject_id q.published_subject_id c.published,
)

-- Every decision starts from a waiting request.
waiting_outcome :
    (p : PublicationRow)
    → is_pending p.status ≡ true
    → is_sound p ≡ true
    → (is_none p.reviewer_id ≡ true)
      × (is_none p.reviewer_handle ≡ true)
      × (is_none p.published_subject_id ≡ true)
      × (is_sealed p.snapshot ≡ true)
unfolding is_sound
waiting_outcome p waits h = ground arith

cancel-Change :
    (db result : Database) (p q : PublicationRow) (now : ℕ)
    → load db.publications p.id ≡ some p
    → cancel db p now ≡ done (result, q)
    → Change db.publications result.publications
unfolding cancel is_sound
cancel-Change db result p q now there e = elim (Bool-cases (is_pending p.status)) [
  | inl waits ↦
      let q' : PublicationRow = record p { status = cancelled; reviewed_at = some now } in
      let saved : save q' db.publications ≡ result.publications = ground arith in
      subst (Change db.publications) saved (
        decided p q' there waits refl refl refl refl refl
          (λ h. ground (arith, waiting_outcome p waits h)))
  | inr over ↦ absurd (ground arith)
]

approve-Change :
    (concept_of : ℕ → Option ℕ) (db result : Database) (p : PublicationRow) (copy : SubjectRow)
    (reviewer : Learner) (excluded : List ℕ) (review_note : Option (List ℕ)) (slug now : ℕ)
    → load db.publications p.id ≡ some p
    → approve concept_of db p reviewer excluded review_note slug now ≡ done (result, copy)
    → Change db.publications result.publications
unfolding approve is_sound
approve-Change concept_of db result p copy reviewer excluded review_note slug now there e =
    elim (Bool-cases (is_pending p.status)) [
      | inl waits ↦
          let q : PublicationRow = approved_row p reviewer excluded review_note now db.next_id in
          let saved : save q db.publications ≡ result.publications = ground arith in
          subst (Change db.publications) saved (
            decided p q there waits refl refl refl refl refl
              (λ h. ground (arith, waiting_outcome p waits h)))
      | inr over ↦ absurd (ground arith)
    ]

reject-Change :
    (is_space : ℕ → Bool) (db result : Database) (p q : PublicationRow) (reviewer : Learner)
    (text : List ℕ) (now : ℕ)
    → load db.publications p.id ≡ some p
    → reject is_space db p reviewer text now ≡ done (result, q)
    → Change db.publications result.publications
unfolding reject is_sound
reject-Change is_space db result p q reviewer text now there e =
    elim (Bool-cases (is_pending p.status)) [
      | inl waits ↦ elim (Bool-cases (ltb (length (strip is_space text)) rejection_note_min)) [
        | inl short ↦ absurd (ground arith)
        | inr enough ↦
            let q' : PublicationRow = record p {
              status = rejected;
              reviewer_id = some reviewer.id;
              reviewer_handle = some reviewer.handle;
              reviewed_at = some now;
              review_note = some text;
            } in
            let saved : save q' db.publications ≡ result.publications = ground arith in
            subst (Change db.publications) saved (
              decided p q' there waits refl refl refl refl refl
                (λ h. ground (arith, waiting_outcome p waits h)))
      ]
      | inr over ↦ absurd (ground arith)
    ]

request_publication_outcome :
    (db result : Database) (p : PublicationRow) (subject : SubjectRow) (author : Learner)
    (text : Option ℕ)
    → request_publication db subject author text ≡ done (result, p)
    → has_outcome p pending ≡ true
unfolding request_publication
request_publication_outcome db result p subject author text e = ground arith

-- A request that is granted is for a subject that no private source has reached and that has a
-- component and no other waiting request. It waits, and it holds the snapshot of the subject as it
-- is now, which is closed.
pub request_publication_done :
    (db result : Database) (p : PublicationRow) (subject : SubjectRow) (author : Learner)
    (text : Option ℕ)
    → request_publication db subject author text ≡ done (result, p)
    → (subject.private_source_derived ≡ false)
      × (p.source_subject_id ≡ some subject.id)
      × (any (waits_for subject.id) db.publications ≡ false)
      × (is_pending p.status ≡ true)
      × (p.snapshot ≡ snapshot_of db subject author)
      × (is_sealed p.snapshot ≡ true)
      × (length p.snapshot.kcs ≢ 0)
      × (result.publications ≡ db.publications ++ p ∷ [])
unfolding request_publication
request_publication_done db result p subject author text e =
    elim (Bool-cases subject.private_source_derived) [
      | inl derived ↦ absurd (ground arith)
      | inr clean ↦ elim (Bool-cases (any (waits_for subject.id) db.publications)) [
        | inl waits ↦ absurd (ground arith)
        | inr free ↦ (
          clean,
          ground arith,
          free,
          ground arith,
          ground arith,
          ground (arith, snapshot_of_sealed db subject author),
          ground arith,
          ground arith,
        )
      ]
    ]

request_publication-Change :
    (db result : Database) (p : PublicationRow) (subject : SubjectRow) (author : Learner)
    (text : Option ℕ)
    → request_publication db subject author text ≡ done (result, p)
    → Change db.publications result.publications
unfolding is_sound
request_publication-Change db result p subject author text e =
    let (granted, source, free, waits, frozen, closed, filled, rows) =
      request_publication_done db result p subject author text e in
    subst (Change db.publications) (sym rows) (
      appended p subject.id source free waits
        (ground (arith, closed, request_publication_outcome db result p subject author text e)))

pub Step-Change :
    {concept_of : ℕ → Option ℕ} {is_space : ℕ → Bool} {db result : Database}
    → Step concept_of is_space db result
    → Change db.publications result.publications
Step-Change (requests {db = db} {result = result} {p = p} subject author text e) =
    request_publication-Change db result p subject author text e
Step-Change (cancels {db = db} {result = result} {q = q} p now there e) =
    cancel-Change db result p q now there e
Step-Change
      (approves {db = db} {result = result} {copy = copy} p reviewer excluded text slug now there
        e) =
    approve-Change _ db result p copy reviewer excluded text slug now there e
Step-Change (rejects {db = db} {result = result} {q = q} p reviewer text now there e) =
    reject-Change _ db result p q reviewer text now there e
Step-Change (erases_account {db = db} {result = result} learner_id e) =
    subst (Change db.publications) (sym e) (
      cleared (forget_learner learner_id) (forget_learner-IsCleared learner_id)
        (λ p h. cleared-is_sound p _ (forget_learner-IsCleared learner_id p) h))
Step-Change (deletes_subject {db = db} {result = result} subject_id e) =
    subst (Change db.publications) (sym e) (
      cleared (forget_subject subject_id) (forget_subject-IsCleared subject_id)
        (λ p h. cleared-is_sound p _ (forget_subject-IsCleared subject_id p) h))
Step-Change (edits {db = db} {result = result} e) = subst (Change db.publications) (sym e) same
