-- ===== src/Publication/Review/Steps.antt =====
-- The life of a request over any sequence of operations, with any edits of the other tables between
-- them. A publication outlives the account of its author or its reviewer and both subjects: their
-- ids in it are set to null, and with the author's goes the author's name.
use guru_alt.Common.{map, ℕ, ◌≡◌, Bool, Option, none, some, List, [], ◌∷◌, ◌==◌, if◌then◌else◌}
use guru_alt.Publication.{Learner, SubjectRow, PublicationRow, Database}
use guru_alt.Publication.Review.{names, done, request_publication, cancel, approve, reject}

-- The row with the id, as `session.get` loads it.
abbrev pub load : List PublicationRow → ℕ → Option PublicationRow
load [] id = none
load (p ∷ rows) id = if p.id == id then some p else load rows id

-- `ON DELETE SET NULL` of a column, when the row with the id is deleted.
abbrev pub unset : ℕ → Option ℕ → Option ℕ
unset id none = none
unset id (some n) = if n == id then none else some n

-- The account is erased.
unfoldable pub forget_learner : ℕ → PublicationRow → PublicationRow
forget_learner learner_id p = record p {
  author_id = unset learner_id p.author_id;
  author_handle = if names p.author_id learner_id then none else p.author_handle;
  reviewer_id = unset learner_id p.reviewer_id;
}

-- The subject is deleted.
unfoldable pub forget_subject : ℕ → PublicationRow → PublicationRow
forget_subject subject_id p = record p {
  source_subject_id = unset subject_id p.source_subject_id;
  published_subject_id = unset subject_id p.published_subject_id;
}

-- One operation, the erasure of an account, the deletion of a subject, or an edit that leaves the
-- publications as they are.
pub data Step (concept_of : ℕ → Option ℕ) (is_space : ℕ → Bool) : Database → Database → Type 0 where
  requests :
      {db result : Database} {p : PublicationRow} (subject : SubjectRow) (author : Learner)
      (note : Option ℕ)
      → request_publication db subject author note ≡ done (result, p)
      → Step concept_of is_space db result
  cancels :
      {db result : Database} {q : PublicationRow} (p : PublicationRow) (now : ℕ)
      → load db.publications p.id ≡ some p
      → cancel db p now ≡ done (result, q)
      → Step concept_of is_space db result
  approves :
      {db result : Database} {copy : SubjectRow} (p : PublicationRow) (reviewer : Learner)
      (excluded : List ℕ) (note : Option (List ℕ)) (slug now : ℕ)
      → load db.publications p.id ≡ some p
      → approve concept_of db p reviewer excluded note slug now ≡ done (result, copy)
      → Step concept_of is_space db result
  rejects :
      {db result : Database} {q : PublicationRow} (p : PublicationRow) (reviewer : Learner)
      (note : List ℕ) (now : ℕ)
      → load db.publications p.id ≡ some p
      → reject is_space db p reviewer note now ≡ done (result, q)
      → Step concept_of is_space db result
  erases_account :
      {db result : Database} (learner_id : ℕ)
      → result.publications ≡ map (forget_learner learner_id) db.publications
      → Step concept_of is_space db result
  deletes_subject :
      {db result : Database} (subject_id : ℕ)
      → result.publications ≡ map (forget_subject subject_id) db.publications
      → Step concept_of is_space db result
  edits :
      {db result : Database}
      → result.publications ≡ db.publications
      → Step concept_of is_space db result

-- The databases that come of one without publications.
pub data Reached (concept_of : ℕ → Option ℕ) (is_space : ℕ → Bool) : Database → Type 0 where
  start : {db : Database} → db.publications ≡ [] → Reached concept_of is_space db
  step :
      {db result : Database}
      → Reached concept_of is_space db
      → Step concept_of is_space db result
      → Reached concept_of is_space result

-- Any number of steps.
pub data Later (concept_of : ℕ → Option ℕ) (is_space : ℕ → Bool)
    : Database → Database → Type 0 where
  at_once : {db : Database} → Later concept_of is_space db db
  followed_by :
      {db middle result : Database}
      → Later concept_of is_space db middle
      → Step concept_of is_space middle result
      → Later concept_of is_space db result
