-- ===== src/Publication/Review.antt =====
-- What a request goes through: `request_publication`, `cancel`, `approve` with
-- `_supersede_previous`, `reject` and `withdraw`. An operation takes the row that its caller has
-- loaded, and the new database comes with the answer. The clock's reading, the free slug and
-- `concept_of` (`resolve_concept`) are arguments.
pub mod Steps
pub mod Outcome
pub mod Queue
pub mod Decided
pub mod Shipped
pub mod Versions
use guru_alt.Common.{
  ℕ, zero, suc, ◌+◌, Bool, true, false, not, ◌&&◌, ◌||◌, Option, none, some, List, [], ◌∷◌, ◌++◌,
  map, ltb, leb, ◌==◌, any, length, to_set, if◌then◌else◌,
}
use guru_alt.Common.Sort.{sort}
use guru_alt.Publication.{
  Learner, SubjectRow, SnapshotOf, PublicationStatus, pending, approved, rejected, cancelled,
  PublicationRow, Database,
}
use guru_alt.Publication.Snapshot.{snapshot_of, is_owned_by}
use guru_alt.Publication.Copy.{Material, materialize}

pub data Refusal : Type 0 where
  source_derived no_kcs already_pending not_pending short_note not_published withdraw_reason :
      Refusal

pub data Result (A : Type 0) : Type 0 where
  done : A → Result A
  refused : Refusal → Result A

abbrev pub is_pending : PublicationStatus → Bool
is_pending pending = true
is_pending _ = false

abbrev pub is_none : Option ℕ → Bool
is_none none = true
is_none (some n) = false

-- A foreign key that may be empty names the row.
abbrev pub names : Option ℕ → ℕ → Bool
names none id = false
names (some n) id = n == id

abbrev pub waits_for : ℕ → PublicationRow → Bool
waits_for subject_id p = names p.source_subject_id subject_id && is_pending p.status

-- The row in the table that has the row's id is replaced.
abbrev pub save : PublicationRow → List PublicationRow → List PublicationRow
save p [] = []
save p (q ∷ rows) = if q.id == p.id then p ∷ save p rows else q ∷ save p rows

unfoldable pub request_publication :
    Database → SubjectRow → Learner → Option ℕ → Result (Database × PublicationRow)
request_publication db subject author note =
    if subject.private_source_derived
    then refused source_derived
    else if any (waits_for subject.id) db.publications
    then refused already_pending
    else let snapshot = snapshot_of db subject author in
      elim snapshot.kcs [
        | [] ↦ refused no_kcs
        | k ∷ ks ↦
            let publication : PublicationRow = record {
              id = db.next_id;
              source_subject_id = some subject.id;
              author_id = some author.id;
              author_handle = some author.handle;
              status = pending;
              author_note = note;
              snapshot = snapshot;
              reviewer_id = none;
              reviewer_handle = none;
              reviewed_at = none;
              review_note = none;
              excluded_item_ids = [];
              published_subject_id = none;
            } in
            done (
              record db {
                publications = db.publications ++ publication ∷ [];
                next_id = suc db.next_id;
              },
              publication,
            )
      ]

unfoldable pub cancel : Database → PublicationRow → ℕ → Result (Database × PublicationRow)
cancel db publication now =
    if not (is_pending publication.status)
    then refused not_pending
    else let changed = record publication { status = cancelled; reviewed_at = some now } in
      done (record db { publications = save changed db.publications }, changed)

-- The subject is a copy that another publication of the same source has made, and has no successor
-- yet.
abbrev pub is_previous : List PublicationRow → ℕ → PublicationRow → ℕ → SubjectRow → Bool
is_previous publications source p copy_id s =
    any
      (λ (q : PublicationRow).
        names s.publication_id q.id && names q.source_subject_id source && not (q.id == p.id))
      publications
    && not (s.id == copy_id)
    && is_none s.superseded_by_id

abbrev pub supersede : List PublicationRow → ℕ → PublicationRow → ℕ → SubjectRow → SubjectRow
supersede publications source p copy_id s =
    if is_previous publications source p copy_id s
    then record s { superseded_by_id = some copy_id }
    else s

unfoldable pub supersede_previous :
    List PublicationRow → PublicationRow → ℕ → List SubjectRow → List SubjectRow
supersede_previous publications p copy_id subjects = elim p.source_subject_id [
  | none ↦ subjects
  | some source ↦ map (supersede publications source p copy_id) subjects
]

abbrev pub approved_row :
    PublicationRow → Learner → List ℕ → Option (List ℕ) → ℕ → ℕ → PublicationRow
approved_row p reviewer excluded note now copy_id = record p {
  status = approved;
  reviewer_id = some reviewer.id;
  reviewer_handle = some reviewer.handle;
  reviewed_at = some now;
  review_note = note;
  excluded_item_ids = sort leb (to_set excluded);
  published_subject_id = some copy_id;
}

abbrev pub copy_row : PublicationRow → ℕ → ℕ → SubjectRow
copy_row p slug id = record {
  id = id;
  slug = slug;
  name = p.snapshot.name;
  description = p.snapshot.description;
  owner_learner_id = none;
  private_source_derived = false;
  publication_id = some p.id;
  superseded_by_id = none;
  withdrawn_at = none;
  withdrawn_reason = none;
}

unfoldable pub approve :
    (ℕ → Option ℕ)
    → Database
    → PublicationRow
    → Learner
    → List ℕ
    → Option (List ℕ)
    → ℕ
    → ℕ
    → Result (Database × SubjectRow)
approve concept_of db p reviewer excluded note slug now =
    if not (is_pending p.status)
    then refused not_pending
    else let copy = copy_row p slug db.next_id in
      let m = materialize concept_of excluded p.author_id copy.id (suc db.next_id) p.snapshot in
      done (
        record db {
          subjects = supersede_previous db.publications p copy.id (db.subjects ++ copy ∷ []);
          topics = db.topics ++ m.topics;
          kcs = db.kcs ++ m.kcs;
          edges = db.edges ++ m.edges;
          items = db.items ++ m.items;
          rubrics = db.rubrics ++ m.rubrics;
          publications = save (approved_row p reviewer excluded note now copy.id) db.publications;
          next_id = m.next_id;
        },
        copy,
      )

-- `str.strip` with Python's test for white space as an argument.
abbrev drop_space : (ℕ → Bool) → List ℕ → List ℕ
drop_space is_space [] = []
drop_space is_space (c ∷ cs) = if is_space c then drop_space is_space cs else c ∷ cs

abbrev reversed : List ℕ → List ℕ → List ℕ
reversed [] back = back
reversed (c ∷ cs) back = reversed cs (c ∷ back)

abbrev pub strip : (ℕ → Bool) → List ℕ → List ℕ
strip is_space cs = reversed (drop_space is_space (reversed (drop_space is_space cs) [])) []

abbrev pub rejection_note_min : ℕ
rejection_note_min = 8

unfoldable pub reject :
    (ℕ → Bool)
    → Database
    → PublicationRow
    → Learner
    → List ℕ
    → ℕ
    → Result (Database × PublicationRow)
reject is_space db p reviewer note now =
    if not (is_pending p.status)
    then refused not_pending
    else if ltb (length (strip is_space note)) rejection_note_min
    then refused short_note
    else let changed = record p {
      status = rejected;
      reviewer_id = some reviewer.id;
      reviewer_handle = some reviewer.handle;
      reviewed_at = some now;
      review_note = some note;
    } in
      done (record db { publications = save changed db.publications }, changed)

abbrev pub is_curated_copy : SubjectRow → Bool
is_curated_copy s = is_none s.owner_learner_id && not (is_none s.publication_id)

-- The row of the subject; its table is saved like that of the publications.
unfoldable pub withdraw : (ℕ → Bool) → SubjectRow → List ℕ → ℕ → Result SubjectRow
withdraw is_space s reason now =
    if not (is_curated_copy s) then refused not_published else elim (strip is_space reason) [
      | [] ↦ refused withdraw_reason
      | c ∷ cs ↦ done (record s { withdrawn_at = some now; withdrawn_reason = some reason })
    ]
