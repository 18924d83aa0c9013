-- ===== src/Examples/Publications.antt =====
-- A learner's two subjects, a stranger's item, and one request that is granted, cancelled or
-- approved.
use guru_alt.Common.{
  ℕ, ◌≡◌, ◌≢◌, refl, Bool, true, false, not, Option, none, some, List, [], ◌∷◌, ◌++◌, keep, any,
  length,
}
use guru_alt.Publication.{
  Learner, SubjectRow, TopicRow, KcRow, Link, ItemRow, PublicationStatus, PublicationRow, Database,
  private,
}
use guru_alt.Common.Sort.{sort}
use guru_alt.Publication.Snapshot.{assessment_of, snapshot_of}
use guru_alt.Publication.Snapshot.Sealed.{is_sealed}
use guru_alt.Publication.Snapshot.Own.{own, snapshot_of-own}
use guru_alt.Publication.Review.{
  Result, done, refused, already_pending, is_pending, waits_for, copy_row, request_publication,
  approve,
}
use guru_alt.Publication.Review.Steps.{
  Reached, start, step, requests, Later, at_once, followed_by, edits, erases_account,
  forget_learner,
}
use guru_alt.Publication.Review.Outcome.{request_publication_done}
use guru_alt.Publication.Review.Queue.{IsQueue, Reached-IsQueue}
use guru_alt.Publication.Review.Decided.{Kept, Later-Kept}
use guru_alt.Publication.Review.Versions.{is_version, is_made_from, approve_lists_one}

abbrev author : Learner
author = record { id = 7; handle = 70 }

abbrev reviewer : Learner
reviewer = record { id = 9; handle = 90 }

abbrev owned : ℕ → SubjectRow
owned id = record {
  id = id;
  slug = id;
  name = id;
  description = none;
  owner_learner_id = some 7;
  private_source_derived = false;
  publication_id = none;
  superseded_by_id = none;
  withdrawn_at = none;
  withdrawn_reason = none;
}

abbrev topic : ℕ → ℕ → TopicRow
topic id subject_id = record {
  id = id;
  subject_id = subject_id;
  slug = id;
  name = id;
  description = none;
}

abbrev kc : ℕ → ℕ → KcRow
kc id topic_id = record {
  id = id;
  topic_id = topic_id;
  slug = id;
  name = id;
  description = none;
  concept_id = none;
}

abbrev item : ℕ → ℕ → List Link → ItemRow
item id owner links = record {
  id = id;
  visibility = private;
  owner_learner_id = some owner;
  item_type = 0;
  stem = id;
  answer_key = none;
  difficulty = 0;
  rubric_id = some 40;
  origin = 0;
  author_learner_id = some owner;
  kc_links = links;
}

abbrev link : ℕ → Link
link id = record { kc_id = id; weight = 1 }

abbrev db : Database
db = record {
  subjects = owned 1 ∷ owned 2 ∷ [];
  topics = topic 10 1 ∷ topic 11 2 ∷ [];
  kcs = kc 21 10 ∷ kc 20 10 ∷ kc 22 11 ∷ [];
  edges =
      record { prereq_kc_id = 20; kc_id = 21; weight = 1 }
      ∷ record { prereq_kc_id = 22; kc_id = 21; weight = 1 }
      ∷ [];
  items =
      item 30 7 (link 20 ∷ []) ∷ item 31 7 (link 21 ∷ link 22 ∷ []) ∷ item 32 8 (link 20 ∷ []) ∷ [];
  rubrics =
      record {
        id = 40;
        visibility = private;
        owner_learner_id = some 7;
        kc_id = 22;
        name = none;
        criteria = 0;
      }
      ∷ [];
  publications = [];
  next_id = 100;
}

-- The snapshot of subject 1 holds a rubric of component 22, which is of subject 2.
snapshot_of-rubrics :
    (snapshot_of db (owned 1) author).rubrics
    ≡ record { id = 40; kc_id = 22; name = none; criteria = 0 } ∷ []
unfolding snapshot_of assessment_of sort
snapshot_of-rubrics = refl

snapshot_of-own_example :
    snapshot_of (own db (owned 1) author) (owned 1) author ≡ snapshot_of db (owned 1) author
snapshot_of-own_example = snapshot_of-own db (owned 1) author

abbrev concept_of : ℕ → Option ℕ
concept_of name = some name

abbrev is_space : ℕ → Bool
is_space c = false

abbrev request : PublicationRow
request = record {
  id = 100;
  source_subject_id = some 1;
  author_id = some 7;
  author_handle = some 70;
  status = PublicationStatus.pending;
  author_note = none;
  snapshot = snapshot_of db (owned 1) author;
  reviewer_id = none;
  reviewer_handle = none;
  reviewed_at = none;
  review_note = none;
  excluded_item_ids = [];
  published_subject_id = none;
}

abbrev asked : Database
asked = record db { publications = request ∷ []; next_id = 101 }

request_publication-asked : request_publication db (owned 1) author none ≡ done (asked, request)
unfolding request_publication snapshot_of sort
request_publication-asked = refl

request_publication-again :
    request_publication asked (owned 1) author none ≡ refused already_pending
unfolding request_publication
request_publication-again = refl

request_publication_done_example :
    ((owned 1).private_source_derived ≡ false)
    × (request.source_subject_id ≡ some (owned 1).id)
    × (any (waits_for 1) db.publications ≡ false)
    × (is_pending request.status ≡ true)
    × (request.snapshot ≡ snapshot_of db (owned 1) author)
    × (is_sealed request.snapshot ≡ true)
    × (length request.snapshot.kcs ≢ 0)
    × (asked.publications ≡ db.publications ++ request ∷ [])
request_publication_done_example =
    request_publication_done db asked request (owned 1) author none request_publication-asked

abbrev asked_reached : Reached concept_of is_space asked
asked_reached =
    step (start {db = db} refl) (requests (owned 1) author none request_publication-asked)

Reached-IsQueue_example : IsQueue asked.publications
Reached-IsQueue_example = Reached-IsQueue asked_reached

-- The author empties the subject while the request waits, and the account 8 is erased.
abbrev edited : Database
edited = record asked { topics = []; kcs = []; items = [] }

edited-Later : Later concept_of is_space asked edited
unfolding forget_learner
edited-Later =
    followed_by (followed_by at_once (edits {result = edited} refl))
      (erases_account {result = edited} 8 refl)

Later-Kept_example : Kept request edited.publications
Later-Kept_example = Later-Kept request edited-Later refl

abbrev shipped : Result (Database × SubjectRow) → Database
shipped (done (result, copy)) = result
shipped (refused r) = edited

abbrev approval : Database → Result (Database × SubjectRow)
approval later = approve concept_of later request reviewer (31 ∷ []) none 55 9

-- Publication 60 has made subject 50 of subject 1 before.
abbrev first_version : SubjectRow
first_version = record (owned 50) { owner_learner_id = none; publication_id = some 60 }

abbrev republished : Database
republished = record asked {
  subjects = owned 1 ∷ owned 2 ∷ first_version ∷ [];
  publications =
      record request {
        id = 60;
        status = PublicationStatus.approved;
        published_subject_id = some 50;
      }
      ∷ request
      ∷ [];
}

approve-republished :
    approval republished ≡ done (shipped (approval republished), copy_row request 55 101)
unfolding approve
approve-republished = refl

approve_lists_one_example :
    (keep (is_version republished.publications 1) (shipped (approval republished)).subjects
      ≡ copy_row request 55 101 ∷ [])
    × (keep
          (λ s. not (is_made_from republished.publications 1 s))
          (shipped (approval republished)).subjects
        ≡ keep (λ s. not (is_made_from republished.publications 1 s)) republished.subjects)
approve_lists_one_example =
    approve_lists_one concept_of republished (shipped (approval republished)) request
      (copy_row request 55 101) reviewer (31 ∷ []) none 55 9 1 refl refl refl approve-republished
