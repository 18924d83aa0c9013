-- ===== src/Erasure/Account.antt =====
-- `delete_learner` and `erase_learner`: what the stores refuse is queued, and what another
-- learner's source names is kept. The keys that are made of ids are functions of them. The rows
-- that hang on the learner's row go with it.
use guru_alt.Common.{
  ℕ, Bool, true, not, ◌||◌, Option, none, some, List, [], ◌∷◌, ◌++◌, map, keep, elem, ◌==◌,
  if◌then◌else◌,
}
use guru_alt.Erasure.{
  ErasureKind, blob, identity, checkpoint, PendingErasure, SourceBlob, LearnerRow, OwnedRow, Stores,
  Deleted, referenced, refused, deleted, without, unreference_blob, queue_erasure,
}

abbrev pub is_learners : ℕ → SourceBlob → Bool
is_learners learner_id s = s.learner_id == learner_id

abbrev pub keys_of : List SourceBlob → List ℕ
keys_of [] = []
keys_of (s ∷ sources) = elim s.blob_key [
  | none ↦ keys_of sources
  | some key ↦ key ∷ keys_of sources
]

abbrev pub objects_after : Deleted → List ℕ → List ℕ
objects_after referenced objects = objects
objects_after refused objects = objects
objects_after (deleted left) objects = left

abbrev pub failed_after : ℕ → Deleted → List ℕ
failed_after key refused = key ∷ []
failed_after key _ = []

-- The objects that are left, and the keys that the store refused to delete.
unfoldable pub erase_blobs : (ℕ → Bool) → List SourceBlob → List ℕ → List ℕ → List ℕ × List ℕ
erase_blobs refuses sources [] objects = (objects, [])
erase_blobs refuses sources (key ∷ keys) objects =
    let d = unreference_blob refuses key none sources objects in
    let (left, failed) = erase_blobs refuses sources keys (objects_after d objects) in
    (left, failed_after key d ++ failed)

-- Saved extractions, which are never shared.
unfoldable pub erase_artifacts : (ℕ → Bool) → List ℕ → List ℕ → List ℕ × List ℕ
erase_artifacts refuses [] objects = (objects, [])
erase_artifacts refuses (key ∷ keys) objects =
    let rest =
      erase_artifacts refuses keys (if refuses key then objects else without key objects) in
    if refuses key then (rest.0, key ∷ rest.1) else rest

unfoldable pub queue_all : ℕ → ErasureKind → List ℕ → List PendingErasure → List PendingErasure
queue_all now kind [] pending = pending
queue_all now kind (target ∷ targets) pending =
    queue_all now kind targets (queue_erasure now kind target pending)

-- What the stores outside the database refuse; without a provider, the identity cannot be deleted.
pub record Outside : Type 0 where
  pub refuses_object : ℕ → Bool
  pub refuses_thread : ℕ → Bool
  pub provider : Option (ℕ → Bool)

abbrev pub refuses_identity : Option (ℕ → Bool) → ℕ → Bool
refuses_identity none subject = true
refuses_identity (some refuses) subject = refuses subject

abbrev pub erase_identity : ℕ → Option (ℕ → Bool) → Option ℕ → Stores → Stores
erase_identity now provider none st = st
erase_identity now provider (some subject) st =
    if refuses_identity provider subject
    then record st { pending = queue_erasure now identity subject st.pending }
    else record st { identities = without subject st.identities }

-- The key of a source's saved extraction, and the threads of a conversation and of a session.
pub record Keys : Type 0 where
  pub artifact_key : ℕ → ℕ
  pub conversation_key : ℕ → ℕ
  pub thread_key : ℕ → ℕ → ℕ

-- `session.get(Learner, learner_id)` and its `auth_subject`.
unfoldable pub subject_of : ℕ → List LearnerRow → Option ℕ
subject_of learner_id [] = none
subject_of learner_id (l ∷ learners) =
    if l.id == learner_id then l.auth_subject else subject_of learner_id learners

abbrev pub is_owners : ℕ → OwnedRow → Bool
is_owners learner_id r = r.learner_id == learner_id

module _ (keys : Keys) where
  abbrev pub artifacts_of : List SourceBlob → List ℕ
  artifacts_of sources = map (λ (s : SourceBlob). keys.artifact_key s.id) sources

  unfoldable pub thread_ids_of : ℕ → Stores → List ℕ
  thread_ids_of learner_id st =
      map (λ (c : OwnedRow). keys.conversation_key c.id)
        (keep (is_owners learner_id) st.conversations)
      ++ map (λ (o : OwnedRow). keys.thread_key o.id learner_id)
          (keep (is_owners learner_id) st.onboarding_sessions)

  -- The keys that are left, and those that were refused.
  unfoldable pub delete_learner : Outside → ℕ → Stores → List SourceBlob × (List ℕ × List ℕ)
  delete_learner out learner_id st =
      let mine = keep (is_learners learner_id) st.sources in
      let others = keep (λ s. not (is_learners learner_id s)) st.sources in
      let blobs = erase_blobs out.refuses_object others (keys_of mine) st.objects in
      let artifacts = erase_artifacts out.refuses_object (artifacts_of mine) blobs.0 in
      (others, (artifacts.0, blobs.1 ++ artifacts.1))

  unfoldable pub erase_learner : Outside → ℕ → ℕ → Stores → Stores
  unfolding thread_ids_of subject_of
  erase_learner out now learner_id st =
      let thread_ids = thread_ids_of learner_id st in
      let subject = subject_of learner_id st.learners in
      let (others, (objects, failed)) = delete_learner out learner_id st in
      erase_identity now out.provider subject (record {
        learners = keep (λ l. not (l.id == learner_id)) st.learners;
        conversations = keep (λ c. not (is_owners learner_id c)) st.conversations;
        onboarding_sessions = keep (λ o. not (is_owners learner_id o)) st.onboarding_sessions;
        sources = others;
        objects = objects;
        identities = st.identities;
        threads = keep (λ k. not (elem k thread_ids) || out.refuses_thread k) st.threads;
        pending =
            queue_all now checkpoint (keep out.refuses_thread thread_ids)
              (queue_all now blob failed st.pending);
      })
