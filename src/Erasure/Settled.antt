-- ===== src/Erasure/Settled.antt =====
-- An erasure leaves nothing that is not named by others or queued.
use guru_alt.Common.{
  tally, map, ℕ, ◌≤◌, ◌≡◌, inl, inr, refl, sym, ap, subst, ◌∙◌, true, false, not, ◌&&◌, ◌||◌,
  Option, none, some, List, ◌++◌, keep, any, elem, elem-append, arith, ◌==◌, Bool-cases,
}
use guru_alt.Erasure.{
  blob, identity, checkpoint, PendingErasure, SourceBlob, OwnedRow, Stores, names_blob,
  is_blob_referenced, is_of,
}
use guru_alt.Erasure.Account.{
  Keys, is_learners, is_owners, keys_of, subject_of, thread_ids_of, erase_blobs, erase_artifacts,
  queue_all, Outside, erase_identity, artifacts_of, delete_learner, erase_learner,
}
use guru_alt.Erasure.Objects.{
  kept-erase_blobs, erase_blobs-settles, kept-erase_artifacts, gone-erase_artifacts,
  erase_artifacts-settles,
}
use guru_alt.Erasure.Identity.{
  any-erase_identity, erase_identity_spares, identity_settles, threads_spared,
}
use guru_alt.Erasure.Rows.{
  has_subject, elem-keep, elem-keys_of, elem-map-keep, none_left, is_blob_referenced-any,
  subject_of-any,
}
use guru_alt.Erasure.Queue.{any-queue_all, queue_all-any}

module _ (keys : Keys) (out : Outside) (now learner_id : ℕ) (st : Stores) where
  abbrev thread_ids : List ℕ
  thread_ids = thread_ids_of keys learner_id st

  abbrev subject : Option ℕ
  subject = subject_of learner_id st.learners

  abbrev mine : List SourceBlob
  mine = keep (is_learners learner_id) st.sources

  abbrev theirs : List SourceBlob
  theirs = keep (λ s. not (is_learners learner_id s)) st.sources

  abbrev after : Stores
  after = erase_learner keys out now learner_id st

  -- Of what the rows of the learner name, nothing is left that is not named by others or queued.
  pub record IsErased : Type 0 where
    pub rows :
        (any (is_learners learner_id) after.sources ≡ false)
        × (any (λ l. l.id == learner_id) after.learners ≡ false)
        × (any (is_owners learner_id) after.conversations ≡ false)
        × (any (is_owners learner_id) after.onboarding_sessions ≡ false)
    pub blobs :
        (key : ℕ)
        → any (λ s. is_learners learner_id s && names_blob key s) st.sources ≡ true
        → (any (names_blob key) theirs
            || not (elem key after.objects)
            || any (is_of blob key) after.pending)
          ≡ true
    pub artifacts :
        (key : ℕ)
        → any (λ s. is_learners learner_id s && keys.artifact_key s.id == key) st.sources ≡ true
        → (not (elem key after.objects) || any (is_of blob key) after.pending) ≡ true
    pub account :
        (s : ℕ)
        → any (λ l. l.id == learner_id && has_subject s l) st.learners ≡ true
        → (not (elem s after.identities) || any (is_of identity s) after.pending) ≡ true
    pub thread :
        (k : ℕ)
        → (any (λ c. is_owners learner_id c && keys.conversation_key c.id == k) st.conversations
            || any
                (λ o. is_owners learner_id o && keys.thread_key o.id learner_id == k)
                st.onboarding_sessions)
          ≡ true
        → (not (elem k after.threads) || any (is_of checkpoint k) after.pending) ≡ true

  -- An object that another learner's source names is held after the erasure exactly if it was
  -- before, when the key is not that of a saved extraction of the learner's.
  pub erase_learner_spares :
      (key : ℕ)
      → elem key (artifacts_of keys mine) ≡ false
      → is_blob_referenced key none theirs ≡ true
      → elem key after.objects ≡ elem key st.objects
  unfolding erase_learner delete_learner
  erase_learner_spares key apart named =
      ap (elem key) (erase_identity_spares now out.provider subject _).0
      ∙ (kept-erase_artifacts out.refuses_object key (artifacts_of keys mine) _ apart
          ∙ kept-erase_blobs out.refuses_object theirs key (keys_of mine) st.objects named)

  abbrev blobs_done : List ℕ × List ℕ
  blobs_done = erase_blobs out.refuses_object theirs (keys_of mine) st.objects

  abbrev artifacts_done : List ℕ × List ℕ
  artifacts_done = erase_artifacts out.refuses_object (artifacts_of keys mine) blobs_done.0

  abbrev queued_blobs : List PendingErasure
  queued_blobs = queue_all now blob (blobs_done.1 ++ artifacts_done.1) st.pending

  -- The stores before the account at the provider is deleted.
  abbrev before_identity : Stores
  before_identity = record {
    learners = keep (λ l. not (l.id == learner_id)) st.learners;
    conversations = keep (λ c. not (is_owners learner_id c)) st.conversations;
    onboarding_sessions = keep (λ o. not (is_owners learner_id o)) st.onboarding_sessions;
    sources = theirs;
    objects = artifacts_done.0;
    identities = st.identities;
    threads = keep (λ k. not (elem k thread_ids) || out.refuses_thread k) st.threads;
    pending = queue_all now checkpoint (keep out.refuses_thread thread_ids) queued_blobs;
  }

  blobs_settle :
      (key : ℕ)
      → elem key (keys_of mine) ≡ true
      → (is_blob_referenced key none theirs
          || not (elem key after.objects)
          || any (is_of blob key) after.pending)
        ≡ true
  unfolding erase_learner delete_learner
  blobs_settle key h = elim (Bool-cases (is_blob_referenced key none theirs)) [
    | inl named ↦ rw named refl
    | inr unnamed ↦ elim (Bool-cases (elem key blobs_done.0)) [
      | inl left ↦
          let settled =
            erase_blobs-settles out.refuses_object theirs key (keys_of mine) st.objects h in
          let failed : elem key blobs_done.1 ≡ true = ground (arith, settled, unnamed, left) in
          let queued : any (is_of blob key) after.pending ≡ true =
            any-erase_identity now out.provider subject before_identity blob key (
              any-queue_all now blob checkpoint key (keep out.refuses_thread thread_ids)
                queued_blobs
                (queue_all-any now blob key (blobs_done.1 ++ artifacts_done.1) st.pending
                  (elem-append key blobs_done.1 artifacts_done.1 ∙ ground (arith, failed)))) in
          ground (arith, queued)
      | inr gone ↦
          let gone_after : elem key after.objects ≡ false =
            ap (elem key) (erase_identity_spares now out.provider subject before_identity).0
            ∙ gone-erase_artifacts out.refuses_object key (artifacts_of keys mine) blobs_done.0
                gone in
          ground (arith, gone_after)
    ]
  ]

  thread_settles :
      (k : ℕ)
      → elem k thread_ids ≡ true
      → (not (elem k after.threads) || any (is_of checkpoint k) after.pending) ≡ true
  unfolding erase_learner delete_learner
  thread_settles k h = elim (Bool-cases (out.refuses_thread k)) [
    | inl no_ ↦
        let queued : any (is_of checkpoint k) after.pending ≡ true =
          any-erase_identity now out.provider subject before_identity checkpoint k (
            queue_all-any now checkpoint k (keep out.refuses_thread thread_ids) queued_blobs
              (elem-keep out.refuses_thread k thread_ids ∙ ground (arith, h, no_))) in
        ground (arith, queued)
    | inr done ↦
        let gone : elem k after.threads ≡ false =
          ap (elem k) (threads_spared now out.provider subject before_identity)
          ∙ (elem-keep (λ x. not (elem x thread_ids) || out.refuses_thread x) k st.threads
              ∙ ground (arith, h, done)) in
        ground (arith, gone)
  ]

  artifacts_settle :
      (key : ℕ)
      → elem key (artifacts_of keys mine) ≡ true
      → (not (elem key after.objects) || any (is_of blob key) after.pending) ≡ true
  unfolding erase_learner delete_learner
  artifacts_settle key h = elim (Bool-cases (elem key artifacts_done.0)) [
    | inl left ↦
        let settled =
          erase_artifacts-settles out.refuses_object key (artifacts_of keys mine) blobs_done.0 h in
        let failed : elem key artifacts_done.1 ≡ true = ground (arith, settled, left) in
        let queued : any (is_of blob key) after.pending ≡ true =
          any-erase_identity now out.provider subject before_identity blob key (
            any-queue_all now blob checkpoint key (keep out.refuses_thread thread_ids) queued_blobs
              (queue_all-any now blob key (blobs_done.1 ++ artifacts_done.1) st.pending
                (elem-append key blobs_done.1 artifacts_done.1 ∙ ground (arith, failed)))) in
        ground (arith, queued)
    | inr gone ↦
        let gone_after : elem key after.objects ≡ false =
          ap (elem key) (erase_identity_spares now out.provider subject before_identity).0 ∙ gone in
        ground (arith, gone_after)
  ]

  account_settles :
      (s : ℕ)
      → subject ≡ some s
      → (not (elem s after.identities) || any (is_of identity s) after.pending) ≡ true
  unfolding erase_learner delete_learner
  account_settles s e =
      subst
        (λ o.
          (not (elem s (erase_identity now out.provider o before_identity).identities)
            || any (is_of identity s) (erase_identity now out.provider o before_identity).pending)
          ≡ true)
        (sym e) (identity_settles now out.provider s before_identity)

  rows_gone :
      (any (is_learners learner_id) after.sources ≡ false)
      × (any (λ l. l.id == learner_id) after.learners ≡ false)
      × (any (is_owners learner_id) after.conversations ≡ false)
      × (any (is_owners learner_id) after.onboarding_sessions ≡ false)
  unfolding erase_learner delete_learner
  rows_gone =
      let (_, sources, learners, conversations, sessions) =
        erase_identity_spares now out.provider subject before_identity in
      (
        ap (any (is_learners learner_id)) sources ∙ none_left _ st.sources,
        ap (any (λ l. l.id == learner_id)) learners ∙ none_left _ st.learners,
        ap (any (is_owners learner_id)) conversations ∙ none_left _ st.conversations,
        ap (any (is_owners learner_id)) sessions ∙ none_left _ st.onboarding_sessions,
      )

  elem-thread_ids :
      (k : ℕ)
      → elem k thread_ids ≡ (
          any (λ c. is_owners learner_id c && keys.conversation_key c.id == k) st.conversations
          || any
              (λ o. is_owners learner_id o && keys.thread_key o.id learner_id == k)
              st.onboarding_sessions)
  unfolding thread_ids_of
  elem-thread_ids k = ground (
    arith,
    elem-append k
        (map (λ (c : OwnedRow). keys.conversation_key c.id)
          (keep (is_owners learner_id) st.conversations))
        (map (λ (o : OwnedRow). keys.thread_key o.id learner_id)
          (keep (is_owners learner_id) st.onboarding_sessions)),
    elem-map-keep (λ (c : OwnedRow). keys.conversation_key c.id) (is_owners learner_id) k
        st.conversations,
    elem-map-keep (λ (o : OwnedRow). keys.thread_key o.id learner_id) (is_owners learner_id) k
        st.onboarding_sessions,
  )

  -- After an erasure no row of the learner is left, of the account, its sources, conversations and
  -- onboarding sessions. Each stored file that a source of the learner named is still named by
  -- another learner's source, is deleted, or is queued for deletion; and the saved extraction of
  -- each source, the account at the provider and each saved thread are deleted or queued. The
  -- learner has one row.
  pub erase_learner-IsErased : tally (λ l. l.id == learner_id) st.learners ≤ 1 → IsErased
  erase_learner-IsErased one = record {
    rows = rows_gone;
    blobs = λ key h. ground (
      arith,
      blobs_settle key (elem-keys_of (is_learners learner_id) key st.sources ∙ h),
      is_blob_referenced-any key theirs,
    );
    artifacts = λ key h. artifacts_settle key (
        elem-map-keep (λ (s : SourceBlob). keys.artifact_key s.id) (is_learners learner_id) key
          st.sources
        ∙ h);
    account = λ s h. account_settles s (subject_of-any learner_id s st.learners one h);
    thread = λ k h. thread_settles k (elem-thread_ids k ∙ h);
  }
