-- ===== src/Knowledge/Visibility/Private.antt =====
-- The gate in front of every id: what another learner keeps private does not exist. The questions
-- are `require_visible_subject`, `require_visible_topic`, `require_visible_kc` and
-- `resolve_source_scope`.
use guru_alt.Common.{
  ℕ, ◌≡◌, refl, ap, true, false, inl, inr, Option, none, some, List, [], ◌∷◌, map, arith, ◌==◌,
  keep, elem, Distinct, if◌then◌else◌, Bool-cases, Option-cases,
}
use guru_alt.Knowledge.Visibility.{
  Subject, Topic, Store, ok, is_visible_to, find_subject, find_topic, find_kc, join_topic,
  require_visible_subject, require_visible_topic, require_visible_kc, resolve_topic,
  resolve_source_scope, seen_by,
}

-- Ids are a primary key: no two subjects share one.
abbrev pub HasKey : List Subject → Type 0
HasKey rows = Distinct (map (λ (s : Subject). s.id) rows)

abbrev if_visible : ℕ → Option Subject → Option Subject
if_visible learner_id none = none
if_visible learner_id (some s) = if is_visible_to s learner_id then some s else none

find_subject-absent :
    (rows : List Subject) (learner_id id : ℕ)
    → elem id (map (λ (s : Subject). s.id) rows) ≡ false
    → find_subject (keep (λ s. is_visible_to s learner_id) rows) id ≡ none
find_subject-absent [] learner_id id h = refl
find_subject-absent (s ∷ rows) learner_id id h =
    ground (arith, find_subject-absent rows learner_id id)

find_subject-keep :
    (rows : List Subject) (learner_id id : ℕ)
    → HasKey rows
    → find_subject (keep (λ s. is_visible_to s learner_id) rows) id
      ≡ if_visible learner_id (find_subject rows id)
find_subject-keep [] learner_id id d = refl
find_subject-keep (s ∷ rows) learner_id id d = elim (Bool-cases (s.id == id)) [
  | inl same ↦
      let e : s.id ≡ id = ground arith in
      ground (
        arith,
        find_subject-absent rows learner_id id,
        ap (λ (k : ℕ). elem k (map (λ (t : Subject). t.id) rows)) e,
        d.0,
      )
  | inr other ↦ ground (arith, find_subject-keep rows learner_id id)
]

abbrev if_visible_topic : ℕ → Option (Subject × Topic) → Option (Subject × Topic)
if_visible_topic learner_id none = none
if_visible_topic learner_id (some (s, t)) = if is_visible_to s learner_id then some (s, t) else none

module _ (st : Store) (learner_id : ℕ) (key : HasKey st.subjects) where
  join_topic-seen_by :
      (id : ℕ)
      → join_topic (seen_by learner_id st) id ≡ if_visible_topic learner_id (join_topic st id)
  join_topic-seen_by id = elim (Option-cases (find_topic st.topics id)) [
    | inl missing ↦ ground arith
    | inr (t, found) ↦ ground (arith, find_subject-keep st.subjects learner_id t.subject_id key)
  ]

  require_visible_subject-seen_by :
      (id : ℕ)
      → require_visible_subject (seen_by learner_id st) id learner_id
        ≡ require_visible_subject st id learner_id
  unfolding require_visible_subject
  require_visible_subject-seen_by id =
      ground (arith, find_subject-keep st.subjects learner_id id key)

  require_visible_topic-seen_by :
      (id : ℕ)
      → require_visible_topic (seen_by learner_id st) id learner_id
        ≡ require_visible_topic st id learner_id
  unfolding require_visible_topic
  require_visible_topic-seen_by id = ground (arith, join_topic-seen_by id)

  require_visible_kc-seen_by :
      (id : ℕ)
      → require_visible_kc (seen_by learner_id st) id learner_id
        ≡ require_visible_kc st id learner_id
  unfolding require_visible_kc
  require_visible_kc-seen_by id = elim (Option-cases (find_kc st.kcs id)) [
    | inl absent ↦ ground arith
    | inr (k, here) ↦ ground (arith, join_topic-seen_by k.topic_id)
  ]

  resolve_topic-seen_by :
      (subject_id topic_id : Option ℕ)
      → resolve_topic (seen_by learner_id st) learner_id subject_id topic_id
        ≡ resolve_topic st learner_id subject_id topic_id
  unfolding resolve_topic
  resolve_topic-seen_by subject_id none = refl
  resolve_topic-seen_by subject_id (some id) = ground (arith, require_visible_topic-seen_by id)

  resolve_source_scope-seen_by :
      (subject_id topic_id : Option ℕ)
      → resolve_source_scope (seen_by learner_id st) learner_id subject_id topic_id
        ≡ resolve_source_scope st learner_id subject_id topic_id
  unfolding resolve_source_scope
  resolve_source_scope-seen_by none topic_id = resolve_topic-seen_by none topic_id
  resolve_source_scope-seen_by (some id) topic_id =
      ground (arith, require_visible_subject-seen_by id, resolve_topic-seen_by (some id) topic_id)

  -- If subject ids are distinct, then every question about an id has the same answer as it would
  -- have if the subjects that the learner may not see were not stored at all.
  pub private_as_absent :
      (id : ℕ) (subject_id topic_id : Option ℕ)
      → (require_visible_subject (seen_by learner_id st) id learner_id
          ≡ require_visible_subject st id learner_id)
        × (require_visible_topic (seen_by learner_id st) id learner_id
            ≡ require_visible_topic st id learner_id)
        × (require_visible_kc (seen_by learner_id st) id learner_id
            ≡ require_visible_kc st id learner_id)
        × (resolve_source_scope (seen_by learner_id st) learner_id subject_id topic_id
            ≡ resolve_source_scope st learner_id subject_id topic_id)
  private_as_absent id subject_id topic_id = (
    require_visible_subject-seen_by id,
    require_visible_topic-seen_by id,
    require_visible_kc-seen_by id,
    resolve_source_scope-seen_by subject_id topic_id,
  )

-- What a granted scope says of the graph.
pub record IsScope (st : Store) (learner_id : ℕ) (asked_subject asked_topic a b : Option ℕ)
    : Type 0 where
  pub same_topic : b ≡ asked_topic
  pub same_subject : (s : ℕ) → asked_subject ≡ some s → a ≡ some s
  pub owner :
      (t : ℕ)
      → asked_topic ≡ some t
      → (s : Subject) × (row : Topic) × (join_topic st t ≡ some (s, row))
        × (is_visible_to s learner_id ≡ true)
        × (a ≡ some row.subject_id)

resolve_topic-IsScope :
    (st : Store) (learner_id : ℕ) (asked_subject asked_topic a b : Option ℕ)
    → resolve_topic st learner_id asked_subject asked_topic ≡ ok (a, b)
    → IsScope st learner_id asked_subject asked_topic a b
unfolding resolve_topic require_visible_topic
resolve_topic-IsScope st learner_id asked_subject none a b e = record {
  same_topic = ground arith;
  same_subject = λ s h. ground arith;
  owner = λ t h. absurd (ground arith);
}
resolve_topic-IsScope st learner_id asked_subject (some id) a b e =
    elim (Option-cases (join_topic st id)) [
      | inl missing ↦ absurd (ground arith)
      | inr ((s, t), found) ↦ record {
        same_topic = ground arith;
        same_subject = λ k h. ground arith;
        owner = λ k h. (s, t, ground arith, ground arith, ground arith);
      }
    ]

-- A scope that `resolve_source_scope` grants is consistent: the topic is the one that was asked
-- for, the subject is the one that was asked for, if one was, and the subject that the topic
-- belongs to, if there is a topic, which the learner may then see.
pub resolve_source_scope-IsScope :
    (st : Store) (learner_id : ℕ) (asked_subject asked_topic a b : Option ℕ)
    → resolve_source_scope st learner_id asked_subject asked_topic ≡ ok (a, b)
    → IsScope st learner_id asked_subject asked_topic a b
unfolding resolve_source_scope
resolve_source_scope-IsScope st learner_id none asked_topic a b e =
    resolve_topic-IsScope st learner_id none asked_topic a b e
resolve_source_scope-IsScope st learner_id (some id) asked_topic a b e =
    resolve_topic-IsScope st learner_id (some id) asked_topic a b (ground arith)
