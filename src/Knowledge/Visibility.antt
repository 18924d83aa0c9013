-- ===== src/Knowledge/Visibility.antt =====
-- Who may see what, in app/services/knowledge.py. The tables are lists of rows; a lookup by primary
-- key, or the first row of a join, is the first row that fits. Rows hold the columns that are read.
pub mod Listed
pub mod Private
use guru_alt.Common.{
  ℕ, zero, suc, ◌≡◌, refl, ap, sym, subst, ◌∙◌, Bool, true, false, not, ◌&&◌, ◌||◌, ◌⊎◌, inl, inr,
  Option, none, some, List, [], ◌∷◌, ◌++◌, arith, ◌==◌, ==_iff, ==_self, keep, any, if◌then◌else◌,
  Bool-cases,
}

pub record Subject : Type 0 where
  pub id : ℕ
  pub owner_learner_id : Option ℕ
  pub superseded_by_id : Option ℕ
  pub withdrawn_at : Option ℕ

pub record Topic : Type 0 where
  pub id : ℕ
  pub subject_id : ℕ

pub record Kc : Type 0 where
  pub id : ℕ
  pub topic_id : ℕ

pub record LessonPlanRow : Type 0 where
  pub learner_id : ℕ
  pub subject_id : ℕ

pub record Store : Type 0 where
  pub subjects : List Subject
  pub topics : List Topic
  pub kcs : List Kc
  pub plans : List LessonPlanRow

pub data Kind : Type 0 where
  subject topic kc : Kind

-- A result, `NotVisible` with its kind, or `ScopeConflict` with what its message says.
pub data Answer (A : Type 0) : Type 0 where
  ok : A → Answer A
  not_visible : Kind → Answer A
  no_such_subject : ℕ → Answer A
  no_such_topic : ℕ → Answer A
  other_subject : (topic_id subject_id : ℕ) → Answer A

abbrev pub is_none : Option ℕ → Bool
is_none none = true
is_none (some n) = false

abbrev pub is_learner : Option ℕ → ℕ → Bool
is_learner none learner_id = false
is_learner (some n) learner_id = n == learner_id

unfoldable pub is_visible_to : Subject → ℕ → Bool
is_visible_to s learner_id = is_none s.owner_learner_id || is_learner s.owner_learner_id learner_id

unfoldable pub is_writable_by : Subject → ℕ → Bool
is_writable_by s learner_id = is_learner s.owner_learner_id learner_id

abbrev pub find_subject : List Subject → ℕ → Option Subject
find_subject [] id = none
find_subject (s ∷ rows) id = if s.id == id then some s else find_subject rows id

abbrev pub find_topic : List Topic → ℕ → Option Topic
find_topic [] id = none
find_topic (t ∷ rows) id = if t.id == id then some t else find_topic rows id

abbrev pub find_kc : List Kc → ℕ → Option Kc
find_kc [] id = none
find_kc (k ∷ rows) id = if k.id == id then some k else find_kc rows id

-- The subject of the topic with the id, and the topic, as the join gives them.
abbrev pub join_topic : Store → ℕ → Option (Subject × Topic)
join_topic st topic_id = elim (find_topic st.topics topic_id) [
  | none ↦ none
  | some t ↦ elim (find_subject st.subjects t.subject_id) [ none ↦ none | some s ↦ some (s, t) ]
]

abbrev pub join_kc : Store → ℕ → Option (Subject × Kc)
join_kc st kc_id = elim (find_kc st.kcs kc_id) [
  | none ↦ none
  | some k ↦ elim (join_topic st k.topic_id) [ none ↦ none | some (s, t) ↦ some (s, k) ]
]

unfoldable pub require_visible_subject : Store → ℕ → ℕ → Answer Subject
unfolding is_visible_to
require_visible_subject st subject_id learner_id = elim (find_subject st.subjects subject_id) [
  | none ↦ not_visible subject
  | some s ↦ if is_visible_to s learner_id then ok s else not_visible subject
]

unfoldable pub require_visible_topic : Store → ℕ → ℕ → Answer (Subject × Topic)
unfolding is_visible_to
require_visible_topic st topic_id learner_id = elim (join_topic st topic_id) [
  | none ↦ not_visible topic
  | some (s, t) ↦ if is_visible_to s learner_id then ok (s, t) else not_visible topic
]

unfoldable pub require_visible_kc : Store → ℕ → ℕ → Answer (Subject × Kc)
unfolding is_visible_to
require_visible_kc st kc_id learner_id = elim (join_kc st kc_id) [
  | none ↦ not_visible kc
  | some (s, k) ↦ if is_visible_to s learner_id then ok (s, k) else not_visible kc
]

-- The second half of `resolve_source_scope`, once the subject has passed.
unfoldable pub resolve_topic : Store → ℕ → Option ℕ → Option ℕ → Answer (Option ℕ × Option ℕ)
unfolding require_visible_topic
resolve_topic st learner_id subject_id none = ok (subject_id, none)
resolve_topic st learner_id subject_id (some topic_id) =
    elim (require_visible_topic st topic_id learner_id) [
      | ok (s, t) ↦ elim subject_id [
        | none ↦ ok (some t.subject_id, some topic_id)
        | some wanted ↦
            if t.subject_id == wanted
            then ok (some t.subject_id, some topic_id)
            else other_subject topic_id wanted
      ]
      | _ ↦ no_such_topic topic_id
    ]

unfoldable pub resolve_source_scope : Store → ℕ → Option ℕ → Option ℕ → Answer (Option ℕ × Option ℕ)
unfolding require_visible_subject resolve_topic
resolve_source_scope st learner_id none topic_id = resolve_topic st learner_id none topic_id
resolve_source_scope st learner_id (some subject_id) topic_id =
    elim (require_visible_subject st subject_id learner_id) [
      | ok s ↦ resolve_topic st learner_id (some subject_id) topic_id
      | _ ↦ no_such_subject subject_id
    ]

-- The catalog of a learner, and of an internal caller with none. The order by slug is left out.
unfoldable pub list_subjects : Store → Option ℕ → List Subject
list_subjects st none = st.subjects
list_subjects st (some learner_id) =
    keep
      (λ s.
        is_learner s.owner_learner_id learner_id
        || (is_none s.owner_learner_id && is_none s.superseded_by_id && is_none s.withdrawn_at
            || is_none s.owner_learner_id
              && any (λ (p : LessonPlanRow). p.learner_id == learner_id && p.subject_id == s.id)
                  st.plans))
      st.subjects

-- The store that holds, of the subjects, only those that the learner may see.
abbrev pub seen_by : ℕ → Store → Store
seen_by learner_id st = record st { subjects = keep (λ s. is_visible_to s learner_id) st.subjects }
