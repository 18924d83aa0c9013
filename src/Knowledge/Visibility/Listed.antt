-- ===== src/Knowledge/Visibility/Listed.antt =====
-- The catalog, and who may write: `list_subjects`, `is_visible_to` and `is_writable_by`.
use guru_alt.Common.{ℕ, Bool, ◌&&◌, ◌==◌, any}
use guru_alt.Knowledge.Visibility.{Subject, Store, LessonPlanRow, is_none}

abbrev pub is_current : Subject → Bool
is_current s = is_none s.owner_learner_id && is_none s.superseded_by_id && is_none s.withdrawn_at

abbrev pub is_studied : Store → ℕ → Subject → Bool
is_studied st learner_id s =
    is_none s.owner_learner_id
    && any (λ (p : LessonPlanRow). p.learner_id == learner_id && p.subject_id == s.id) st.plans
