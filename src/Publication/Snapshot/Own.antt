-- ===== src/Publication/Snapshot/Own.antt =====
-- What a snapshot is made of: a database without the other subjects' graphs and the other learners'
-- work.
use guru_alt.Common.{ℕ, ◌≡◌, ◌&&◌, refl, ap, List, map, arith, ◌==◌, keep, elem, keep-keep}
use guru_alt.Common.Sort.{sort}
use guru_alt.Publication.{Learner, SubjectRow, TopicRow, KcRow, Database}
use guru_alt.Publication.Snapshot.{
  item_entry, rubric_entry, is_owned_by, topics_of, kcs_of, edges_of, snapshot_of, shipped_items,
  assessment_of,
}

abbrev topic_rows : Database → SubjectRow → List ℕ
topic_rows db subject = map (λ (t : TopicRow). t.id) (topics_of db subject)

abbrev kc_rows : Database → SubjectRow → List ℕ
kc_rows db subject = map (λ (k : KcRow). k.id) (kcs_of db (topic_rows db subject))

-- The subject's own graph, with the items and rubrics of the author, and nothing else.
abbrev pub own : Database → SubjectRow → Learner → Database
own db subject author = record db {
  topics = keep (λ t. t.subject_id == subject.id) db.topics;
  kcs = keep (λ k. elem k.topic_id (topic_rows db subject)) db.kcs;
  edges =
      keep (λ e. elem e.kc_id (kc_rows db subject) && elem e.prereq_kc_id (kc_rows db subject))
        db.edges;
  items = keep (λ i. is_owned_by i.owner_learner_id author.id) db.items;
  rubrics = keep (λ r. is_owned_by r.owner_learner_id author.id) db.rubrics;
}

module _ (db : Database) (subject : SubjectRow) (author : Learner) where
  topics_of-own : topics_of (own db subject author) subject ≡ topics_of db subject
  topics_of-own = ap (sort _) (keep-keep _ _ db.topics (λ t h. h))

  kcs_of-own :
      kcs_of (own db subject author) (topic_rows db subject) ≡ kcs_of db (topic_rows db subject)
  kcs_of-own = ap (sort _) (keep-keep _ _ db.kcs (λ t h. h))

  edges_of-own :
      edges_of (own db subject author) (kc_rows db subject) ≡ edges_of db (kc_rows db subject)
  edges_of-own = keep-keep _ _ db.edges (λ e h. h)

  shipped_items-own :
      (ids : List ℕ)
      → shipped_items (own db subject author) author.id ids ≡ shipped_items db author.id ids
  shipped_items-own ids = ap (keep _) (keep-keep _ _ db.items (λ i h. ground arith))

  assessment_of-own :
      (ids : List ℕ)
      → assessment_of (own db subject author) author.id ids ≡ assessment_of db author.id ids
  unfolding assessment_of
  assessment_of-own ids = rw (shipped_items-own ids) (
      ap (λ rows. (map item_entry (shipped_items db author.id ids), map rubric_entry rows))
        (keep-keep _ _ db.rubrics (λ r h. ground arith)))

  -- A snapshot depends on nothing but the subject's own topics, components and edges, and the
  -- author's items and rubrics: it is the same with every other row of those tables gone.
  pub snapshot_of-own :
      snapshot_of (own db subject author) subject author ≡ snapshot_of db subject author
  unfolding snapshot_of
  snapshot_of-own =
      rw (topics_of-own, kcs_of-own, edges_of-own, assessment_of-own (kc_rows db subject)) refl
