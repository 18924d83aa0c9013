-- ===== src/Publication/Snapshot.antt =====
-- `snapshot_of` and `_assessment_of`. The guards that skip a query for an empty list of ids are
-- left out: the query then finds nothing. The order by slug is a stable sort; a slug stands for its
-- place in that order.
pub mod Sealed
pub mod Own
use guru_alt.Common.{
  ℕ, ◌≡◌, refl, ap, sym, ◌∙◌, Bool, true, false, not, ◌&&◌, ◌||◌, Option, none, some, List, [], ◌∷◌,
  map, arith, leb, ◌==◌, keep, any, all, elem, All, if◌then◌else◌,
}
use guru_alt.Common.Sort.{sort}
use guru_alt.Publication.{
  Learner, SubjectRow, TopicRow, KcRow, EdgeRow, RubricRow, Link, ItemRow, TopicEntry, KcEntry,
  ItemEntry, RubricEntry, SnapshotOf, Database,
}

abbrev pub is_owned_by : Option ℕ → ℕ → Bool
is_owned_by none learner_id = false
is_owned_by (some n) learner_id = n == learner_id

abbrev pub topic_entry : TopicRow → TopicEntry
topic_entry t = record { id = t.id; slug = t.slug; name = t.name; description = t.description }

abbrev pub kc_entry : KcRow → KcEntry
kc_entry k = record {
  id = k.id;
  topic_id = k.topic_id;
  slug = k.slug;
  name = k.name;
  description = k.description;
}

abbrev pub item_entry : ItemRow → ItemEntry
item_entry i = record {
  id = i.id;
  item_type = i.item_type;
  stem = i.stem;
  answer_key = i.answer_key;
  difficulty = i.difficulty;
  rubric_id = i.rubric_id;
  origin = i.origin;
  kc_weights = i.kc_links;
}

abbrev pub rubric_entry : RubricRow → RubricEntry
rubric_entry r = record { id = r.id; kc_id = r.kc_id; name = r.name; criteria = r.criteria }

-- The author's own items with a link into the subject, less those that reach outside it.
abbrev pub is_candidate : ℕ → List ℕ → ItemRow → Bool
is_candidate author_id kc_ids i =
    is_owned_by i.owner_learner_id author_id && any (λ (l : Link). elem l.kc_id kc_ids) i.kc_links

abbrev pub reaches_outside : List ℕ → ItemRow → Bool
reaches_outside kc_ids i = any (λ (l : Link). not (elem l.kc_id kc_ids)) i.kc_links

abbrev pub rubric_ids_of : List ItemRow → List ℕ
rubric_ids_of [] = []
rubric_ids_of (i ∷ items) = elim i.rubric_id [
  | none ↦ rubric_ids_of items
  | some r ↦ r ∷ rubric_ids_of items
]

abbrev pub shipped_items : Database → ℕ → List ℕ → List ItemRow
shipped_items db author_id kc_ids =
    keep (λ i. not (reaches_outside kc_ids i)) (keep (is_candidate author_id kc_ids) db.items)

unfoldable pub assessment_of : Database → ℕ → List ℕ → List ItemEntry × List RubricEntry
assessment_of db author_id kc_ids =
    let items = shipped_items db author_id kc_ids in
    (
      map item_entry items,
      map rubric_entry (
          keep
            (λ (r : RubricRow).
              elem r.id (rubric_ids_of items) && is_owned_by r.owner_learner_id author_id)
            db.rubrics),
    )

abbrev pub topics_of : Database → SubjectRow → List TopicRow
topics_of db subject =
    sort (λ t u. leb t.slug u.slug) (keep (λ t. t.subject_id == subject.id) db.topics)

abbrev pub kcs_of : Database → List ℕ → List KcRow
kcs_of db topic_ids = sort (λ j k. leb j.slug k.slug) (keep (λ k. elem k.topic_id topic_ids) db.kcs)

abbrev pub edges_of : Database → List ℕ → List EdgeRow
edges_of db kc_ids = keep (λ e. elem e.kc_id kc_ids && elem e.prereq_kc_id kc_ids) db.edges

unfoldable pub snapshot_of : Database → SubjectRow → Learner → SnapshotOf
snapshot_of db subject author =
    let topics = topics_of db subject in
    let kcs = kcs_of db (map (λ (t : TopicRow). t.id) topics) in
    let kc_ids = map (λ (k : KcRow). k.id) kcs in
    let assessment = assessment_of db author.id kc_ids in
    record {
      name = subject.name;
      description = subject.description;
      topics = map topic_entry topics;
      kcs = map kc_entry kcs;
      edges = edges_of db kc_ids;
      items = assessment.0;
      rubrics = assessment.1;
    }
