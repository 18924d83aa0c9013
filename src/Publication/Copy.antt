-- ===== src/Publication/Copy.antt =====
-- The materialization of a snapshot, the body of `approve`. Each kind of row is a loop over its
-- entries that hands out the ids from `next` on; the dict that a loop fills, from an entry's id to
-- the new row's, is the function beside it: of two entries with one id, the later one counts.
-- `concept_of` stands for `resolve_concept`.
pub mod Ids
pub mod Faithful
use guru_alt.Common.{
  ℕ, suc, ◌+◌, ◌≡◌, Bool, true, false, Option, none, some, List, [], ◌∷◌, ◌==◌, elem, length,
  if◌then◌else◌, ◌>>=◌,
}
use guru_alt.Publication.{
  TopicRow, KcRow, EdgeRow, RubricRow, Link, ItemRow, TopicEntry, KcEntry, ItemEntry, RubricEntry,
  SnapshotOf, curated,
}

abbrev pub topic_at : ℕ → List TopicEntry → ℕ → Option ℕ
topic_at next [] id = none
topic_at next (e ∷ es) id = elim (topic_at (suc next) es id) [
  | some n ↦ some n
  | none ↦ if e.id == id then some next else none
]

abbrev pub copy_topics : ℕ → ℕ → List TopicEntry → List TopicRow
copy_topics subject_id next [] = []
copy_topics subject_id next (e ∷ es) =
    record {
      id = next;
      subject_id = subject_id;
      slug = e.slug;
      name = e.name;
      description = e.description;
    }
    ∷ copy_topics subject_id (suc next) es

module _ (topic : ℕ → Option ℕ) where
  abbrev pub kc_at : ℕ → List KcEntry → ℕ → Option ℕ
  kc_at next [] id = none
  kc_at next (e ∷ es) id = elim (topic e.topic_id) [
    | none ↦ kc_at next es id
    | some parent ↦ elim (kc_at (suc next) es id) [
      | some n ↦ some n
      | none ↦ if e.id == id then some next else none
    ]
  ]

  abbrev pub copy_kcs : (ℕ → Option ℕ) → ℕ → List KcEntry → List KcRow
  copy_kcs concept_of next [] = []
  copy_kcs concept_of next (e ∷ es) = elim (topic e.topic_id) [
    | none ↦ copy_kcs concept_of next es
    | some parent ↦
        record {
          id = next;
          topic_id = parent;
          slug = e.slug;
          name = e.name;
          description = e.description;
          concept_id = concept_of e.name;
        }
        ∷ copy_kcs concept_of (suc next) es
  ]

module _ (kc : ℕ → Option ℕ) where
  abbrev pub copy_edges : List EdgeRow → List EdgeRow
  copy_edges [] = []
  copy_edges (e ∷ es) = elim (kc e.prereq_kc_id) [
    | none ↦ copy_edges es
    | some prereq ↦ elim (kc e.kc_id) [
      | none ↦ copy_edges es
      | some dependent ↦
          record { prereq_kc_id = prereq; kc_id = dependent; weight = e.weight } ∷ copy_edges es
    ]
  ]

  abbrev pub rubric_at : ℕ → List RubricEntry → ℕ → Option ℕ
  rubric_at next [] id = none
  rubric_at next (e ∷ es) id = elim (kc e.kc_id) [
    | none ↦ rubric_at next es id
    | some k ↦ elim (rubric_at (suc next) es id) [
      | some n ↦ some n
      | none ↦ if e.id == id then some next else none
    ]
  ]

  abbrev pub copy_rubrics : ℕ → List RubricEntry → List RubricRow
  copy_rubrics next [] = []
  copy_rubrics next (e ∷ es) = elim (kc e.kc_id) [
    | none ↦ copy_rubrics next es
    | some k ↦
        record {
          id = next;
          visibility = curated;
          owner_learner_id = none;
          kc_id = k;
          name = e.name;
          criteria = e.criteria;
        }
        ∷ copy_rubrics (suc next) es
  ]

  abbrev pub copy_links : List Link → List Link
  copy_links [] = []
  copy_links (l ∷ ls) = elim (kc l.kc_id) [
    | none ↦ copy_links ls
    | some k ↦ record { kc_id = k; weight = l.weight } ∷ copy_links ls
  ]

  abbrev copy_item : (ℕ → Option ℕ) → Option ℕ → ℕ → ItemEntry → List Link → ItemRow
  copy_item rubric author_id next e links = record {
    id = next;
    visibility = curated;
    owner_learner_id = none;
    item_type = e.item_type;
    stem = e.stem;
    answer_key = e.answer_key;
    difficulty = e.difficulty;
    rubric_id = e.rubric_id >>= rubric;
    origin = e.origin;
    author_learner_id = author_id;
    kc_links = links;
  }

  abbrev pub copy_items : List ℕ → (ℕ → Option ℕ) → Option ℕ → ℕ → List ItemEntry → List ItemRow
  copy_items excluded rubric author_id next [] = []
  copy_items excluded rubric author_id next (e ∷ es) = elim (elem e.id excluded) [
    | true ↦ copy_items excluded rubric author_id next es
    | false ↦ elim (copy_links e.kc_weights) [
      | [] ↦ copy_items excluded rubric author_id next es
      | l ∷ ls ↦
          copy_item rubric author_id next e (l ∷ ls)
          ∷ copy_items excluded rubric author_id (suc next) es
    ]
  ]

-- The new rows, for a copy with the id `subject_id`, whose first topic gets the id `next`.
pub record Material : Type 0 where
  pub topics : List TopicRow
  pub kcs : List KcRow
  pub edges : List EdgeRow
  pub rubrics : List RubricRow
  pub items : List ItemRow
  pub next_id : ℕ

unfoldable pub materialize : (ℕ → Option ℕ) → List ℕ → Option ℕ → ℕ → ℕ → SnapshotOf → Material
materialize concept_of excluded author_id subject_id next s =
    let topic = topic_at next s.topics in
    let after_topics = next + length s.topics in
    let kc = kc_at topic after_topics s.kcs in
    let kcs = copy_kcs topic concept_of after_topics s.kcs in
    let after_kcs = after_topics + length kcs in
    let rubrics = copy_rubrics kc after_kcs s.rubrics in
    let after_rubrics = after_kcs + length rubrics in
    let items =
      copy_items kc excluded (rubric_at kc after_kcs s.rubrics) author_id after_rubrics s.items in
    record {
      topics = copy_topics subject_id next s.topics;
      kcs = kcs;
      edges = copy_edges kc s.edges;
      rubrics = rubrics;
      items = items;
      next_id = after_rubrics + length items;
    }
