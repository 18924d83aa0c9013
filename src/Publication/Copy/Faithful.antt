-- ===== src/Publication/Copy/Faithful.antt =====
-- A closed snapshot is copied whole: the loops of `approve` skip nothing but what the reviewer
-- excluded.
use guru_alt.Common.{
  ℕ, ◌+◌, ◌≡◌, Bool, true, not, ◌&&◌, Option, none, some, List, map, keep, any, all, elem, length,
  Pairs, ◌>>=◌, ◌++◌,
}
use guru_alt.Publication.{
  TopicRow, KcRow, EdgeRow, RubricRow, Link, ItemRow, TopicEntry, KcEntry, ItemEntry, RubricEntry,
  SnapshotOf, curated,
}
use guru_alt.Publication.Copy.Ids.{is_some, numbered, is_copied}
use guru_alt.Publication.Copy.{topic_at, kc_at, rubric_at, Material}

module _ (topic : ℕ → Option ℕ) (concept_of : ℕ → Option ℕ) where
  abbrev pub SameKc : KcEntry → KcRow → Type 0
  SameKc e r =
      (topic e.topic_id ≡ some r.topic_id)
      × (r.slug ≡ e.slug)
      × (r.name ≡ e.name)
      × (r.description ≡ e.description)
      × (r.concept_id ≡ concept_of e.name)

module _ (kc : ℕ → Option ℕ) where
  abbrev pub SameEdge : EdgeRow → EdgeRow → Type 0
  SameEdge e r =
      (kc e.prereq_kc_id ≡ some r.prereq_kc_id)
      × (kc e.kc_id ≡ some r.kc_id)
      × (r.weight ≡ e.weight)

  abbrev pub SameLink : Link → Link → Type 0
  SameLink l r = (kc l.kc_id ≡ some r.kc_id) × (r.weight ≡ l.weight)

  abbrev pub SameRubric : RubricEntry → RubricRow → Type 0
  SameRubric e r =
      (kc e.kc_id ≡ some r.kc_id)
      × (r.name ≡ e.name)
      × (r.criteria ≡ e.criteria)
      × (r.visibility ≡ curated)
      × (r.owner_learner_id ≡ none)

  -- An item of the copy belongs to nobody, is curated, and says and links what the entry says and
  -- links.
  abbrev pub SameItem : (ℕ → Option ℕ) → Option ℕ → ItemEntry → ItemRow → Type 0
  SameItem rubric author_id e r =
      (r.stem ≡ e.stem)
      × (r.item_type ≡ e.item_type)
      × (r.answer_key ≡ e.answer_key)
      × (r.difficulty ≡ e.difficulty)
      × (r.origin ≡ e.origin)
      × (r.visibility ≡ curated)
      × (r.owner_learner_id ≡ none)
      × (r.author_learner_id ≡ author_id)
      × (r.rubric_id ≡ (e.rubric_id >>= rubric))
      × Pairs SameLink e.kc_weights r.kc_links

  abbrev linked : ItemEntry → Bool
  linked e =
      any (λ (l : Link). is_some (kc l.kc_id)) e.kc_weights
      && all (λ (l : Link). is_some (kc l.kc_id)) e.kc_weights

abbrev pub SameTopic : ℕ → TopicEntry → TopicRow → Type 0
SameTopic subject_id e r =
    (r.subject_id ≡ subject_id)
    × (r.slug ≡ e.slug)
    × (r.name ≡ e.name)
    × (r.description ≡ e.description)

-- The new row of a topic, of a component and of a rubric.
abbrev pub topic_in : ℕ → SnapshotOf → ℕ → Option ℕ
topic_in next s = topic_at next s.topics

abbrev pub kc_in : ℕ → SnapshotOf → ℕ → Option ℕ
kc_in next s = kc_at (topic_in next s) (next + length s.topics) s.kcs

abbrev pub rubric_in : ℕ → SnapshotOf → Material → ℕ → Option ℕ
rubric_in next s m = rubric_at (kc_in next s) (next + length s.topics + length m.kcs) s.rubrics

pub record IsCopy (concept_of : ℕ → Option ℕ) (excluded : List ℕ) (author_id : Option ℕ)
    (subject_id next : ℕ) (s : SnapshotOf) (m : Material) : Type 0 where
  pub topics : Pairs (SameTopic subject_id) s.topics m.topics
  pub kcs : Pairs (SameKc (topic_in next s) concept_of) s.kcs m.kcs
  pub numbers :
      numbered next (
        map (λ (r : TopicRow). r.id) m.topics
        ++ (map (λ (r : KcRow). r.id) m.kcs
            ++ (map (λ (r : RubricRow). r.id) m.rubrics ++ map (λ (r : ItemRow). r.id) m.items)))
      ≡ true
  pub topic_refs :
      (id n : ℕ)
      → topic_in next s id ≡ some n
      → is_copied (λ (e : TopicEntry). e.id) (λ (r : TopicRow). r.id) id n s.topics m.topics ≡ true
  pub kc_refs :
      (id n : ℕ)
      → kc_in next s id ≡ some n
      → is_copied (λ (e : KcEntry). e.id) (λ (r : KcRow). r.id) id n s.kcs m.kcs ≡ true
  pub rubric_refs :
      (id n : ℕ)
      → rubric_in next s m id ≡ some n
      → is_copied
          (λ (e : RubricEntry). e.id)
          (λ (r : RubricRow). r.id)
          id
          n
          (keep (λ e. is_some (kc_in next s e.kc_id)) s.rubrics)
          m.rubrics
        ≡ true
  pub rubrics :
      Pairs
        (SameRubric (kc_in next s))
        (keep (λ e. is_some (kc_in next s e.kc_id)) s.rubrics)
        m.rubrics
  pub edges : Pairs (SameEdge (kc_in next s)) s.edges m.edges
  pub items :
      Pairs
        (SameItem (kc_in next s) (rubric_in next s m) author_id)
        (keep (λ e. not (elem e.id excluded)) s.items)
        m.items
