-- ===== src/Publication/Snapshot/Sealed.antt =====
-- What a snapshot can hold: nothing that leaves the subject, and nothing that is not the author's.
use guru_alt.Common.{
  ℕ, ◌≡◌, refl, ◌∙◌, Bool, true, false, not, ◌&&◌, List, [], ◌∷◌, map, arith, keep, any, all, elem,
  all-keep, all-map, all-sort, map-map,
}
use guru_alt.Publication.{
  Learner, SubjectRow, TopicRow, KcRow, EdgeRow, Link, ItemRow, TopicEntry, KcEntry, ItemEntry,
  SnapshotOf, Database,
}
use guru_alt.Publication.Snapshot.{
  topic_entry, kc_entry, item_entry, topics_of, kcs_of, edges_of, snapshot_of, is_candidate,
  reaches_outside, shipped_items, assessment_of,
}

abbrev pub topic_ids : SnapshotOf → List ℕ
topic_ids s = map (λ (t : TopicEntry). t.id) s.topics

abbrev pub kc_ids : SnapshotOf → List ℕ
kc_ids s = map (λ (k : KcEntry). k.id) s.kcs

abbrev pub is_inside : List ℕ → List Link → Bool
is_inside ids links =
    any (λ (l : Link). elem l.kc_id ids) links && all (λ (l : Link). elem l.kc_id ids) links

-- Each component is in a topic of the snapshot, each edge joins two of its components, and each
-- item has a link and only links to its components.
abbrev pub is_sealed : SnapshotOf → Bool
is_sealed s =
    all (λ (k : KcEntry). elem k.topic_id (topic_ids s)) s.kcs
    && (all (λ (e : EdgeRow). elem e.kc_id (kc_ids s) && elem e.prereq_kc_id (kc_ids s)) s.edges
        && all (λ (i : ItemEntry). is_inside (kc_ids s) i.kc_weights) s.items)

none_outside :
    (ids : List ℕ) (links : List Link)
    → any (λ (l : Link). not (elem l.kc_id ids)) links ≡ false
    → all (λ (l : Link). elem l.kc_id ids) links ≡ true
none_outside ids [] h = refl
none_outside ids (l ∷ links) h = ground (arith, none_outside ids links)

all_three : {a b c : Bool} → a ≡ true → b ≡ true → c ≡ true → (a && (b && c)) ≡ true
all_three ha hb hc = ground arith

-- The ids of the entries are those of the rows.
entry_topic_ids :
    (topics : List TopicRow)
    → map (λ (t : TopicEntry). t.id) (map topic_entry topics) ≡ map (λ (t : TopicRow). t.id) topics
entry_topic_ids topics = map-map _ topic_entry topics

entry_kc_ids :
    (kcs : List KcRow)
    → map (λ (k : KcEntry). k.id) (map kc_entry kcs) ≡ map (λ (k : KcRow). k.id) kcs
entry_kc_ids kcs = map-map _ kc_entry kcs

placed :
    (db : Database) (ids : List ℕ)
    → all (λ (k : KcEntry). elem k.topic_id ids) (map kc_entry (kcs_of db ids)) ≡ true
placed db ids =
    all-map _ kc_entry (kcs_of db ids)
    ∙ (all-sort _ _ (keep (λ (k : KcRow). elem k.topic_id ids) db.kcs)
        ∙ all-keep _ _ db.kcs (λ k h. h))

joined :
    (db : Database) (ids : List ℕ)
    → all (λ (e : EdgeRow). elem e.kc_id ids && elem e.prereq_kc_id ids) (edges_of db ids) ≡ true
joined db ids = all-keep _ _ db.edges (λ e h. h)

keep-candidates :
    (author_id : ℕ) (ids : List ℕ) (items : List ItemRow)
    → all
        (λ (i : ItemRow). is_inside ids i.kc_links)
        (keep (λ i. not (reaches_outside ids i)) (keep (is_candidate author_id ids) items))
      ≡ true
keep-candidates author_id ids [] = refl
keep-candidates author_id ids (i ∷ items) =
    ground (arith, keep-candidates author_id ids items, none_outside ids i.kc_links)

linked :
    (db : Database) (author_id : ℕ) (ids : List ℕ)
    → all
        (λ (i : ItemEntry). is_inside ids i.kc_weights)
        (map item_entry (shipped_items db author_id ids))
      ≡ true
linked db author_id ids =
    all-map _ item_entry (shipped_items db author_id ids) ∙ keep-candidates author_id ids db.items

-- A snapshot is closed: its components are in its topics, its edges join its components, and its
-- items link to its components and to nothing else.
pub snapshot_of_sealed :
    (db : Database) (subject : SubjectRow) (author : Learner)
    → is_sealed (snapshot_of db subject author) ≡ true
unfolding snapshot_of assessment_of
snapshot_of_sealed db subject author =
    let topics = topics_of db subject in
    let rows = map (λ (t : TopicRow). t.id) topics in
    let ids = map (λ (k : KcRow). k.id) (kcs_of db rows) in
    rw (entry_topic_ids topics, entry_kc_ids (kcs_of db rows))
      (all_three (placed db rows) (joined db ids) (linked db author.id ids))
