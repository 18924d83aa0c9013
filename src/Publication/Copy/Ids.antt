-- ===== src/Publication/Copy/Ids.antt =====
-- The ids of the copies: counted up from the first, and what the dicts of the loops lead to.
use guru_alt.Common.{
  ap, ℕ, suc, ◌+◌, ◌≡◌, refl, Bool, true, false, ◌&&◌, ◌||◌, ◌⊎◌, inl, inr, Option, none, some,
  List, [], ◌∷◌, ◌++◌, map, arith, keep, all, elem, length, ◌==◌, ==_self, Bool-cases,
}
use guru_alt.Publication.{
  TopicRow, KcRow, RubricRow, ItemRow, TopicEntry, KcEntry, ItemEntry, RubricEntry,
}
use guru_alt.Publication.Copy.{
  topic_at, copy_topics, kc_at, copy_kcs, rubric_at, copy_rubrics, copy_links, copy_items,
}

abbrev pub is_some : Option ℕ → Bool
is_some none = false
is_some (some n) = true

pub option_cases : (o : Option ℕ) → (o ≡ none) ⊎ ((n : ℕ) × (o ≡ some n))
option_cases none = inl refl
option_cases (some n) = inr (n, refl)

-- The ids are counted up from `n`.
abbrev pub numbered : ℕ → List ℕ → Bool
numbered n [] = true
numbered n (x ∷ xs) = x == n && numbered (suc n) xs

-- Some entry with the one id has, at its place among the rows, the row with the other id.
abbrev pub is_copied : {A B : Type 0} → (A → ℕ) → (B → ℕ) → ℕ → ℕ → List A → List B → Bool
is_copied entry_id row_id id n [] rows = false
is_copied entry_id row_id id n (e ∷ es) [] = false
is_copied entry_id row_id id n (e ∷ es) (r ∷ rows) =
    entry_id e == id && row_id r == n || is_copied entry_id row_id id n es rows

pub List-cases : {A : Type 0} (xs : List A) → (xs ≡ []) ⊎ ((y : A) × (ys : List A) × (xs ≡ y ∷ ys))
List-cases [] = inl refl
List-cases (x ∷ xs) = inr (x, xs, refl)

pub topic_at-is_copied :
    (subject_id next : ℕ) (es : List TopicEntry) (id n : ℕ)
    → topic_at next es id ≡ some n
    → is_copied
        (λ (e : TopicEntry). e.id)
        (λ (r : TopicRow). r.id)
        id
        n
        es
        (copy_topics subject_id next es)
      ≡ true
topic_at-is_copied subject_id next [] id n h = absurd (ground arith)
topic_at-is_copied subject_id next (e ∷ es) id n h =
    elim (option_cases (topic_at (suc next) es id)) [
      | inl first ↦ ground (arith, first, ==_self next)
      | inr (m, later) ↦ ground (
        arith,
        later,
        topic_at-is_copied subject_id (suc next) es id n (ground (arith, later, h)),
      )
    ]

pub kc_at-is_copied :
    (topic concept_of : ℕ → Option ℕ) (next : ℕ) (es : List KcEntry) (id n : ℕ)
    → all (λ (k : KcEntry). is_some (topic k.topic_id)) es ≡ true
    → kc_at topic next es id ≡ some n
    → is_copied
        (λ (e : KcEntry). e.id)
        (λ (r : KcRow). r.id)
        id
        n
        es
        (copy_kcs topic concept_of next es)
      ≡ true
kc_at-is_copied topic concept_of next [] id n placed h = absurd (ground arith)
kc_at-is_copied topic concept_of next (e ∷ es) id n placed h =
    elim (option_cases (topic e.topic_id)) [
      | inl missing ↦ absurd (ground (arith, missing, placed))
      | inr (t, found) ↦ elim (option_cases (kc_at topic (suc next) es id)) [
        | inl first ↦ ground (arith, found, first, ==_self next)
        | inr (m, later) ↦
            let ih =
              kc_at-is_copied topic concept_of (suc next) es id n (ground (arith, placed))
                (ground (arith, found, later, h)) in
            ground (arith, found, later, ih)
      ]
    ]

pub numbered-topics :
    (subject_id next : ℕ) (es : List TopicEntry) (rest : List ℕ)
    → numbered next (map (λ (r : TopicRow). r.id) (copy_topics subject_id next es) ++ rest)
      ≡ numbered (next + length es) rest
numbered-topics subject_id next [] rest = ap (λ (m : ℕ). numbered m rest) (omega arith)
numbered-topics subject_id next (e ∷ es) rest =
    ground (arith, ==_self next, numbered-topics subject_id (suc next) es rest)

pub numbered-kcs :
    (topic concept_of : ℕ → Option ℕ) (next : ℕ) (es : List KcEntry) (rest : List ℕ)
    → numbered next (map (λ (r : KcRow). r.id) (copy_kcs topic concept_of next es) ++ rest)
      ≡ numbered (next + length (copy_kcs topic concept_of next es)) rest
numbered-kcs topic concept_of next [] rest = ap (λ (m : ℕ). numbered m rest) (omega arith)
numbered-kcs topic concept_of next (e ∷ es) rest = elim (option_cases (topic e.topic_id)) [
  | inl missing ↦ ground (arith, missing, numbered-kcs topic concept_of next es rest)
  | inr (t, found) ↦
      ground (arith, found, ==_self next, numbered-kcs topic concept_of (suc next) es rest)
]

pub rubric_at-is_copied :
    (kc : ℕ → Option ℕ) (next : ℕ) (es : List RubricEntry) (id n : ℕ)
    → rubric_at kc next es id ≡ some n
    → is_copied
        (λ (e : RubricEntry). e.id)
        (λ (r : RubricRow). r.id)
        id
        n
        (keep (λ e. is_some (kc e.kc_id)) es)
        (copy_rubrics kc next es)
      ≡ true
rubric_at-is_copied kc next [] id n h = absurd (ground arith)
rubric_at-is_copied kc next (e ∷ es) id n h = elim (option_cases (kc e.kc_id)) [
  | inl missing ↦
      let ih = rubric_at-is_copied kc next es id n (ground (arith, missing, h)) in
      ground (arith, missing, ih)
  | inr (k, found) ↦ elim (option_cases (rubric_at kc (suc next) es id)) [
    | inl first ↦ ground (arith, found, first, ==_self next)
    | inr (m, later) ↦
        let ih = rubric_at-is_copied kc (suc next) es id n (ground (arith, found, later, h)) in
        ground (arith, found, later, ih)
  ]
]

pub numbered-rubrics :
    (kc : ℕ → Option ℕ) (next : ℕ) (es : List RubricEntry) (rest : List ℕ)
    → numbered next (map (λ (r : RubricRow). r.id) (copy_rubrics kc next es) ++ rest)
      ≡ numbered (next + length (copy_rubrics kc next es)) rest
numbered-rubrics kc next [] rest = ap (λ (m : ℕ). numbered m rest) (omega arith)
numbered-rubrics kc next (e ∷ es) rest = elim (option_cases (kc e.kc_id)) [
  | inl missing ↦ ground (arith, missing, numbered-rubrics kc next es rest)
  | inr (k, found) ↦ ground (arith, found, ==_self next, numbered-rubrics kc (suc next) es rest)
]

pub numbered-items :
    (kc : ℕ → Option ℕ) (excluded : List ℕ) (rubric : ℕ → Option ℕ) (author_id : Option ℕ)
    (next : ℕ) (es : List ItemEntry)
    → numbered next (map (λ (r : ItemRow). r.id) (copy_items kc excluded rubric author_id next es))
      ≡ true
numbered-items kc excluded rubric author_id next [] = refl
numbered-items kc excluded rubric author_id next (e ∷ es) = elim (Bool-cases (elem e.id excluded)) [
  | inl struck ↦ ground (arith, struck, numbered-items kc excluded rubric author_id next es)
  | inr stays ↦ elim (List-cases (copy_links kc e.kc_weights)) [
    | inl nothing ↦
        ground (arith, stays, nothing, numbered-items kc excluded rubric author_id next es)
    | inr (l, ls, links) ↦ ground (
      arith,
      stays,
      links,
      ==_self next,
      numbered-items kc excluded rubric author_id (suc next) es,
    )
  ]
]
