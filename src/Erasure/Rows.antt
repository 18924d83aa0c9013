-- ===== src/Erasure/Rows.antt =====
-- What an erasure collects from the rows of the learner.
use guru_alt.Common.{
  tally, ℕ, ◌≤◌, ◌≡◌, inl, inr, refl, ap, ◌∙◌, Bool, true, false, not, ◌&&◌, ◌||◌, Option, none,
  some, List, [], ◌∷◌, map, keep, any, elem, arith, ◌==◌, ==_iff, Bool-cases,
}
use guru_alt.Erasure.{SourceBlob, LearnerRow, names_blob, is_blob_referenced}
use guru_alt.Erasure.Account.{keys_of, subject_of}

any_named :
    (key : ℕ) (sources : List SourceBlob)
    → any (λ s. names_blob key s && true) sources ≡ any (names_blob key) sources
any_named key [] = refl
any_named key (s ∷ sources) = ground (arith, any_named key sources)

pub is_blob_referenced-any :
    (key : ℕ) (sources : List SourceBlob)
    → is_blob_referenced key none sources ≡ any (names_blob key) sources
unfolding is_blob_referenced
is_blob_referenced-any key sources = any_named key sources

pub elem-keep : (p : ℕ → Bool) (a : ℕ) (xs : List ℕ) → elem a (keep p xs) ≡ (elem a xs && p a)
elem-keep p a [] = refl
elem-keep p a (x ∷ xs) = elim (Bool-cases (x == a)) [
  | inl hit ↦ elim (Bool-cases (p x)) [
    | inl fits ↦ rw fits (ground (arith, hit, fits, ap p ((==_iff x a).0 hit)))
    | inr misfit ↦
        rw misfit (elem-keep p a xs ∙ ground (arith, hit, misfit, ap p ((==_iff x a).0 hit)))
  ]
  | inr miss ↦ ground (arith, miss, elem-keep p a xs)
]

pub none_left : {A : Type 0} (p : A → Bool) (xs : List A) → any p (keep (λ x. not (p x)) xs) ≡ false
none_left p [] = refl
none_left p (x ∷ xs) = ground (arith, none_left p xs)

pub elem-keys_of :
    (p : SourceBlob → Bool) (key : ℕ) (sources : List SourceBlob)
    → elem key (keys_of (keep p sources)) ≡ any (λ s. p s && names_blob key s) sources
elem-keys_of p key [] = refl
elem-keys_of p key (s ∷ sources) = elim (Bool-cases (p s)) [
  | inl kept ↦ rw kept (with_key s.blob_key (elem-keys_of p key sources))
  | inr left ↦ rw left (elem-keys_of p key sources)
]
  where
    with_key :
        (k : Option ℕ)
        → elem key (keys_of (keep p sources)) ≡ any (λ s. p s && names_blob key s) sources
        → elem key
            (elim k [ none ↦ keys_of (keep p sources) | some x ↦ x ∷ keys_of (keep p sources) ])
          ≡ (elim k [ none ↦ false | some x ↦ x == key ]
              || any (λ s. p s && names_blob key s) sources)
    with_key none ih = ih
    with_key (some x) ih = ap (λ b. x == key || b) ih

pub elem-map-keep :
    {A : Type 0} (f : A → ℕ) (p : A → Bool) (k : ℕ) (xs : List A)
    → elem k (map f (keep p xs)) ≡ any (λ x. p x && f x == k) xs
elem-map-keep f p k [] = refl
elem-map-keep f p k (x ∷ xs) = ground (arith, elem-map-keep f p k xs)

abbrev pub has_subject : ℕ → LearnerRow → Bool
has_subject s l = elim l.auth_subject [ none ↦ false | some x ↦ x == s ]

no_row :
    (learner_id s : ℕ) (learners : List LearnerRow)
    → tally (λ l. l.id == learner_id) learners ≡ 0
    → any (λ l. l.id == learner_id && has_subject s l) learners ≡ false
no_row learner_id s [] h = refl
no_row learner_id s (l ∷ learners) h = ground (arith, no_row learner_id s learners, h)

its_subject : (s : ℕ) (o : Option ℕ) → elim o [ none ↦ false | some x ↦ x == s ] ≡ true → o ≡ some s
its_subject s none h = absurd (ground arith)
its_subject s (some x) h = ap (λ (n : ℕ). some n) ((==_iff x s).0 h)

pub subject_of-any :
    (learner_id s : ℕ) (learners : List LearnerRow)
    → tally (λ l. l.id == learner_id) learners ≤ 1
    → any (λ l. l.id == learner_id && has_subject s l) learners ≡ true
    → subject_of learner_id learners ≡ some s
unfolding subject_of
subject_of-any learner_id s [] one h = absurd (ground arith)
subject_of-any learner_id s (l ∷ learners) one h = elim (Bool-cases (l.id == learner_id)) [
  | inl hit ↦
      let rest : tally (λ l. l.id == learner_id) learners ≡ 0 = ground (arith, hit, one) in
      let mine : has_subject s l ≡ true =
        ground (arith, hit, h, no_row learner_id s learners rest) in
      rw hit (its_subject s l.auth_subject mine)
  | inr miss ↦
      rw miss
        (subject_of-any learner_id s learners (ground (arith, miss, one)) (ground (arith, miss, h)))
]
