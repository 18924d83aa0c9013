-- ===== src/Publication/Review/Decided.antt =====
-- What no later step undoes.
use guru_alt.Common.{
  ℕ, ◌≡◌, refl, ap, sym, subst, ◌∙◌, Bool, false, inl, inr, map, true, Option, some, List, [], ◌∷◌,
  ◌++◌, arith, ◌==◌, ==_iff, ==_self, Bool-cases,
}
use guru_alt.Publication.{PublicationStatus, PublicationRow, Database}
use guru_alt.Publication.Review.{is_pending, save}
use guru_alt.Publication.Review.Steps.{load, Later, at_once, followed_by}
use guru_alt.Publication.Review.Outcome.{
  IsLess, IsCleared, Change, same, appended, decided, cleared, Step-Change,
}

-- The decision is as it was.
pub record SameDecision (p q : PublicationRow) : Type 0 where
  pub status : q.status ≡ p.status
  pub reviewer : IsLess p.reviewer_id q.reviewer_id
  pub published : IsLess p.published_subject_id q.published_subject_id
  pub reviewer_handle : q.reviewer_handle ≡ p.reviewer_handle
  pub reviewed_at : q.reviewed_at ≡ p.reviewed_at
  pub review_note : q.review_note ≡ p.review_note
  pub excluded_item_ids : q.excluded_item_ids ≡ p.excluded_item_ids

-- What was asked is as it was, and if it was decided, so is the decision; an id may be cleared.
pub record IsKept (p q : PublicationRow) : Type 0 where
  pub snapshot : q.snapshot ≡ p.snapshot
  pub source : IsLess p.source_subject_id q.source_subject_id
  pub author : IsLess p.author_id q.author_id
  pub final : is_pending p.status ≡ false → SameDecision p q

-- The request is still there as it was made, and as it was decided.
abbrev pub Kept : PublicationRow → List PublicationRow → Type 0
Kept p rows = (q : PublicationRow) × (load rows p.id ≡ some q) × IsKept p q

IsKept-refl : (p : PublicationRow) → IsKept p p
IsKept-refl p = record {
  snapshot = refl;
  source = inl refl;
  author = inl refl;
  final = λ h. record {
    status = refl;
    reviewer = inl refl;
    published = inl refl;
    reviewer_handle = refl;
    reviewed_at = refl;
    review_note = refl;
    excluded_item_ids = refl;
  };
}

IsLess-trans : {a b c : Option ℕ} → IsLess a b → IsLess b c → IsLess a c
IsLess-trans (inl e) (inl f) = inl (f ∙ e)
IsLess-trans (inr e) (inl f) = inr (f ∙ e)
IsLess-trans h (inr f) = inr f

IsKept-trans : {p q r : PublicationRow} → IsKept p q → IsKept q r → IsKept p r
IsKept-trans {p = p} {q = q} h k = record {
  snapshot = k.snapshot ∙ h.snapshot;
  source = IsLess-trans h.source k.source;
  author = IsLess-trans h.author k.author;
  final = λ over.
      let first = h.final over in
      let second = k.final (ap (λ (s : PublicationStatus). is_pending s) first.status ∙ over) in
      record {
        status = second.status ∙ first.status;
        reviewer = IsLess-trans first.reviewer second.reviewer;
        published = IsLess-trans first.published second.published;
        reviewer_handle = second.reviewer_handle ∙ first.reviewer_handle;
        reviewed_at = second.reviewed_at ∙ first.reviewed_at;
        review_note = second.review_note ∙ first.review_note;
        excluded_item_ids = second.excluded_item_ids ∙ first.excluded_item_ids;
      };
}

IsCleared-IsKept : {p q : PublicationRow} → IsCleared p q → IsKept p q
IsCleared-IsKept c = record {
  snapshot = c.snapshot;
  source = c.source;
  author = c.author;
  final = λ h. record {
    status = c.status;
    reviewer = c.reviewer;
    published = c.published;
    reviewer_handle = c.reviewer_handle;
    reviewed_at = c.reviewed_at;
    review_note = c.review_note;
    excluded_item_ids = c.excluded_item_ids;
  };
}

load-map :
    (f : PublicationRow → PublicationRow) (rows : List PublicationRow) (id : ℕ) (p : PublicationRow)
    → ((q : PublicationRow) → IsCleared q (f q))
    → load rows id ≡ some p
    → load (map f rows) id ≡ some (f p)
load-map f [] id p c e = absurd (ground arith)
load-map f (q ∷ rows) id p c e = elim (Bool-cases (q.id == id)) [
  | inl hit ↦
      let mine : q ≡ p = ground arith in
      let here : ((f q).id == id) ≡ true = ap (λ (n : ℕ). n == id) (c q).id ∙ hit in
      rw here (ap (λ (x : PublicationRow). some (f x)) mine)
  | inr miss ↦
      let other : ((f q).id == id) ≡ false = ap (λ (n : ℕ). n == id) (c q).id ∙ miss in
      rw other (load-map f rows id p c (ground arith))
]

load-append :
    (rows : List PublicationRow) (r : PublicationRow) (id : ℕ) (p : PublicationRow)
    → load rows id ≡ some p
    → load (rows ++ r ∷ []) id ≡ some p
load-append [] r id p e = absurd (ground arith)
load-append (q ∷ rows) r id p e = ground (arith, load-append rows r id p)

load-save_same :
    (rows : List PublicationRow) (q p : PublicationRow)
    → load rows q.id ≡ some p
    → load (save q rows) q.id ≡ some q
load-save_same [] q p e = absurd (ground arith)
load-save_same (r ∷ rows) q p e = elim (Bool-cases (r.id == q.id)) [
  | inl hit ↦ ground (arith, ==_self q.id)
  | inr miss ↦ ground (arith, load-save_same rows q p)
]

load-save_other :
    (rows : List PublicationRow) (q : PublicationRow) (id : ℕ)
    → (q.id == id) ≡ false
    → load (save q rows) id ≡ load rows id
load-save_other [] q id n = refl
load-save_other (r ∷ rows) q id n = ground (arith, load-save_other rows q id n)

load_id :
    (rows : List PublicationRow) (id : ℕ) (p : PublicationRow) → load rows id ≡ some p → p.id ≡ id
load_id [] id p e = absurd (ground arith)
load_id (r ∷ rows) id p e = elim (Bool-cases (r.id == id)) [
  | inl hit ↦
      let first : r ≡ p = ground arith in
      ap (λ (x : PublicationRow). x.id) (sym first) ∙ (==_iff r.id id).0 hit
  | inr miss ↦ load_id rows id p (ground arith)
]

Change-Kept :
    {rows result : List PublicationRow} (id : ℕ) (p : PublicationRow)
    → Change rows result
    → load rows id ≡ some p
    → (q : PublicationRow) × (load result id ≡ some q) × IsKept p q
Change-Kept id p same e = (p, e, IsKept-refl p)
Change-Kept id p (appended {rows = rows} r subject_id source free waits sound) e =
    (p, load-append rows r id p e, IsKept-refl p)
Change-Kept id p (cleared {rows = rows} f less sound) e =
    (f p, load-map f rows id p less e, IsCleared-IsKept (less p))
Change-Kept id p (decided {rows = rows} r q there waits over key snapshot source author sound) e =
    elim (Bool-cases (q.id == id)) [
      | inl hit ↦
          let same_id : q.id ≡ id = (==_iff q.id id).0 hit in
          let mine : r ≡ p = ground (arith, ap (load rows) (sym key ∙ same_id)) in
          let kept : IsKept r q = record {
            snapshot = snapshot;
            source = inl source;
            author = inl author;
            final = λ h. absurd (ground arith);
          } in
          (
            q,
            subst (λ k. load (save q rows) k ≡ some q) same_id
                (load-save_same rows q r (ap (load rows) key ∙ there)),
            subst (λ x. IsKept x q) mine kept,
          )
      | inr miss ↦ (p, load-save_other rows q id miss ∙ e, IsKept-refl p)
    ]

-- Whatever is requested, decided and edited afterwards, and whatever accounts and subjects are
-- deleted, a stored request stays, and keeps its snapshot, and its subject and its author unless
-- they are cleared. Once it is decided its status stays, with the reviewer's name, the moment, the
-- note and the excluded items, and the reviewer and the copy unless they are cleared.
pub Later-Kept :
    {concept_of : ℕ → Option ℕ} {is_space : ℕ → Bool} {db result : Database} (p : PublicationRow)
    → Later concept_of is_space db result
    → load db.publications p.id ≡ some p
    → Kept p result.publications
Later-Kept p at_once e = (p, e, IsKept-refl p)
Later-Kept p (followed_by before s) e =
    let (q, there, kept) = Later-Kept p before e in
    let (r, there', kept') = Change-Kept p.id q (Step-Change s) there in
    (r, there', IsKept-trans kept kept')
