-- ===== src/Publication/Review/Queue.antt =====
-- What holds of the review queue in every reached database.
use guru_alt.Common.{
  ap, map, ℕ, suc, ◌+◌, ◌≤◌, ◌≡◌, refl, sym, subst, Bool, true, false, inl, inr, Option, some, List,
  [], ◌∷◌, ◌++◌, arith, ◌==◌, any, all, if◌then◌else◌, Bool-cases,
}
use guru_alt.Publication.{PublicationStatus, PublicationRow, Database}
use guru_alt.Publication.Review.{names, is_pending, waits_for, save}
use guru_alt.Publication.Review.Outcome.{
  is_sound, IsCleared, Change, same, appended, decided, cleared, Step-Change,
}
use guru_alt.Publication.Review.Steps.{load, Reached, start, step}

-- How many requests of the subject wait for a review.
abbrev pub waiting : ℕ → List PublicationRow → ℕ
waiting subject_id [] = 0
waiting subject_id (p ∷ rows) =
    if waits_for subject_id p then suc (waiting subject_id rows) else waiting subject_id rows

pub record IsQueue (rows : List PublicationRow) : Type 0 where
  pub sound : all is_sound rows ≡ true
  pub single : (subject_id : ℕ) → waiting subject_id rows ≤ 1

pub load-is_sound :
    (rows : List PublicationRow) (id : ℕ) (p : PublicationRow)
    → all is_sound rows ≡ true
    → load rows id ≡ some p
    → is_sound p ≡ true
load-is_sound [] id p h e = absurd (ground arith)
load-is_sound (q ∷ rows) id p h e = elim (Bool-cases (q.id == id)) [
  | inl hit ↦
      let same : q ≡ p = ground arith in
      let first : is_sound q ≡ true = ground arith in subst (λ r. is_sound r ≡ true) same first
  | inr miss ↦ load-is_sound rows id p (ground arith) (ground arith)
]

save-is_sound :
    (q : PublicationRow) (rows : List PublicationRow)
    → is_sound q ≡ true
    → all is_sound rows ≡ true
    → all is_sound (save q rows) ≡ true
save-is_sound q [] s h = refl
save-is_sound q (p ∷ rows) s h = ground (arith, save-is_sound q rows)

waiting-save :
    (subject_id : ℕ) (q : PublicationRow) (rows : List PublicationRow)
    → is_pending q.status ≡ false
    → waiting subject_id (save q rows) ≤ waiting subject_id rows
waiting-save subject_id q [] h = omega arith
waiting-save subject_id q (p ∷ rows) h = ground (arith, waiting-save subject_id q rows)

waiting-append :
    (subject_id : ℕ) (p : PublicationRow) (rows : List PublicationRow)
    → waiting subject_id (rows ++ p ∷ [])
      ≡ waiting subject_id rows + (if waits_for subject_id p then 1 else 0)
waiting-append subject_id p [] = ground arith
waiting-append subject_id p (q ∷ rows) = ground (arith, waiting-append subject_id p rows)

waiting_none :
    (subject_id : ℕ) (rows : List PublicationRow)
    → any (waits_for subject_id) rows ≡ false
    → waiting subject_id rows ≡ 0
waiting_none subject_id [] h = refl
waiting_none subject_id (p ∷ rows) h = ground (arith, waiting_none subject_id rows)

all-append :
    (p : PublicationRow) (rows : List PublicationRow)
    → all is_sound rows ≡ true
    → is_sound p ≡ true
    → all is_sound (rows ++ p ∷ []) ≡ true
all-append p [] h s = ground arith
all-append p (q ∷ rows) h s = ground (arith, all-append p rows)

-- A row that is waiting may be replaced by a decided one.
save-IsQueue :
    (rows : List PublicationRow) (q : PublicationRow)
    → IsQueue rows
    → is_pending q.status ≡ false
    → is_sound q ≡ true
    → IsQueue (save q rows)
save-IsQueue rows q w h s = record {
  sound = save-is_sound q rows s w.sound;
  single = λ n. omega (arith, waiting-save n q rows h, w.single n);
}

append-IsQueue :
    (rows : List PublicationRow) (p : PublicationRow) (subject_id : ℕ)
    → IsQueue rows
    → p.source_subject_id ≡ some subject_id
    → any (waits_for subject_id) rows ≡ false
    → is_sound p ≡ true
    → IsQueue (rows ++ p ∷ [])
append-IsQueue rows p subject_id w source free s = record {
  sound = all-append p rows w.sound s;
  single =
      λ n. ground (arith, waiting-append n p rows, w.single n, waiting_none subject_id rows free);
}

map-is_sound :
    (f : PublicationRow → PublicationRow) (rows : List PublicationRow)
    → ((p : PublicationRow) → is_sound p ≡ true → is_sound (f p) ≡ true)
    → all is_sound rows ≡ true
    → all is_sound (map f rows) ≡ true
map-is_sound f [] sound h = refl
map-is_sound f (p ∷ rows) sound h = ground (arith, h, sound p, map-is_sound f rows sound)

waits_for-IsCleared :
    (subject_id : ℕ) (p q : PublicationRow)
    → IsCleared p q
    → waits_for subject_id q ≡ true
    → waits_for subject_id p ≡ true
waits_for-IsCleared subject_id p q c h = elim c.source [
  | inl kept ↦ ground (
    arith,
    h,
    ap (λ (o : Option ℕ). names o subject_id) kept,
    ap (λ (s : PublicationStatus). is_pending s) c.status,
  )
  | inr gone ↦ absurd (ground (arith, h, ap (λ (o : Option ℕ). names o subject_id) gone))
]

waiting-map :
    (subject_id : ℕ) (f : PublicationRow → PublicationRow) (rows : List PublicationRow)
    → ((p : PublicationRow) → IsCleared p (f p))
    → waiting subject_id (map f rows) ≤ waiting subject_id rows
waiting-map subject_id f [] less = omega arith
waiting-map subject_id f (p ∷ rows) less = elim (Bool-cases (waits_for subject_id (f p))) [
  | inl waits ↦
      let before = waits_for-IsCleared subject_id p (f p) (less p) waits in
      ground (arith, waits, before, waiting-map subject_id f rows less)
  | inr free ↦ ground (arith, free, waiting-map subject_id f rows less)
]

Change-IsQueue :
    {rows result : List PublicationRow} → Change rows result → IsQueue rows → IsQueue result
Change-IsQueue same w = w
Change-IsQueue (appended {rows = rows} p subject_id source free waits sound) w =
    append-IsQueue rows p subject_id w source free sound
Change-IsQueue (cleared {rows = rows} f less sound) w = record {
  sound = map-is_sound f rows sound w.sound;
  single = λ n. omega (arith, waiting-map n f rows less, w.single n);
}
Change-IsQueue (decided {rows = rows} p q there waits over id snapshot source author sound) w =
    save-IsQueue rows q w over (sound (load-is_sound rows p.id p w.sound there))

-- In every reached database, whatever was requested and decided and whatever accounts and subjects
-- were deleted, each publication is waiting without any sign of a review, or approved with the name
-- of a reviewer and a moment, or so rejected, with a note and without a copy, or cancelled without
-- a reviewer; its snapshot is closed; and of each subject at most one request waits.
pub Reached-IsQueue :
    {concept_of : ℕ → Option ℕ} {is_space : ℕ → Bool} {db : Database}
    → Reached concept_of is_space db
    → IsQueue db.publications
Reached-IsQueue (start none_yet) =
    subst IsQueue (sym none_yet) (record { sound = refl; single = λ n. omega arith })
Reached-IsQueue (step before s) = Change-IsQueue (Step-Change s) (Reached-IsQueue before)
