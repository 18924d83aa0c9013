-- ===== src/Erasure/Objects.antt =====
-- What the erasure of objects leaves in the store, and what it reports as refused.
use guru_alt.Common.{
  ℕ, ◌≡◌, inl, inr, refl, ap, subst, ◌∙◌, Bool, true, false, not, ◌&&◌, ◌||◌, none, List, [], ◌∷◌,
  elem, elem-append, arith, ◌==◌, ==_iff, ==_self, Bool-cases,
}
use guru_alt.Erasure.{SourceBlob, is_blob_referenced, without, unreference_blob}
use guru_alt.Erasure.Account.{objects_after, failed_after, erase_blobs, erase_artifacts}

pub elem-without :
    (a key : ℕ) (objects : List ℕ)
    → elem a (without key objects) ≡ (elem a objects && not (a == key))
elem-without a key [] = refl
elem-without a key (x ∷ objects) = ground (arith, elem-without a key objects)

elem-objects_after :
    (refuses : ℕ → Bool) (sources : List SourceBlob) (a key : ℕ) (objects : List ℕ)
    → elem a (objects_after (unreference_blob refuses key none sources objects) objects)
      ≡ (elem a objects && (not (a == key) || is_blob_referenced key none sources || refuses key))
unfolding unreference_blob
elem-objects_after refuses sources a key objects =
    elim (Bool-cases (is_blob_referenced key none sources)) [
      | inl named ↦ rw named (ground arith)
      | inr unnamed ↦ elim (Bool-cases (refuses key)) [
        | inl no_ ↦ rw (unnamed, no_) (ground arith)
        | inr done ↦ rw (unnamed, done) (ground (arith, elem-without a key objects))
      ]
    ]

elem-failed_after :
    (refuses : ℕ → Bool) (sources : List SourceBlob) (key : ℕ) (objects : List ℕ)
    → elem key (failed_after key (unreference_blob refuses key none sources objects))
      ≡ (not (is_blob_referenced key none sources) && refuses key)
unfolding unreference_blob
elem-failed_after refuses sources key objects =
    elim (Bool-cases (is_blob_referenced key none sources)) [
      | inl named ↦ rw named refl
      | inr unnamed ↦ elim (Bool-cases (refuses key)) [
        | inl no_ ↦ rw (unnamed, no_) (ground (arith, ==_self key))
        | inr done ↦ rw (unnamed, done) refl
      ]
    ]

pub gone-erase_blobs :
    (refuses : ℕ → Bool) (sources : List SourceBlob) (a : ℕ) (keys objects : List ℕ)
    → elem a objects ≡ false
    → elem a (erase_blobs refuses sources keys objects).0 ≡ false
unfolding erase_blobs
gone-erase_blobs refuses sources a [] objects h = h
gone-erase_blobs refuses sources a (key ∷ keys) objects h =
    gone-erase_blobs refuses sources a keys _
      (ground (arith, h, elem-objects_after refuses sources a key objects))

pub kept-erase_blobs :
    (refuses : ℕ → Bool) (sources : List SourceBlob) (a : ℕ) (keys objects : List ℕ)
    → is_blob_referenced a none sources ≡ true
    → elem a (erase_blobs refuses sources keys objects).0 ≡ elem a objects
unfolding erase_blobs
kept-erase_blobs refuses sources a [] objects h = refl
kept-erase_blobs refuses sources a (key ∷ keys) objects h =
    kept-erase_blobs refuses sources a keys _ h
    ∙ (elem-objects_after refuses sources a key objects ∙ elim (Bool-cases (a == key)) [
      | inl hit ↦
          ground (arith, hit, ap (λ k. is_blob_referenced k none sources) ((==_iff a key).0 hit), h)
      | inr miss ↦ ground (arith, miss)
    ])

abbrev pub settles : ℕ → List SourceBlob → List ℕ × List ℕ → Bool
settles a sources (left, failed) =
    is_blob_referenced a none sources || not (elem a left) || elem a failed

erase_blobs-here :
    (refuses : ℕ → Bool) (sources : List SourceBlob) (key : ℕ) (keys objects : List ℕ)
    → settles key sources (erase_blobs refuses sources (key ∷ keys) objects) ≡ true
unfolding erase_blobs
erase_blobs-here refuses sources key keys objects =
    let d = unreference_blob refuses key none sources objects in
    let left = objects_after d objects in
    let split = elem-append key (failed_after key d) (erase_blobs refuses sources keys left).1 in
    elim (Bool-cases (is_blob_referenced key none sources)) [
      | inl named ↦ rw named refl
      | inr unnamed ↦ elim (Bool-cases (refuses key)) [
        | inl no_ ↦
            ground (arith, split, elem-failed_after refuses sources key objects, unnamed, no_)
        | inr done ↦
            let gone = gone-erase_blobs refuses sources key keys left (
              ground (
                arith,
                elem-objects_after refuses sources key key objects,
                unnamed,
                done,
                ==_self key,
              )) in
            ground (arith, gone)
      ]
    ]

-- Each key is still named, is gone, or was refused.
pub erase_blobs-settles :
    (refuses : ℕ → Bool) (sources : List SourceBlob) (a : ℕ) (keys objects : List ℕ)
    → elem a keys ≡ true
    → settles a sources (erase_blobs refuses sources keys objects) ≡ true
unfolding erase_blobs
erase_blobs-settles refuses sources a [] objects h = absurd (ground arith)
erase_blobs-settles refuses sources a (key ∷ keys) objects h = elim (Bool-cases (key == a)) [
  | inl hit ↦
      subst (λ k. settles k sources (erase_blobs refuses sources (key ∷ keys) objects) ≡ true)
        ((==_iff key a).0 hit) (erase_blobs-here refuses sources key keys objects)
  | inr miss ↦
      let d = unreference_blob refuses key none sources objects in
      let left = objects_after d objects in
      ground (
        arith,
        erase_blobs-settles refuses sources a keys left (ground (arith, h, miss)),
        elem-append a (failed_after key d) (erase_blobs refuses sources keys left).1,
      )
]

-- Keys of saved extractions are not those of blobs.
pub kept-erase_artifacts :
    (refuses : ℕ → Bool) (a : ℕ) (keys objects : List ℕ)
    → elem a keys ≡ false
    → elem a (erase_artifacts refuses keys objects).0 ≡ elem a objects
unfolding erase_artifacts
kept-erase_artifacts refuses a [] objects h = refl
kept-erase_artifacts refuses a (key ∷ keys) objects h = elim (Bool-cases (refuses key)) [
  | inl no_ ↦ rw no_ (kept-erase_artifacts refuses a keys objects (ground (arith, h)))
  | inr done ↦ rw done (
      kept-erase_artifacts refuses a keys (without key objects) (ground (arith, h))
      ∙ (elem-without a key objects ∙ ground (arith, h)))
]

pub gone-erase_artifacts :
    (refuses : ℕ → Bool) (a : ℕ) (keys objects : List ℕ)
    → elem a objects ≡ false
    → elem a (erase_artifacts refuses keys objects).0 ≡ false
unfolding erase_artifacts
gone-erase_artifacts refuses a [] objects h = h
gone-erase_artifacts refuses a (key ∷ keys) objects h = elim (Bool-cases (refuses key)) [
  | inl no_ ↦ rw no_ (gone-erase_artifacts refuses a keys objects h)
  | inr done ↦ rw done (
      gone-erase_artifacts refuses a keys (without key objects)
        (elem-without a key objects ∙ ground (arith, h)))
]

-- Each key is gone, or was refused.
pub erase_artifacts-settles :
    (refuses : ℕ → Bool) (a : ℕ) (keys objects : List ℕ)
    → elem a keys ≡ true
    → (not (elem a (erase_artifacts refuses keys objects).0)
        || elem a (erase_artifacts refuses keys objects).1)
      ≡ true
unfolding erase_artifacts
erase_artifacts-settles refuses a [] objects h = absurd (ground arith)
erase_artifacts-settles refuses a (key ∷ keys) objects h = elim (Bool-cases (refuses key)) [
  | inl no_ ↦ elim (Bool-cases (key == a)) [
    | inl hit ↦ rw no_ (ground (arith, hit))
    | inr miss ↦ rw no_ (
        ground
          (arith, miss, erase_artifacts-settles refuses a keys objects (ground (arith, h, miss))))
  ]
  | inr done ↦ elim (Bool-cases (key == a)) [
    | inl hit ↦
        let out_ : elem a (without key objects) ≡ false =
          ground (arith, elem-without a key objects, (==_iff key a).0 hit, ==_self a) in
        rw done (ground (arith, gone-erase_artifacts refuses a keys (without key objects) out_))
    | inr miss ↦
        rw done
          (erase_artifacts-settles refuses a keys (without key objects) (ground (arith, h, miss)))
  ]
]
