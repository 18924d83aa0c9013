-- ===== src/Erasure/Retry/Carried.antt =====
-- A queued erasure stays queued until it is carried out.
use guru_alt.Common.{
  ℕ, ◌≡◌, inl, inr, refl, sym, ap, ◌∙◌, Bool, true, false, not, ◌&&◌, ◌||◌, none, List, [], ◌∷◌,
  map, keep, any, elem, arith, ◌==◌, ==_iff, ==_self, if◌then◌else◌, Bool-cases,
}
use guru_alt.Erasure.{
  ErasureKind, blob, identity, checkpoint, PendingErasure, Stores, without, names_blob,
  is_blob_referenced, unreference_blob, is_of, same_kind,
}
use guru_alt.Erasure.Account.{Outside, refuses_identity}
use guru_alt.Erasure.Objects.{elem-without}
use guru_alt.Erasure.Rows.{is_blob_referenced-any}
use guru_alt.Erasure.Retry.{
  postponed, retry_blob, retry_kind, retry_one, Recorded, retry_row, retry_rows,
}

same_kind-≡ : (a b : ErasureKind) → same_kind a b ≡ true → a ≡ b
same_kind-≡ blob blob h = refl
same_kind-≡ blob identity h = absurd (ground arith)
same_kind-≡ blob checkpoint h = absurd (ground arith)
same_kind-≡ identity blob h = absurd (ground arith)
same_kind-≡ identity identity h = refl
same_kind-≡ identity checkpoint h = absurd (ground arith)
same_kind-≡ checkpoint blob h = absurd (ground arith)
same_kind-≡ checkpoint identity h = absurd (ground arith)
same_kind-≡ checkpoint checkpoint h = refl

pub is_of-≡ {ℓ} :
    {A : Type ℓ} (f : ErasureKind → ℕ → A) (kind : ErasureKind) (target : ℕ) (p : PendingErasure)
    → is_of kind target p ≡ true
    → f p.kind p.target ≡ f kind target
is_of-≡ f kind target p h =
    ap (λ (k : ErasureKind). f k p.target) (same_kind-≡ p.kind kind (ground (arith, h)))
    ∙ ap (f kind) ((==_iff p.target target).0 (ground (arith, h)))

pub is_of_self : (p : PendingErasure) → is_of p.kind p.target p ≡ true
is_of_self p = ground (arith, self p.kind, ==_self p.target)
  where
    self : (kind : ErasureKind) → same_kind kind kind ≡ true
    self blob = refl
    self identity = refl
    self checkpoint = refl

-- The stores hold it no longer, or a source names the file again.
abbrev pub is_carried_out : ErasureKind → ℕ → Stores → Bool
is_carried_out blob key st = any (names_blob key) st.sources || not (elem key st.objects)
is_carried_out identity subject st = not (elem subject st.identities)
is_carried_out checkpoint thread st = not (elem thread st.threads)

abbrev pub settled : ErasureKind → ℕ → Stores → Bool
settled kind target st = any (is_of kind target) st.pending || is_carried_out kind target st

-- Only the rows of the target itself are removed.
any_removed :
    (kind : ErasureKind) (target : ℕ) (row : PendingErasure) (pending : List PendingErasure)
    → is_of kind target row ≡ false
    → any (is_of kind target) (keep (λ p. not (is_of row.kind row.target p)) pending)
      ≡ any (is_of kind target) pending
any_removed kind target row [] other = refl
any_removed kind target row (p ∷ pending) other = elim (Bool-cases (is_of row.kind row.target p)) [
  | inl hit ↦
      let apart : is_of kind target p ≡ false =
        is_of-≡ (λ k t. same_kind k kind && t == target) row.kind row.target p hit ∙ other in
      ground (arith, hit, apart, any_removed kind target row pending other)
  | inr miss ↦ ground (arith, miss, any_removed kind target row pending other)
]

any-postponed :
    (now : ℕ) (kind : ErasureKind) (target : ℕ) (row : PendingErasure)
    (pending : List PendingErasure)
    → any
        (is_of kind target)
        (map (λ p. if is_of row.kind row.target p then postponed now p else p) pending)
      ≡ any (is_of kind target) pending
any-postponed now kind target row [] = refl
any-postponed now kind target row (p ∷ pending) = elim (Bool-cases (is_of row.kind row.target p)) [
  | inl hit ↦ rw hit (ground (arith, any-postponed now kind target row pending))
  | inr miss ↦ rw miss (ground (arith, any-postponed now kind target row pending))
]

module _ (out : Outside) (now : ℕ) (row : PendingErasure) (st : Stores) where
  -- A try leaves the queue as it is, but for the moments, or removes a row that is carried out.
  data Ended (kind : ErasureKind) (st' : Stores) : Type 0 where
    waits :
        ((k : ErasureKind) (t : ℕ) → any (is_of k t) st'.pending ≡ any (is_of k t) st.pending)
        → Ended kind st'
    ends :
        st'.pending ≡ keep (λ p. not (is_of row.kind row.target p)) st.pending
        → is_carried_out kind row.target st' ≡ true
        → Ended kind st'

  blob-Ended : Ended blob (
      retry_blob now row st
        (unreference_blob out.refuses_object row.target none st.sources st.objects))
  unfolding unreference_blob
  blob-Ended = elim (Bool-cases (is_blob_referenced row.target none st.sources)) [
    | inl named ↦
        let again : any (names_blob row.target) st.sources ≡ true =
          sym (is_blob_referenced-any row.target st.sources) ∙ named in
        rw named (ends refl (ground (arith, again)))
    | inr unnamed ↦ elim (Bool-cases (out.refuses_object row.target)) [
      | inl no_ ↦ rw (unnamed, no_) (waits (λ k t. any-postponed now k t row st.pending))
      | inr done ↦
          rw (unnamed, done)
            (ends refl
              (ground (arith, elem-without row.target row.target st.objects, ==_self row.target)))
    ]
  ]

  retry_kind-Ended : (kind : ErasureKind) → Ended kind (retry_kind out now row st kind)
  retry_kind-Ended blob = blob-Ended
  retry_kind-Ended checkpoint = elim (Bool-cases (out.refuses_thread row.target)) [
    | inl no_ ↦ rw no_ (waits (λ k t. any-postponed now k t row st.pending))
    | inr done ↦ rw done (
        ends refl
          (ground (arith, elem-without row.target row.target st.threads, ==_self row.target)))
  ]
  retry_kind-Ended identity = elim (Bool-cases (refuses_identity out.provider row.target)) [
    | inl no_ ↦ rw no_ (waits (λ k t. any-postponed now k t row st.pending))
    | inr done ↦ rw done (
        ends refl
          (ground (arith, elem-without row.target row.target st.identities, ==_self row.target)))
  ]

  -- The stores hold nothing that they did not hold before.
  record IsLater (st' : Stores) : Type 0 where
    sources : st'.sources ≡ st.sources
    objects : (a : ℕ) → elem a st.objects ≡ false → elem a st'.objects ≡ false
    identities : (a : ℕ) → elem a st.identities ≡ false → elem a st'.identities ≡ false
    threads : (a : ℕ) → elem a st.threads ≡ false → elem a st'.threads ≡ false

  queue_only : (pending : List PendingErasure) → IsLater (record st { pending = pending })
  queue_only pending = record {
    sources = refl;
    objects = λ a h. h;
    identities = λ a h. h;
    threads = λ a h. h;
  }

  gone : (a key : ℕ) (held : List ℕ) → elem a held ≡ false → elem a (without key held) ≡ false
  gone a key held h = ground (arith, h, elem-without a key held)

  blob-IsLater : IsLater (
      retry_blob now row st
        (unreference_blob out.refuses_object row.target none st.sources st.objects))
  unfolding unreference_blob
  blob-IsLater = elim (Bool-cases (is_blob_referenced row.target none st.sources)) [
    | inl named ↦ rw named (queue_only _)
    | inr unnamed ↦ elim (Bool-cases (out.refuses_object row.target)) [
      | inl no_ ↦ rw (unnamed, no_) (queue_only _)
      | inr done ↦
          rw (unnamed, done)
            (record {
              sources = refl;
              objects = λ a h. gone a row.target st.objects h;
              identities = λ a h. h;
              threads = λ a h. h;
            })
    ]
  ]

  retry_kind-IsLater : (kind : ErasureKind) → IsLater (retry_kind out now row st kind)
  retry_kind-IsLater blob = blob-IsLater
  retry_kind-IsLater checkpoint = elim (Bool-cases (out.refuses_thread row.target)) [
    | inl no_ ↦ rw no_ (queue_only _)
    | inr done ↦ rw done (record {
      sources = refl;
      objects = λ a h. h;
      identities = λ a h. h;
      threads = λ a h. gone a row.target st.threads h;
    })
  ]
  retry_kind-IsLater identity = elim (Bool-cases (refuses_identity out.provider row.target)) [
    | inl no_ ↦ rw no_ (queue_only _)
    | inr done ↦ rw done (record {
      sources = refl;
      objects = λ a h. h;
      identities = λ a h. gone a row.target st.identities h;
      threads = λ a h. h;
    })
  ]

  carried_stays :
      (kind : ErasureKind) (target : ℕ) (st' : Stores)
      → IsLater st'
      → is_carried_out kind target st ≡ true
      → is_carried_out kind target st' ≡ true
  carried_stays blob target st' later h =
      ground (arith, h, later.objects target, ap (any (names_blob target)) later.sources)
  carried_stays identity target st' later h = ground (arith, h, later.identities target)
  carried_stays checkpoint target st' later h = ground (arith, h, later.threads target)

  Ended-settled :
      (kind : ErasureKind) (target : ℕ) (st' : Stores)
      → Ended row.kind st'
      → IsLater st'
      → settled kind target st ≡ true
      → settled kind target st' ≡ true
  Ended-settled kind target st' (waits same) later h =
      ground (arith, h, same kind target, carried_stays kind target st' later)
  Ended-settled kind target st' (ends removed done) later h =
      elim (Bool-cases (is_of kind target row)) [
        | inl hit ↦
            let out_ : is_carried_out kind target st' ≡ true =
              sym (is_of-≡ (λ k t. is_carried_out k t st') kind target row hit) ∙ done in
            ground (arith, out_)
        | inr other ↦ ground (
          arith,
          h,
          ap (any (is_of kind target)) removed ∙ any_removed kind target row st.pending other,
          carried_stays kind target st' later,
        )
      ]

  retry_row-settled :
      (recorded : Recorded) (kind : ErasureKind) (target : ℕ)
      → settled kind target st ≡ true
      → settled kind target (retry_row out recorded now row st) ≡ true
  unfolding retry_one
  retry_row-settled recorded kind target h =
      let tried = retry_one out now row st in
      let later : IsLater tried = retry_kind-IsLater row.kind in
      elim (Bool-cases (recorded row.kind row.target)) [
        | inl taken ↦ rw taken (Ended-settled kind target tried (retry_kind-Ended row.kind) later h)
        | inr failed ↦
            let back : Stores = record tried { pending = st.pending } in
            let kept : settled kind target back ≡ true =
              Ended-settled kind target back (waits (λ k t. refl))
                (record {
                  sources = later.sources;
                  objects = later.objects;
                  identities = later.identities;
                  threads = later.threads;
                })
                h in
            rw failed kept
      ]

pub retry_rows-settled :
    (out : Outside) (recorded : Recorded) (now : ℕ) (kind : ErasureKind) (target : ℕ)
    (rows : List PendingErasure) (st : Stores)
    → settled kind target st ≡ true
    → settled kind target (retry_rows out recorded now rows st) ≡ true
retry_rows-settled out recorded now kind target [] st h = h
retry_rows-settled out recorded now kind target (row ∷ rows) st h =
    retry_rows-settled out recorded now kind target rows (retry_row out recorded now row st)
      (retry_row-settled out now row st recorded kind target h)
