-- ===== src/Erasure/Identity.antt =====
-- What the erasure of the account at the provider leaves as it is.
use guru_alt.Common.{
  ℕ, ◌≡◌, inl, inr, refl, Bool, true, not, ◌||◌, Option, none, some, any, elem, arith, ==_self,
  Bool-cases,
}
use guru_alt.Erasure.{ErasureKind, identity, Stores, is_of}
use guru_alt.Erasure.Account.{refuses_identity, erase_identity}
use guru_alt.Erasure.Objects.{elem-without}
use guru_alt.Erasure.Queue.{any-queue_erasure, queue_erasure-any}

pub any-erase_identity :
    (now : ℕ) (provider : Option (ℕ → Bool)) (subject : Option ℕ) (st : Stores) (kind : ErasureKind)
    (target : ℕ)
    → any (is_of kind target) st.pending ≡ true
    → any (is_of kind target) (erase_identity now provider subject st).pending ≡ true
any-erase_identity now provider none st kind target h = h
any-erase_identity now provider (some subject) st kind target h =
    elim (Bool-cases (refuses_identity provider subject)) [
      | inl no_ ↦ rw no_ (any-queue_erasure now kind identity target subject st.pending h)
      | inr done ↦ rw done h
    ]

pub erase_identity_spares :
    (now : ℕ) (provider : Option (ℕ → Bool)) (subject : Option ℕ) (st : Stores)
    → ((erase_identity now provider subject st).objects ≡ st.objects)
      × ((erase_identity now provider subject st).sources ≡ st.sources)
      × ((erase_identity now provider subject st).learners ≡ st.learners)
      × ((erase_identity now provider subject st).conversations ≡ st.conversations)
      × ((erase_identity now provider subject st).onboarding_sessions ≡ st.onboarding_sessions)
erase_identity_spares now provider none st = (refl, refl, refl, refl, refl)
erase_identity_spares now provider (some subject) st =
    elim (Bool-cases (refuses_identity provider subject)) [
      | inl no_ ↦ rw no_ (refl, refl, refl, refl, refl)
      | inr done ↦ rw done (refl, refl, refl, refl, refl)
    ]

pub identity_settles :
    (now : ℕ) (provider : Option (ℕ → Bool)) (s : ℕ) (st : Stores)
    → (not (elem s (erase_identity now provider (some s) st).identities)
        || any (is_of identity s) (erase_identity now provider (some s) st).pending)
      ≡ true
identity_settles now provider s st = elim (Bool-cases (refuses_identity provider s)) [
  | inl no_ ↦ rw no_ (ground (arith, queue_erasure-any now identity s st.pending))
  | inr done ↦ rw done (ground (arith, elem-without s s st.identities, ==_self s))
]

pub threads_spared :
    (now : ℕ) (provider : Option (ℕ → Bool)) (subject : Option ℕ) (st : Stores)
    → (erase_identity now provider subject st).threads ≡ st.threads
threads_spared now provider none st = refl
threads_spared now provider (some subject) st =
    elim (Bool-cases (refuses_identity provider subject)) [
      | inl no_ ↦ rw no_ refl
      | inr done ↦ rw done refl
    ]
