-- ===== src/Erasure/Queue.antt =====
-- What is queued stays queued.
use guru_alt.Common.{
  ℕ, ◌≡◌, inl, inr, refl, subst, true, List, [], ◌∷◌, any, elem, arith, ◌==◌, ==_iff, ==_self,
  Bool-cases,
}
use guru_alt.Erasure.{
  ErasureKind, blob, identity, checkpoint, PendingErasure, is_of, same_kind, queue_erasure,
}
use guru_alt.Erasure.Account.{queue_all}

pub any-queue_erasure :
    (now : ℕ) (kind kind' : ErasureKind) (target target' : ℕ) (pending : List PendingErasure)
    → any (is_of kind target) pending ≡ true
    → any (is_of kind target) (queue_erasure now kind' target' pending) ≡ true
unfolding queue_erasure
any-queue_erasure now kind kind' target target' pending h =
    elim (Bool-cases (any (is_of kind' target') pending)) [
      | inl there ↦ rw there h
      | inr new ↦ rw new (ground (arith, h))
    ]

same_kind_self : (kind : ErasureKind) → same_kind kind kind ≡ true
same_kind_self blob = refl
same_kind_self identity = refl
same_kind_self checkpoint = refl

pub queue_erasure-any :
    (now : ℕ) (kind : ErasureKind) (target : ℕ) (pending : List PendingErasure)
    → any (is_of kind target) (queue_erasure now kind target pending) ≡ true
unfolding queue_erasure
queue_erasure-any now kind target pending = elim (Bool-cases (any (is_of kind target) pending)) [
  | inl there ↦ rw there there
  | inr new ↦ rw new (ground (arith, same_kind_self kind, ==_self target))
]

pub any-queue_all :
    (now : ℕ) (kind kind' : ErasureKind) (target : ℕ) (targets : List ℕ)
    (pending : List PendingErasure)
    → any (is_of kind target) pending ≡ true
    → any (is_of kind target) (queue_all now kind' targets pending) ≡ true
unfolding queue_all
any-queue_all now kind kind' target [] pending h = h
any-queue_all now kind kind' target (t ∷ targets) pending h =
    any-queue_all now kind kind' target targets (queue_erasure now kind' t pending)
      (any-queue_erasure now kind kind' target t pending h)

pub queue_all-any :
    (now : ℕ) (kind : ErasureKind) (target : ℕ) (targets : List ℕ) (pending : List PendingErasure)
    → elem target targets ≡ true
    → any (is_of kind target) (queue_all now kind targets pending) ≡ true
unfolding queue_all
queue_all-any now kind target [] pending h = absurd (ground arith)
queue_all-any now kind target (t ∷ targets) pending h = elim (Bool-cases (t == target)) [
  | inl hit ↦ any-queue_all now kind kind target targets (queue_erasure now kind t pending) (
      subst (λ k. any (is_of kind k) (queue_erasure now kind t pending) ≡ true)
        ((==_iff t target).0 hit) (queue_erasure-any now kind t pending))
  | inr miss ↦
      queue_all-any now kind target targets (queue_erasure now kind t pending)
        (ground (arith, h, miss))
]
