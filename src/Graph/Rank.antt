-- ===== src/Graph/Rank.antt =====
-- A graph has no cycle when its nodes can be numbered upwards along its edges. Adding an edge that
-- closes no cycle keeps such a numbering: what lies behind the edge is lifted.
use guru_alt.Common.{
  ℕ, suc, ◌+◌, ◌≤◌, ◌<◌, ◌≡◌, refl, subst, Bool, true, false, ◌&&◌, ◌||◌, inl, inr, none, some,
  List, [], ◌∷◌, ◌++◌, arith, ◌==◌, length, elem, elem-append, if◌then◌else◌, Bool-cases,
}
use guru_alt.Graph.{Edge, reaches, dependents, Walk, here, next}
use guru_alt.Graph.Reach.{reaches-Walk}

abbrev pub IsRanked : (ℕ → ℕ) → List Edge → Type 0
IsRanked rank edges = (x y : ℕ) → elem y (dependents edges x) ≡ true → rank x < rank y

pub rank-Walk :
    {rank : ℕ → ℕ} {edges : List Edge} {a b : ℕ}
    → IsRanked rank edges
    → Walk edges a b
    → rank a ≤ rank b
rank-Walk ranked here = omega arith
rank-Walk ranked (next {b = b} {c = c} w e) = omega (arith, ranked b c e, rank-Walk ranked w)

-- No node of a ranked graph is reached from what depends on it.
pub ranked-no_cycle :
    {rank : ℕ → ℕ} {edges : List Edge} (x y : ℕ)
    → IsRanked rank edges
    → elem y (dependents edges x) ≡ true
    → ¬ Walk edges y x
ranked-no_cycle x y ranked e w = omega (arith, ranked x y e, rank-Walk ranked w)

pub dependents-append :
    (edges : List Edge) (e : Edge) (n : ℕ)
    → dependents (edges ++ e ∷ []) n
      ≡ (if e.prereq_kc_id == n then dependents edges n ++ e.kc_id ∷ [] else dependents edges n)
dependents-append [] e n = refl
dependents-append (f ∷ edges) e n = ground (arith, dependents-append edges e n)

pub elem-dependents-append :
    (edges : List Edge) (e : Edge) (x y : ℕ)
    → elem y (dependents (edges ++ e ∷ []) x)
      ≡ (elem y (dependents edges x) || (e.prereq_kc_id == x && e.kc_id == y))
elem-dependents-append edges e x y =
    ground (arith, dependents-append edges e x, elem-append y (dependents edges x) (e.kc_id ∷ []))

pub Walk-append :
    {edges : List Edge} {a b : ℕ} (e : Edge) → Walk edges a b → Walk (edges ++ e ∷ []) a b
Walk-append e here = here
Walk-append {edges = edges} e (next {b = b} {c = c} w h) =
    next (Walk-append e w) (ground (arith, elem-dependents-append edges e b c))

-- Whether a walk exists, by the search itself.
reached : List Edge → ℕ → ℕ → Bool
reached edges a b = elim (reaches (suc (length edges)) a b (dependents edges)) [
  | none ↦ false
  | some answer ↦ answer
]

reached-of_Walk : (edges : List Edge) {a b : ℕ} → Walk edges a b → reached edges a b ≡ true
unfolding reached
reached-of_Walk edges {a} {b} w = elim (reaches-Walk edges b (suc (length edges)) a (omega arith)) [
  | inl (e, _) ↦ rw (e, reached)
  | inr (_, absent) ↦ absurd (absent w)
]

Walk-of_reached : (edges : List Edge) (a b : ℕ) → reached edges a b ≡ true → Walk edges a b
unfolding reached
Walk-of_reached edges a b h = elim (reaches-Walk edges b (suc (length edges)) a (omega arith)) [
  | inl (_, w) ↦ w
  | inr (e, _) ↦ absurd (ground arith)
]

module _ (edges : List Edge) (rank : ℕ → ℕ) (e : Edge) where
  lifted : ℕ → ℕ
  lifted x = if reached edges e.kc_id x then rank x + suc (rank e.prereq_kc_id) else rank x

  lifted-old :
      (x y : ℕ) → IsRanked rank edges → elem y (dependents edges x) ≡ true → lifted x < lifted y
  unfolding lifted
  lifted-old x y ranked h = elim (Bool-cases (reached edges e.kc_id x)) [
    | inl r ↦
        ground
          (arith, ranked x y h, reached-of_Walk edges (next (Walk-of_reached edges e.kc_id x r) h))
    | inr r ↦ ground (arith, ranked x y h)
  ]

  lifted-new : ¬ Walk edges e.kc_id e.prereq_kc_id → lifted e.prereq_kc_id < lifted e.kc_id
  unfolding lifted
  lifted-new open_edge =
      let loop : Walk edges e.kc_id e.kc_id = here in
      elim (Bool-cases (reached edges e.kc_id e.prereq_kc_id)) [
        | inl r ↦ absurd (open_edge (Walk-of_reached edges e.kc_id e.prereq_kc_id r))
        | inr r ↦ ground (arith, reached-of_Walk edges loop)
      ]

  pub lifted-IsRanked :
      IsRanked rank edges
      → ¬ Walk edges e.kc_id e.prereq_kc_id
      → (r : ℕ → ℕ) × IsRanked r (edges ++ e ∷ [])
  lifted-IsRanked ranked open_edge = (
    lifted,
    λ x y h. elim (Bool-cases (elem y (dependents edges x))) [
      | inl old ↦ lifted-old x y ranked old
      | inr new ↦
          let from : e.prereq_kc_id ≡ x = ground (arith, elem-dependents-append edges e x y) in
          let to : e.kc_id ≡ y = ground (arith, elem-dependents-append edges e x y) in
          subst (λ k. lifted k < lifted y) from
            (subst (λ k. lifted e.prereq_kc_id < lifted k) to (lifted-new open_edge))
    ],
  )
