-- ===== src/Plan/Order/Degree.antt =====
-- The dicts of `topo_sort` count the open prerequisites of each component.
use guru_alt.Common.{
  ℕ, suc, ◌+◌, ◌-◌, ◌≤◌, ◌<◌, ◌≡◌, refl, ap, sym, ◌∙◌, true, false, not, ◌&&◌, ◌⊎◌, inl, inr, List,
  [], ◌∷◌, ◌++◌, arith, ◌==◌, ==_iff, elem, elem-append, Distinct, keep, if◌then◌else◌, Bool-cases,
}
use guru_alt.Common.Sort.{count}
use mathlib.Core.List.{append_assoc, append-nil}
use guru_alt.Graph.{Edge, dependents}
use guru_alt.Plan.Order.{Degrees, decrement, within, index_edge, index_edges, release}

-- The edges into `n` whose prerequisite is not in `done`.
abbrev pub pending : List Edge → List ℕ → ℕ → ℕ
pending [] done n = 0
pending (e ∷ edges) done n =
    if e.kc_id == n && not (elem e.prereq_kc_id done)
    then suc (pending edges done n)
    else pending edges done n

pub indegree-index_edges :
    (nodes : List ℕ) (edges : List Edge) (d : Degrees) (n : ℕ)
    → (index_edges nodes edges d).indegree n
      ≡ d.indegree n + pending (keep (within nodes) edges) [] n
unfolding index_edges
indegree-index_edges nodes [] d n = omega arith
indegree-index_edges nodes (e ∷ edges) d n =
    indegree-index_edges nodes edges (index_edge nodes e d) n ∙ ground arith

pub successors-index_edges :
    (nodes : List ℕ) (edges : List Edge) (d : Degrees) (n : ℕ)
    → (index_edges nodes edges d).successors n
      ≡ d.successors n ++ dependents (keep (within nodes) edges) n
unfolding index_edges
successors-index_edges nodes [] d n = sym (append-nil (d.successors n))
successors-index_edges nodes (e ∷ edges) d n =
    successors-index_edges nodes edges (index_edge nodes e d) n
    ∙ ground (
      arith,
      append_assoc (d.successors n) (e.kc_id ∷ []) (dependents (keep (within nodes) edges) n),
    )

pub pending-cons :
    (edges : List Edge) (done : List ℕ) (node n : ℕ)
    → elem node done ≡ false
    → pending edges (done ++ node ∷ []) n + count n (dependents edges node) ≡ pending edges done n
pending-cons [] done node n h = omega arith
pending-cons (e ∷ edges) done node n h = ground (
  arith,
  pending-cons edges done node n h,
  elem-append e.prereq_kc_id done (node ∷ []),
  ==_iff e.prereq_kc_id node,
)

pub count-elem :
    (n : ℕ) (xs : List ℕ)
    → ((elem n xs ≡ true) × (0 < count n xs)) ⊎ ((elem n xs ≡ false) × (count n xs ≡ 0))
count-elem n [] = inr (refl, refl)
count-elem n (x ∷ xs) = ground (arith, count-elem n xs)

pub indegree-release :
    (succs : List ℕ) (d : ℕ → ℕ) (n : ℕ) → (release succs d).0 n ≡ d n - count n succs
unfolding release
indegree-release [] d n = omega arith
indegree-release (s ∷ succs) d n = ground (arith, indegree-release succs (decrement d s) n)

-- A component becomes ready when its last prerequisite is placed.
pub elem-release :
    (succs : List ℕ) (d : ℕ → ℕ) (n : ℕ)
    → ((m : ℕ) → count m succs ≤ d m)
    → elem n (release succs d).1 ≡ (elem n succs && (d n - count n succs == 0))
unfolding release
elem-release [] d n h = refl
elem-release (s ∷ succs) d n h =
    let ih = elem-release succs (decrement d s) n (λ m. ground (arith, h m)) in
    elim (Bool-cases (s == n)) [
      | inl same ↦
          let e : s ≡ n = (==_iff s n).0 same in ground (arith, ih, h n, count-elem n succs, ap d e)
      | inr other ↦ ground (arith, ih, h n, count-elem n succs)
    ]

pub release-Distinct :
    (succs : List ℕ) (d : ℕ → ℕ) → ((m : ℕ) → count m succs ≤ d m) → Distinct (release succs d).1
unfolding release
release-Distinct [] d h = tt
release-Distinct (s ∷ succs) d h =
    let low = λ (m : ℕ). let x : count m succs ≤ decrement d s m = ground (arith, h m) in x in
    let ih = release-Distinct succs (decrement d s) low in
    ground (arith, ih, elem-release succs (decrement d s) s low, low s, count-elem s succs, h s)
