-- ===== src/Examples/Graphs.antt =====
-- Prerequisite graphs: a cycle of three components, and one component behind it.
use guru_alt.Common.{
  ℕ, ◌≡◌, ◌⊎◌, ◌↔◌, refl, true, Option, some, List, [], ◌∷◌, arith, elem, Distinct,
}
use guru_alt.Graph.{Edge, Sifted, acyclic}
use guru_alt.Graph.Rank.{IsRanked}
use guru_alt.Graph.Sift.{Separated, acyclic_separates}
use guru_alt.Plan.Closure.{prerequisite_closure, Needed, prerequisite_closure_exact}
use guru_alt.Plan.Order.{order, cyclic, topo_sort}
use guru_alt.Plan.Order.Safe.{IsPlan, IsStuck, topo_sort_total}
use guru_alt.Plan.Objective.{IsObjective, plan_objective, plan_objective_total}

abbrev edge : ℕ → ℕ → Edge
edge p k = record { prereq_kc_id = p; kc_id = k }

abbrev ring : List Edge
ring = edge 1 2 ∷ edge 2 3 ∷ edge 3 1 ∷ edge 3 4 ∷ []

abbrev chain : List Edge
chain = edge 1 2 ∷ edge 2 3 ∷ []

abbrev slot : ℕ → Option ℕ
slot n = some n

-- The error of `topo_sort` also lists component 4, which is behind the cycle and not in it.
topo_sort-ring : topo_sort (1 ∷ 2 ∷ 3 ∷ 4 ∷ []) ring slot ≡ some (cyclic (1 ∷ 2 ∷ 3 ∷ 4 ∷ []))
unfolding topo_sort
topo_sort-ring = refl

plan_objective-ring : plan_objective (4 ∷ []) ring slot ≡ some (order (1 ∷ 2 ∷ 3 ∷ 4 ∷ []))
unfolding plan_objective acyclic prerequisite_closure topo_sort
plan_objective-ring = refl

acyclic_separates_example : (s : Sifted) × (acyclic ring ≡ some s) × Separated ring s
acyclic_separates_example = acyclic_separates ring

chain-IsRanked : IsRanked (λ n. n) chain
chain-IsRanked x y h = ground arith

prerequisite_closure_exact_example :
    (c : List ℕ) × (prerequisite_closure (3 ∷ []) chain ≡ some c)
    × Distinct c
    × ((n : ℕ) → (elem n c ≡ true) ↔ Needed (3 ∷ []) chain n)
prerequisite_closure_exact_example = prerequisite_closure_exact (3 ∷ []) chain

topo_sort_total_example :
    ((l : List ℕ) × (topo_sort (1 ∷ 2 ∷ 3 ∷ []) ring slot ≡ some (order l))
      × IsPlan (1 ∷ 2 ∷ 3 ∷ []) ring slot l)
    ⊎ ((u : List ℕ) × (topo_sort (1 ∷ 2 ∷ 3 ∷ []) ring slot ≡ some (cyclic u))
        × IsStuck (1 ∷ 2 ∷ 3 ∷ []) ring slot u)
topo_sort_total_example = topo_sort_total (1 ∷ 2 ∷ 3 ∷ []) ring slot

plan_objective_total_example :
    (s : Sifted) × (acyclic ring ≡ some s)
    × ((l : List ℕ) × (plan_objective (4 ∷ []) ring slot ≡ some (order l))
        × IsObjective (4 ∷ []) s.kept l)
plan_objective_total_example = plan_objective_total (4 ∷ []) ring slot
