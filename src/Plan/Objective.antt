-- ===== src/Plan/Objective.antt =====
-- The ordering core of `generate_lesson_plan` in app/services/lesson_plan.py: stored prerequisites,
-- less those that close a cycle, then everything that the targets need, then one order of it.
use guru_alt.Common.{
  ℕ, ◌≡◌, sym, ap, ◌∙◌, true, ◌&&◌, inl, inr, ◌↔◌, Option, some, List, [], ◌∷◌, arith, ◌==◌, elem,
  elem-to_set, Distinct, keep, to_set, Bool-cases, ◌>>=◌,
}
use guru_alt.Graph.{Edge, Sifted, acyclic, dependents, next}
use guru_alt.Graph.Sift.{acyclic-IsRanked}
use guru_alt.Plan.Closure.{prerequisite_closure, prerequisite_closure_exact, backward, Needed}
use guru_alt.Plan.Order.{Sorted, order, within, topo_sort}
use guru_alt.Plan.Order.Kahn.{Respects}
use guru_alt.Plan.Order.Safe.{inner, topo_sort_ranked}

unfoldable pub plan_objective : List ℕ → List Edge → (ℕ → Option ℕ) → Option Sorted
plan_objective target_ids local_pairs tiebreak = do
  s ← acyclic local_pairs
  closure ← prerequisite_closure target_ids s.kept
  topo_sort closure s.kept tiebreak

elem-backward :
    (edges : List Edge) (p n : ℕ)
    → elem n (dependents edges p) ≡ true
    → elem p (dependents (backward edges) n) ≡ true
elem-backward [] p n h = cc
elem-backward (e ∷ edges) p n h = ground (arith, elem-backward edges p n)

-- In a set that holds the prerequisites of its components, all prerequisites count.
Respects-all :
    (nodes : List ℕ) (edges all_edges : List Edge) (done l : List ℕ)
    → ((p n : ℕ)
        → elem n nodes ≡ true
        → elem n (dependents all_edges p) ≡ true
        → elem n (dependents edges p) ≡ true)
    → ((n : ℕ) → elem n l ≡ true → elem n nodes ≡ true)
    → Respects edges done l
    → Respects all_edges done l
Respects-all nodes edges all_edges done [] sub inside r = tt
Respects-all nodes edges all_edges done (n ∷ l) sub inside r = (
  λ p e. r.0 p (sub p n (inside n (ground arith)) e),
  Respects-all nodes edges all_edges (n ∷ done) l sub (λ m h. inside m (ground arith)) r.1,
)

elem-inner :
    (nodes : List ℕ) (edges : List Edge) (p n : ℕ)
    → elem n (dependents edges p) ≡ true
    → elem n nodes ≡ true
    → elem p nodes ≡ true
    → elem n (dependents (keep (within nodes) edges) p) ≡ true
elem-inner nodes [] p n e hn hp = cc
elem-inner nodes (f ∷ edges) p n e hn hp = elim (Bool-cases (f.prereq_kc_id == p && f.kc_id == n)) [
  | inl hit ↦
      let a : f.prereq_kc_id ≡ p = ground arith in
      let b : f.kc_id ≡ n = ground arith in
      ground (arith, ap (λ (k : ℕ). elem k nodes) a, ap (λ (k : ℕ). elem k nodes) b)
  | inr miss ↦ ground (arith, elem-inner nodes edges p n)
]

pub record IsObjective (target_ids : List ℕ) (kept : List Edge) (l : List ℕ) : Type 0 where
  pub once : Distinct l
  pub exact : (n : ℕ) → (elem n l ≡ true) ↔ Needed target_ids kept n
  pub respects : Respects kept [] l

-- Ordering the components never fails for the graph's sake: it orders exactly the targets and what
-- they need, each component once, and each behind all its kept prerequisites.
pub plan_objective_total :
    (target_ids : List ℕ) (local_pairs : List Edge) (tiebreak : ℕ → Option ℕ)
    → (s : Sifted) × (acyclic local_pairs ≡ some s)
      × ((l : List ℕ) × (plan_objective target_ids local_pairs tiebreak ≡ some (order l))
          × IsObjective target_ids s.kept l)
unfolding plan_objective
plan_objective_total target_ids local_pairs tiebreak =
    let (s, sifts, (rank, ranked)) = acyclic-IsRanked local_pairs in
    let (c, closes, once, exact) = prerequisite_closure_exact target_ids s.kept in
    let (l, sorts, plan) = topo_sort_ranked c s.kept tiebreak rank ranked in
    (
      s,
      sifts,
      (
        l,
        rw (sifts, closes) sorts,
        record {
          once = plan.once;
          exact =
              λ n. ((λ h. (exact n).0 (sym (plan.same n) ∙ h)), (λ h. plan.same n ∙ (exact n).1 h));
          respects =
              Respects-all (to_set c) (inner c s.kept) s.kept [] l
                (λ p n hn e. elem-inner (to_set c) s.kept p n e hn (
                  elem-to_set p c
                  ∙ (exact p).1 (
                      let (t, a, w) = (exact n).0 (sym (elem-to_set n c) ∙ hn) in
                      (t, a, next w (elem-backward s.kept p n e)))))
                (λ n h. elem-to_set n c ∙ (sym (plan.same n) ∙ h)) plan.respects;
        },
      ),
    )
