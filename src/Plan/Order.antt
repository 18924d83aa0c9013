-- ===== src/Plan/Order.antt =====
-- `topo_sort` of app/learning/lesson_plan.py: Kahn's algorithm over the components of a plan.
-- The two dicts are functions that are read at the keys which they hold. The set of nodes is a list
-- with no repetition, since Python leaves the order of a set open. A tiebreak maps components to
-- numbers, and a component's text has the order of its number.
pub mod Degree
pub mod Kahn
pub mod Safe
use guru_alt.Common.{
  ℕ, zero, suc, ◌+◌, ◌-◌, Bool, true, false, not, ◌&&◌, Option, none, some, List, [], ◌∷◌, ◌++◌,
  ◌==◌, ltb, length, keep, elem, to_set, if◌then◌else◌, ◌>>=◌,
}
use guru_alt.Common.Sort.{sort, lex_le}
use guru_alt.Graph.{Edge, add_successor}

-- The order, or `CyclicPrerequisites` with the components that found no place.
pub data Sorted : Type 0 where
  order : List ℕ → Sorted
  cyclic : List ℕ → Sorted

pub record Degrees : Type 0 where
  pub indegree : ℕ → ℕ
  pub successors : ℕ → List ℕ

-- `d[k] += 1` and `d[k] -= 1`
abbrev pub increment : (ℕ → ℕ) → ℕ → ℕ → ℕ
increment d k n = if k == n then suc (d n) else d n

abbrev pub decrement : (ℕ → ℕ) → ℕ → ℕ → ℕ
decrement d k n = if k == n then d n - 1 else d n

-- Both ends of the edge are among the nodes.
abbrev pub within : List ℕ → Edge → Bool
within nodes e = elem e.kc_id nodes && elem e.prereq_kc_id nodes

-- One round of the loop that fills the two dicts; an edge that leaves the nodes is passed over.
unfoldable pub index_edge : List ℕ → Edge → Degrees → Degrees
unfolding add_successor
index_edge nodes e d =
    if within nodes e
    then record {
      indegree = increment d.indegree e.kc_id;
      successors = add_successor d.successors e.prereq_kc_id e.kc_id;
    }
    else d

unfoldable pub index_edges : List ℕ → List Edge → Degrees → Degrees
unfolding index_edge
index_edges nodes [] d = d
index_edges nodes (e ∷ edges) d = index_edges nodes edges (index_edge nodes e d)

-- `_key`: what the tiebreak knows comes first, then the rest by id.
unfoldable pub key : (ℕ → Option ℕ) → ℕ → ℕ × ℕ × ℕ
key tiebreak n = elim (tiebreak n) [ some known ↦ (0, known, 0) | none ↦ (1, 0, n) ]

unfoldable pub before : (ℕ → Option ℕ) → ℕ → ℕ → Bool
unfolding key
before tiebreak a b = lex_le (key tiebreak a) (key tiebreak b)

-- The inner loop: the new indegrees, and the components that have become ready.
unfoldable pub release : List ℕ → (ℕ → ℕ) → (ℕ → ℕ) × List ℕ
release [] indegree = (indegree, [])
release (succ ∷ rest) indegree =
    let lower = decrement indegree succ in
    let (last, newly_ready) = release rest lower in
    (last, if lower succ == 0 then succ ∷ newly_ready else newly_ready)

-- The `while ready` loop; `none` means that the fuel ran out.
unfoldable pub kahn :
    ℕ → (ℕ → Option ℕ) → (ℕ → List ℕ) → (ordered ready : List ℕ) → (ℕ → ℕ) → Option (List ℕ)
unfolding release sort before
kahn fuel tiebreak successors ordered [] indegree = some ordered
kahn zero tiebreak successors ordered (node ∷ ready) indegree = none
kahn (suc fuel) tiebreak successors ordered (node ∷ ready) indegree =
    kahn fuel tiebreak successors (ordered ++ node ∷ [])
      (sort (before tiebreak) (ready ++ (release (successors node) indegree).1))
      (release (successors node) indegree).0

-- The end of `topo_sort`: every node has its place, or the rest is in or behind a cycle.
unfoldable pub conclude : (ℕ → Option ℕ) → List ℕ → List ℕ → Sorted
unfolding sort before
conclude tiebreak nodes ordered =
    if ltb (length ordered) (length nodes)
    then cyclic (sort (before tiebreak) (keep (λ n. not (elem n ordered)) nodes))
    else order ordered

-- The loop takes one round for each node.
unfoldable pub topo_sort : List ℕ → List Edge → (ℕ → Option ℕ) → Option Sorted
unfolding index_edges kahn conclude sort before
topo_sort kc_ids edges tiebreak =
    let nodes = to_set kc_ids in
    let d = index_edges nodes edges (record { indegree = λ n. 0; successors = λ n. [] }) in
    kahn (length nodes) tiebreak d.successors []
      (sort (before tiebreak) (keep (λ n. d.indegree n == 0) nodes)) d.indegree
    >>= λ ordered. some (conclude tiebreak nodes ordered)
