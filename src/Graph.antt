-- ===== src/Graph.antt =====
-- Directed graphs of prerequisites: the reachability search and the cycle filter of
-- app/learning/prerequisites.py. A node is a number, and an edge says that `prereq_kc_id` should
-- be mastered before `kc_id`: the pair of that file, and the class `Edge` of
-- app/learning/lesson_plan.py. A `dict` of lists is a function that gives `[]` for a missing key.
pub mod Reach
pub mod Rank
pub mod Sift
pub mod Names
use guru_alt.Common.{
  ℕ, zero, suc, ◌≡◌, Bool, true, false, ◌||◌, Option, none, some, List, [], ◌∷◌, ◌++◌, ◌==◌, length,
  elem, if◌then◌else◌, ◌>>=◌,
}

pub record Edge : Type 0 where
  pub prereq_kc_id : ℕ
  pub kc_id : ℕ

-- `stack.extend(xs)`, with the top of the stack in front.
unfoldable pub push_all : List ℕ → List ℕ → List ℕ
push_all [] stack = stack
push_all (x ∷ xs) stack = push_all xs (x ∷ stack)

-- The `while stack` loop of `_reaches`; `none` means that the fuel ran out.
unfoldable pub reaches_loop : ℕ → ℕ → (ℕ → List ℕ) → List ℕ → List ℕ → Option Bool
reaches_loop fuel goal successors [] seen = some false
reaches_loop zero goal successors (node ∷ stack) seen = none
reaches_loop (suc fuel) goal successors (node ∷ stack) seen =
    let skip = reaches_loop fuel goal successors stack seen in
    let expand =
      reaches_loop fuel goal successors (push_all (successors node) stack) (node ∷ seen) in
    if node == goal then some true else if elem node seen then skip else expand

-- Whether `goal` can be reached from `start` along the edges.
unfoldable pub reaches : ℕ → ℕ → ℕ → (ℕ → List ℕ) → Option Bool
unfolding reaches_loop push_all
reaches fuel start goal successors = reaches_loop fuel goal successors (start ∷ []) []

-- `successors.setdefault(prereq, []).append(dependent)`
unfoldable pub add_successor : (ℕ → List ℕ) → ℕ → ℕ → ℕ → List ℕ
add_successor successors prereq dependent n =
    if prereq == n then successors n ++ dependent ∷ [] else successors n

-- The three local variables of `acyclic`.
pub record Sifted : Type 0 where
  pub successors : ℕ → List ℕ
  pub kept : List Edge
  pub dropped : List Edge

-- One round of the loop of `acyclic`, after the search has answered.
unfoldable pub sift : Edge → Bool → Sifted → Sifted
unfolding add_successor
sift e true s = record s { dropped = s.dropped ++ e ∷ [] }
sift e false s = record {
  successors = add_successor s.successors e.prereq_kc_id e.kc_id;
  kept = s.kept ++ e ∷ [];
  dropped = s.dropped;
}

-- The search in a graph of n edges takes n + 1 rounds at most.
unfoldable pub acyclic_loop : List Edge → Sifted → Option Sifted
unfolding reaches sift
acyclic_loop [] s = some s
acyclic_loop (e ∷ edges) s =
    reaches (suc (length s.kept)) e.kc_id e.prereq_kc_id s.successors >>= λ closes.
    acyclic_loop edges (sift e closes s)

unfoldable pub acyclic : List Edge → Option Sifted
unfolding acyclic_loop
acyclic edges = acyclic_loop edges (record { successors = λ n. []; kept = []; dropped = [] })

-- The dependents of `n` in the order of the edges: what the dict of an edge list holds at `n`.
abbrev pub dependents : List Edge → ℕ → List ℕ
dependents [] n = []
dependents (e ∷ edges) n =
    if e.prereq_kc_id == n then e.kc_id ∷ dependents edges n else dependents edges n

-- The nodes that can be reached, as a relation.
pub data Walk (edges : List Edge) (a : ℕ) : ℕ → Type 0 where
  here : Walk edges a a
  next : {b c : ℕ} → Walk edges a b → elem c (dependents edges b) ≡ true → Walk edges a c
