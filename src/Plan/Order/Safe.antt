-- ===== src/Plan/Order/Safe.antt =====
-- What `topo_sort` promises: a complete order that honours every prerequisite, or a set of
-- components that wait for one another; and that the edges kept by `acyclic` always have an order.
use guru_alt.Common.{
  ℕ, zero, suc, ◌≤◌, ◌<◌, ◌≡◌, refl, ap, subst, ◌∙◌, fun_ext, Bool, true, false, not, ◌&&◌, ◌⊎◌,
  inl, inr, Option, some, List, [], ◌∷◌, arith, ◌==◌, ==_iff, ltb, length, elem, Distinct, keep,
  to_set, elem-to_set, to_set-Distinct, Bool-cases, ◌>>=◌,
}
use guru_alt.Common.Sort.{sort, elem-sort, sort-Distinct, length-le_of_Distinct}
use guru_alt.Graph.{Edge, Sifted, acyclic, dependents}
use guru_alt.Graph.Rank.{IsRanked}
use guru_alt.Graph.Sift.{acyclic-IsRanked}
use guru_alt.Plan.Order.{
  order, cyclic, Degrees, within, before, index_edges, kahn, conclude, topo_sort,
}
use guru_alt.Plan.Order.Degree.{indegree-index_edges, successors-index_edges}
use guru_alt.Plan.Order.Kahn.{Respects, Inv, kahn_ends, pending-pos}

elem-keep : (p : ℕ → Bool) (a : ℕ) (xs : List ℕ) → elem a (keep p xs) ≡ (elem a xs && p a)
elem-keep p a [] = refl
elem-keep p a (x ∷ xs) = elim (Bool-cases (x == a)) [
  | inl same ↦ let e : x ≡ a = (==_iff x a).0 same in ground (arith, elem-keep p a xs, ap p e)
  | inr other ↦ ground (arith, elem-keep p a xs)
]

keep-Distinct : (p : ℕ → Bool) (xs : List ℕ) → Distinct xs → Distinct (keep p xs)
keep-Distinct p [] d = tt
keep-Distinct p (x ∷ xs) d = ground (arith, keep-Distinct p xs, elem-keep p x xs)

-- The edges between the components, in their order.
abbrev pub inner : List ℕ → List Edge → List Edge
inner kc_ids edges = keep (within (to_set kc_ids)) edges

inner_inside :
    (nodes : List ℕ) (edges : List Edge) (p n : ℕ)
    → elem n (dependents (keep (within nodes) edges) p) ≡ true
    → elem n nodes ≡ true
inner_inside nodes [] p n h = cc
inner_inside nodes (e ∷ edges) p n h = elim (Bool-cases (e.kc_id == n)) [
  | inl same ↦
      let q : e.kc_id ≡ n = (==_iff e.kc_id n).0 same in
      ground (arith, inner_inside nodes edges p n, ap (λ (k : ℕ). elem k nodes) q)
  | inr other ↦ ground (arith, inner_inside nodes edges p n)
]

inner_source :
    (nodes : List ℕ) (edges : List Edge) (p n : ℕ)
    → elem n (dependents (keep (within nodes) edges) p) ≡ true
    → elem p nodes ≡ true
inner_source nodes [] p n h = cc
inner_source nodes (e ∷ edges) p n h = elim (Bool-cases (e.prereq_kc_id == p)) [
  | inl same ↦
      let q : e.prereq_kc_id ≡ p = (==_iff e.prereq_kc_id p).0 same in
      ground (arith, inner_source nodes edges p n, ap (λ (k : ℕ). elem k nodes) q)
  | inr other ↦ ground (arith, inner_source nodes edges p n)
]

-- Either a list holds all of another, or one element is missing.
find_missing :
    (xs ys : List ℕ)
    → ((n : ℕ) × (elem n xs ≡ true) × (elem n ys ≡ false))
      ⊎ ((n : ℕ) → elem n xs ≡ true → elem n ys ≡ true)
find_missing [] ys = inr (λ n h. cc)
find_missing (x ∷ xs) ys = elim (Bool-cases (elem x ys)) [
  | inr absent ↦ inl (x, ground arith, absent)
  | inl there ↦ elim (find_missing xs ys) [
    | inl (n, a, b) ↦ inl (n, ground arith, b)
    | inr covered ↦ inr λ n h. elim (Bool-cases (x == n)) [
      | inl same ↦ subst (λ k. elem k ys ≡ true) ((==_iff x n).0 same) there
      | inr other ↦ covered n (ground arith)
    ]
  ]
]

inner_subset :
    (nodes : List ℕ) (edges : List Edge) (p n : ℕ)
    → elem n (dependents (keep (within nodes) edges) p) ≡ true
    → elem n (dependents edges p) ≡ true
inner_subset nodes [] p n h = h
inner_subset nodes (e ∷ edges) p n h = ground (arith, inner_subset nodes edges p n)

abbrev zero_degrees : Degrees
zero_degrees = record { indegree = λ n. 0; successors = λ n. [] }

module _ (kc_ids : List ℕ) (edges : List Edge) (tiebreak : ℕ → Option ℕ) where
  abbrev nodes : List ℕ
  nodes = to_set kc_ids

  abbrev start : Degrees
  start = index_edges nodes edges zero_degrees

  abbrev first_ready : List ℕ
  first_ready = sort (before tiebreak) (keep (λ n. start.indegree n == 0) nodes)

  start-successors : start.successors ≡ dependents (inner kc_ids edges)
  start-successors = fun_ext (λ n. successors-index_edges nodes edges zero_degrees n)

  start-Inv : Inv nodes (inner kc_ids edges) [] first_ready start.indegree
  start-Inv = record {
    degrees = λ n. omega (arith, indegree-index_edges nodes edges zero_degrees n);
    placed = λ n.
        elem-sort (before tiebreak) n (keep (λ m. start.indegree m == 0) nodes)
        ∙ elem-keep (λ m. start.indegree m == 0) n nodes;
    once = tt;
    ready_once =
        sort-Distinct (before tiebreak) (keep (λ m. start.indegree m == 0) nodes)
          (keep-Distinct (λ m. start.indegree m == 0) nodes (to_set-Distinct kc_ids));
    apart = λ n h. absurd (ground arith);
    respects = tt;
  }

  record Run : Type 0 where
    final : List ℕ
    runs : topo_sort kc_ids edges tiebreak ≡ some (conclude tiebreak nodes final)
    last : ℕ → ℕ
    inv : Inv nodes (inner kc_ids edges) final [] last

  run : Run
  unfolding topo_sort
  run =
      let (final, ends, (last, inv)) =
        kahn_ends nodes (inner kc_ids edges) (inner_inside nodes edges) tiebreak (length nodes) []
          first_ready start.indegree (omega arith) start-Inv in
      record {
        final = final;
        runs =
            ap (λ (m : Option (List ℕ)). m >>= λ o. some (conclude tiebreak nodes o))
              (ap (λ (f : ℕ → List ℕ). kahn (length nodes) tiebreak f [] first_ready start.indegree)
                  start-successors
                ∙ ends);
        last = last;
        inv = inv;
      }

  -- The size test at the end tells whether a component was left out.
  missing :
      (n : ℕ) (final : List ℕ) {last : ℕ → ℕ}
      → Inv nodes (inner kc_ids edges) final [] last
      → elem n nodes ≡ true
      → elem n final ≡ false
      → suc (length final) ≤ length nodes
  missing n final inv there absent =
      length-le_of_Distinct (n ∷ final) nodes (absent, inv.once)
        (λ a h. elim (Bool-cases (n == a)) [
          | inl same ↦ subst (λ k. elem k nodes ≡ true) ((==_iff n a).0 same) there
          | inr other ↦ ground (arith, inv.placed a)
        ])

  -- An order holds each component once, and nothing else, each behind its prerequisites.
  pub record IsPlan (l : List ℕ) : Type 0 where
    pub once : Distinct l
    pub same : (n : ℕ) → elem n l ≡ elem n kc_ids
    pub respects : Respects (inner kc_ids edges) [] l

  -- Each component that found no place waits for another such component.
  pub record IsStuck (u : List ℕ) : Type 0 where
    pub some_left : (n : ℕ) × (elem n u ≡ true)
    pub asked : (n : ℕ) → elem n u ≡ true → elem n kc_ids ≡ true
    pub waits :
        (n : ℕ)
        → elem n u ≡ true
        → (p : ℕ) × (elem p u ≡ true) × (elem n (dependents (inner kc_ids edges) p) ≡ true)

  abbrev left_over : List ℕ → List ℕ
  left_over final = sort (before tiebreak) (keep (λ n. not (elem n final)) nodes)

  elem-left_over :
      (final : List ℕ) (n : ℕ) → elem n (left_over final) ≡ (elem n nodes && not (elem n final))
  elem-left_over final n =
      elem-sort (before tiebreak) n (keep (λ m. not (elem m final)) nodes)
      ∙ elem-keep (λ m. not (elem m final)) n nodes

  conclude-cases :
      (final : List ℕ) {last : ℕ → ℕ}
      → Inv nodes (inner kc_ids edges) final [] last
      → ((conclude tiebreak nodes final ≡ order final) × IsPlan final)
        ⊎ ((u : List ℕ) × (conclude tiebreak nodes final ≡ cyclic u) × IsStuck u)
  unfolding conclude
  conclude-cases final inv = elim (Bool-cases (ltb (length final) (length nodes))) [
    | inr full ↦ inl (
      rw full,
      record {
        once = inv.once;
        same = λ n. ground (arith, inv.placed n, elem-to_set n kc_ids, missing n final inv);
        respects = inv.respects;
      },
    )
    | inl short ↦ inr (
      left_over final,
      rw short,
      record {
        some_left = elim (find_missing nodes final) [
          | inl (n, there, absent) ↦ (n, ground (arith, elem-left_over final n))
          | inr covered ↦
              absurd
                (ground (arith, length-le_of_Distinct nodes final (to_set-Distinct kc_ids) covered))
        ];
        asked = λ n h. ground (arith, elem-left_over final n, elem-to_set n kc_ids);
        waits = λ n h.
            let (p, edge, open_p) =
              pending-pos (inner kc_ids edges) final n
                (ground (arith, inv.placed n, inv.degrees n, elem-left_over final n)) in
            (p, ground (arith, elem-left_over final p, inner_source nodes edges p n edge), edge);
      },
    )
  ]

  -- `topo_sort` always ends: with an order that holds each component once and honours each
  -- prerequisite between them, or with the components that wait for one another.
  pub topo_sort_total :
      ((l : List ℕ) × (topo_sort kc_ids edges tiebreak ≡ some (order l)) × IsPlan l)
      ⊎ ((u : List ℕ) × (topo_sort kc_ids edges tiebreak ≡ some (cyclic u)) × IsStuck u)
  topo_sort_total = elim (conclude-cases run.final run.inv) [
    | inl (e, plan) ↦ inl (run.final, run.runs ∙ ap some e, plan)
    | inr (u, e, stuck) ↦ inr (u, run.runs ∙ ap some e, stuck)
  ]

  ranked-not_stuck :
      (rank : ℕ → ℕ) (u : List ℕ)
      → IsRanked rank edges
      → IsStuck u
      → (k n : ℕ) → elem n u ≡ true
      → ¬ (rank n < k)
  ranked-not_stuck rank u ranked stuck zero n h below = absurd (omega arith)
  ranked-not_stuck rank u ranked stuck (suc k) n h below =
      let (p, there, e) = stuck.waits n h in
      ranked-not_stuck rank u ranked stuck k p there
        (omega (arith, ranked p n (inner_subset nodes edges p n e)))

  pub topo_sort_ranked :
      (rank : ℕ → ℕ)
      → IsRanked rank edges
      → (l : List ℕ) × (topo_sort kc_ids edges tiebreak ≡ some (order l)) × IsPlan l
  topo_sort_ranked rank ranked = elim topo_sort_total [
    | inl plan ↦ plan
    | inr (u, _, stuck) ↦
        let (n, there) = stuck.some_left in
        absurd (ranked-not_stuck rank u ranked stuck (suc (rank n)) n there (omega arith))
  ]

-- Whatever the stored edges are, those that `acyclic` keeps give an order: a plan is never refused
-- for a cycle.
topo_sort-acyclic :
    (kc_ids : List ℕ) (edges : List Edge) (tiebreak : ℕ → Option ℕ)
    → (s : Sifted) × (acyclic edges ≡ some s)
      × ((l : List ℕ) × (topo_sort kc_ids s.kept tiebreak ≡ some (order l))
          × IsPlan kc_ids s.kept tiebreak l)
topo_sort-acyclic kc_ids edges tiebreak =
    let (s, runs, (rank, ranked)) = acyclic-IsRanked edges in
    (s, runs, topo_sort_ranked kc_ids s.kept tiebreak rank ranked)
