-- ===== src/Knowledge/Edges.antt =====
-- The prerequisite edges of app/services/knowledge.py. The table is the list of its rows. An insert
-- runs under one lock until its commit, so that the writes of all sessions come one after another,
-- which is how `Edited` orders them. The recursive query collects the nodes that it reaches, each
-- once, as `UNION` does. The constraints of the table are those of app/models/knowledge.py: each
-- one that fails raises the same `IntegrityError`, whose cause is told apart here. `is_kc` says
-- which components exist when the edge is inserted.
use guru_alt.Common.{
  ℕ, ◌+◌, ◌≡◌, ◌≢◌, refl, sym, subst, ◌∙◌, Bool, true, false, not, ◌&&◌, ◌⊎◌, inl, inr, Option,
  some, List, [], ◌∷◌, ◌++◌, arith, ◌==◌, length, keep, any, elem, if◌then◌else◌, Bool-cases, ◌>>=◌,
}
use guru_alt.Graph.{Edge, dependents, Walk, here, next}
use guru_alt.Graph.Rank.{elem-dependents-append}
use guru_alt.Plan.Closure.{closure_loop, closure_loop_exact}

-- What an insert ends with: the new table, or one of the refusals.
pub data Added : Type 0 where
  added : List Edge → Added
  would_create_cycle_error : Added
  self_loop_error : Added
  duplicate_error : Added
  missing_kc_error : Added

-- The recursive query of `would_create_cycle`; `none` means that the fuel ran out.
unfoldable pub reachable : List Edge → ℕ → Option (List ℕ)
unfolding closure_loop
reachable table kc_id =
    let first = dependents table kc_id in
    closure_loop (length first + length table) (dependents table) first []

unfoldable pub would_create_cycle : List Edge → ℕ → ℕ → Option Bool
unfolding reachable
would_create_cycle table kc_id prereq_kc_id =
    reachable table kc_id >>= λ nodes. some (elem prereq_kc_id nodes)

abbrev pub is_edge : ℕ → ℕ → Edge → Bool
is_edge kc_id prereq_kc_id e = e.kc_id == kc_id && e.prereq_kc_id == prereq_kc_id

-- The insert, which the table's constraints may refuse.
unfoldable pub insert_edge : (ℕ → Bool) → List Edge → ℕ → ℕ → Added
insert_edge is_kc table kc_id prereq_kc_id =
    if prereq_kc_id == kc_id
    then self_loop_error
    else if any (is_edge kc_id prereq_kc_id) table
    then duplicate_error
    else if not (is_kc kc_id && is_kc prereq_kc_id)
    then missing_kc_error
    else added (table ++ record { prereq_kc_id = prereq_kc_id; kc_id = kc_id } ∷ [])

unfoldable pub add_prerequisite : (ℕ → Bool) → List Edge → ℕ → ℕ → Option Added
unfolding would_create_cycle insert_edge
add_prerequisite is_kc table kc_id prereq_kc_id =
    would_create_cycle table kc_id prereq_kc_id >>= λ closes.
    some (if closes then would_create_cycle_error else insert_edge is_kc table kc_id prereq_kc_id)

-- The table without the row, and whether there was one.
unfoldable pub remove_prerequisite : List Edge → ℕ → ℕ → List Edge × Bool
remove_prerequisite table kc_id prereq_kc_id =
    if any (is_edge kc_id prereq_kc_id) table
    then (keep (λ e. not (is_edge kc_id prereq_kc_id e)) table, true)
    else (table, false)

-- The edges that are left when a component is deleted: those to and from it go with it.
abbrev pub without_kc : ℕ → List Edge → List Edge
without_kc kc_id table = keep (λ e. not (e.kc_id == kc_id) && not (e.prereq_kc_id == kc_id)) table

-- The tables that the two operations and the deletion of components make of one, in any order and
-- with any arguments.
pub data Edited (before : List Edge) : List Edge → Type 0 where
  unchanged : Edited before before
  after_add :
      {table result : List Edge} (is_kc : ℕ → Bool) (kc_id prereq_kc_id : ℕ)
      → Edited before table
      → add_prerequisite is_kc table kc_id prereq_kc_id ≡ some (added result)
      → Edited before result
  after_remove :
      {table result : List Edge} (kc_id prereq_kc_id : ℕ)
      → Edited before table
      → (remove_prerequisite table kc_id prereq_kc_id).0 ≡ result
      → Edited before result
  after_delete :
      {table : List Edge} (kc_id : ℕ) → Edited before table → Edited before (without_kc kc_id table)

-- A walk of at least one edge.
abbrev pub Leads : List Edge → ℕ → ℕ → Type 0
Leads table a b = (m : ℕ) × (elem m (dependents table a) ≡ true) × Walk table m b

cons-Walk :
    {table : List Edge} {a m b : ℕ}
    → elem m (dependents table a) ≡ true
    → Walk table m b
    → Walk table a b
cons-Walk h here = next here h
cons-Walk h (next w e) = next (cons-Walk h w) e

uncons-Walk : {table : List Edge} {a b : ℕ} → Walk table a b → (a ≡ b) ⊎ Leads table a b
uncons-Walk here = inl refl
uncons-Walk {table = table} {a = a} (next {b = m} {c = c} w e) = elim (uncons-Walk w) [
  | inl same ↦ inr (c, subst (λ k. elem c (dependents table k) ≡ true) (sym same) e, here)
  | inr (n, h, w') ↦ inr (n, h, next w' e)
]

-- `would_create_cycle` always answers, and yes exactly if a walk of at least one edge leads from
-- the dependent component to its new prerequisite.
would_create_cycle_exact :
    (table : List Edge) (kc_id prereq_kc_id : ℕ)
    → ((would_create_cycle table kc_id prereq_kc_id ≡ some true) × Leads table kc_id prereq_kc_id)
      ⊎ ((would_create_cycle table kc_id prereq_kc_id ≡ some false)
          × (¬ Leads table kc_id prereq_kc_id))
unfolding would_create_cycle
would_create_cycle_exact table kc_id prereq_kc_id =
    let (c, ends, once, exact) = closure_loop_exact (dependents table kc_id) table in
    elim (Bool-cases (elem prereq_kc_id c)) [
      | inl hit ↦ inl (rw (ends, hit) refl, (exact prereq_kc_id).0 hit)
      | inr miss ↦
          inr (rw (ends, miss) refl, λ w. absurd (ground (arith, (exact prereq_kc_id).1 w)))
    ]

elem-dependents-keep :
    (q : Edge → Bool) (table : List Edge) (x y : ℕ)
    → elem y (dependents (keep q table) x) ≡ true
    → elem y (dependents table x) ≡ true
elem-dependents-keep q [] x y h = h
elem-dependents-keep q (e ∷ table) x y h = ground (arith, elem-dependents-keep q table x y)

join-Walk : {table : List Edge} {a b c : ℕ} → Walk table a b → Walk table b c → Walk table a c
join-Walk w here = w
join-Walk w (next v e) = next (join-Walk w v) e

-- An edge from x to y that a walk leads back from.
abbrev pub OnCycle : List Edge → ℕ → ℕ → Type 0
OnCycle table x y = (elem y (dependents table x) ≡ true) × Walk table y x

keep-Walk :
    (q : Edge → Bool) (table : List Edge) {a b : ℕ} → Walk (keep q table) a b → Walk table a b
keep-Walk q table here = here
keep-Walk q table (next {b = b} {c = c} w e) =
    next (keep-Walk q table w) (elem-dependents-keep q table b c e)

keep-OnCycle :
    (q : Edge → Bool) (table : List Edge) {x y : ℕ} → OnCycle (keep q table) x y → OnCycle table x y
keep-OnCycle q table {x = x} {y = y} (e, w) =
    (elem-dependents-keep q table x y e, keep-Walk q table w)

module _ (table : List Edge) (row : Edge) where
  -- A walk over one more edge is a walk without it, or leads to its one end and on from the other.
  grown-Walk :
      {a b : ℕ}
      → Walk (table ++ row ∷ []) a b
      → Walk table a b ⊎ (Walk table a row.prereq_kc_id × Walk table row.kc_id b)
  grown-Walk here = inl here
  grown-Walk {a = a} (next {b = b} {c = c} w e) = elim (Bool-cases (elem c (dependents table b))) [
    | inl old ↦ elim (grown-Walk w) [
      | inl v ↦ inl (next v old)
      | inr (to, from) ↦ inr (to, next from old)
    ]
    | inr new ↦
        let start : row.prereq_kc_id ≡ b = ground (arith, elem-dependents-append table row b c) in
        let end_ : row.kc_id ≡ c = ground (arith, elem-dependents-append table row b c) in
        let from : Walk table row.kc_id c = subst (Walk table row.kc_id) end_ here in
        elim (grown-Walk w) [
          | inl v ↦ inr (subst (Walk table a) (sym start) v, from)
          | inr (to, _) ↦ inr (to, from)
        ]
  ]

  -- Without a walk from the one end back to the other, the new edge closes no cycle.
  grown-OnCycle :
      {x y : ℕ}
      → ¬ Walk table row.kc_id row.prereq_kc_id
      → OnCycle (table ++ row ∷ []) x y
      → OnCycle table x y
  grown-OnCycle {x = x} {y = y} open_end (e, w) = elim (Bool-cases (elem y (dependents table x))) [
    | inl old ↦ elim (grown-Walk w) [
      | inl v ↦ (old, v)
      | inr (to, from) ↦ absurd (open_end (join-Walk (next from old) to))
    ]
    | inr new ↦
        let start : row.prereq_kc_id ≡ x = ground (arith, elem-dependents-append table row x y) in
        let end_ : row.kc_id ≡ y = ground (arith, elem-dependents-append table row x y) in
        elim (grown-Walk w) [
          | inl v ↦ absurd (
              open_end (
                subst (λ k. Walk table k row.prereq_kc_id) (sym end_)
                  (subst (Walk table y) (sym start) v)))
          | inr (to, _) ↦
              absurd (open_end (subst (λ k. Walk table k row.prereq_kc_id) (sym end_) to))
        ]
  ]

add_prerequisite-OnCycle :
    (is_kc : ℕ → Bool) (table result : List Edge) (kc_id prereq_kc_id : ℕ) {x y : ℕ}
    → add_prerequisite is_kc table kc_id prereq_kc_id ≡ some (added result)
    → OnCycle result x y
    → OnCycle table x y
unfolding add_prerequisite
add_prerequisite-OnCycle is_kc table result kc_id prereq_kc_id {x = x} {y = y} e cycle =
    elim (would_create_cycle_exact table kc_id prereq_kc_id) [
      | inl (yes_, _) ↦ absurd (ground arith)
      | inr (no_, open_end) ↦ elim (Bool-cases (prereq_kc_id == kc_id)) [
        | inl self ↦ absurd (ground arith)
        | inr other ↦
            let row : Edge = record { prereq_kc_id = prereq_kc_id; kc_id = kc_id } in
            let same : table ++ row ∷ [] ≡ result = ground arith in
            grown-OnCycle table row
              (λ w. elim (uncons-Walk w) [
                | inl equal ↦ absurd (ground arith)
                | inr leads ↦ open_end leads
              ])
              (subst (λ t. OnCycle t x y) (sym same) cycle)
      ]
    ]

remove_prerequisite-OnCycle :
    (table : List Edge) (kc_id prereq_kc_id : ℕ) {x y : ℕ}
    → OnCycle (remove_prerequisite table kc_id prereq_kc_id).0 x y
    → OnCycle table x y
unfolding remove_prerequisite
remove_prerequisite-OnCycle table kc_id prereq_kc_id cycle =
    elim (Bool-cases (any (is_edge kc_id prereq_kc_id) table)) [
      | inl there ↦ keep-OnCycle (λ e. not (is_edge kc_id prereq_kc_id e)) table (rw there at cycle)
      | inr absent ↦ rw absent at cycle
    ]

-- Whatever edges are added and removed and whatever components are deleted, no cycle is new: an
-- edge that lies on a cycle afterwards was stored before, and lay on a cycle then. So a table
-- without a cycle stays without one.
pub Edited-no_new_cycle :
    {before table : List Edge} (x y : ℕ)
    → Edited before table
    → OnCycle table x y
    → OnCycle before x y
Edited-no_new_cycle x y unchanged cycle = cycle
Edited-no_new_cycle x y (after_add {table = t} {result = r} is_kc k p before e) cycle =
    Edited-no_new_cycle x y before (add_prerequisite-OnCycle is_kc t r k p e cycle)
Edited-no_new_cycle x y (after_remove {table = t} k p before e) cycle =
    Edited-no_new_cycle x y before
      (remove_prerequisite-OnCycle t k p (subst (λ r. OnCycle r x y) (sym e) cycle))
Edited-no_new_cycle x y (after_delete {table = t} k before) cycle =
    Edited-no_new_cycle x y before (keep-OnCycle _ t cycle)

-- An edge is always answered: with the cycle, if a walk leads from the dependent to the
-- prerequisite; with a violated constraint, if its ends are one component, it is stored already, or
-- a component does not exist; and else, which is if none of these holds, with the table that ends
-- with it.
pub add_prerequisite-cases :
    (is_kc : ℕ → Bool) (table : List Edge) (kc_id prereq_kc_id : ℕ)
    → ((add_prerequisite is_kc table kc_id prereq_kc_id ≡ some would_create_cycle_error)
        × Leads table kc_id prereq_kc_id)
      ⊎ (((add_prerequisite is_kc table kc_id prereq_kc_id ≡ some self_loop_error)
            × (kc_id ≡ prereq_kc_id))
          ⊎ (((add_prerequisite is_kc table kc_id prereq_kc_id ≡ some duplicate_error)
                × (any (is_edge kc_id prereq_kc_id) table ≡ true))
              ⊎ (((add_prerequisite is_kc table kc_id prereq_kc_id ≡ some missing_kc_error)
                    × ((is_kc kc_id && is_kc prereq_kc_id) ≡ false))
                  ⊎ ((add_prerequisite is_kc table kc_id prereq_kc_id
                        ≡ some (
                            added (
                              table ++ record { prereq_kc_id = prereq_kc_id; kc_id = kc_id } ∷ [])))
                      × (kc_id ≢ prereq_kc_id)
                      × (any (is_edge kc_id prereq_kc_id) table ≡ false)
                      × ((is_kc kc_id && is_kc prereq_kc_id) ≡ true)
                      × (¬ Leads table kc_id prereq_kc_id)))))
unfolding add_prerequisite
add_prerequisite-cases is_kc table kc_id prereq_kc_id =
    elim (would_create_cycle_exact table kc_id prereq_kc_id) [
      | inl (hit, leads) ↦ inl (rw hit refl, leads)
      | inr (miss, free) ↦ elim (Bool-cases (prereq_kc_id == kc_id)) [
        | inl self ↦ inr (inl (rw (miss, self) refl, ground arith))
        | inr other ↦ elim (Bool-cases (any (is_edge kc_id prereq_kc_id) table)) [
          | inl twice ↦ inr (inr (inl (rw (miss, other, twice) refl, twice)))
          | inr fresh ↦ elim (Bool-cases (is_kc kc_id && is_kc prereq_kc_id)) [
            | inr missing ↦ inr (inr (inr (inl (rw (miss, other, fresh, missing) refl, missing))))
            | inl there ↦ inr (
                inr (
                  inr (
                    inr (
                      rw (miss, other, fresh, there) refl,
                      (λ e. absurd (ground arith)),
                      fresh,
                      there,
                      free,
                    ))))
          ]
        ]
      ]
    ]

any-is_edge : (table : List Edge) (k p : ℕ) → any (is_edge k p) table ≡ elem k (dependents table p)
any-is_edge [] k p = refl
any-is_edge (e ∷ table) k p = ground (arith, any-is_edge table k p)

elem-removed :
    (table : List Edge) (k p x y : ℕ)
    → elem y (dependents (keep (λ e. not (is_edge k p e)) table) x)
      ≡ (elem y (dependents table x) && not (y == k && x == p))
elem-removed [] k p x y = refl
elem-removed (e ∷ table) k p x y = ground (arith, elem-removed table k p x y)

-- A removed edge is gone and every other one stays; what is answered is whether it was there.
remove_prerequisite_exact :
    (table : List Edge) (kc_id prereq_kc_id x y : ℕ)
    → (elem y (dependents (remove_prerequisite table kc_id prereq_kc_id).0 x)
        ≡ (elem y (dependents table x) && not (y == kc_id && x == prereq_kc_id)))
      × ((remove_prerequisite table kc_id prereq_kc_id).1
          ≡ elem kc_id (dependents table prereq_kc_id))
unfolding remove_prerequisite
remove_prerequisite_exact table kc_id prereq_kc_id x y =
    elim (Bool-cases (any (is_edge kc_id prereq_kc_id) table)) [
      | inl there ↦ rw there (
        elem-removed table kc_id prereq_kc_id x y,
        sym there ∙ any-is_edge table kc_id prereq_kc_id,
      )
      | inr absent ↦ rw absent (
        untouched (sym (any-is_edge table kc_id prereq_kc_id) ∙ absent),
        sym absent ∙ any-is_edge table kc_id prereq_kc_id,
      )
    ]
  where
    untouched :
        elem kc_id (dependents table prereq_kc_id) ≡ false
        → elem y (dependents table x)
          ≡ (elem y (dependents table x) && not (y == kc_id && x == prereq_kc_id))
    untouched h = elim (Bool-cases (y == kc_id && x == prereq_kc_id)) [
      | inl hit ↦
          let a : y ≡ kc_id = ground arith in
          let b : x ≡ prereq_kc_id = ground arith in
          let c : elem y (dependents table x) ≡ false = rw (a, b) h in rw (hit, c)
      | inr miss ↦ ground arith
    ]
