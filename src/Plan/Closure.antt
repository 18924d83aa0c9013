-- ===== src/Plan/Closure.antt =====
-- `prerequisite_closure` of app/learning/lesson_plan.py: a breadth-first search backward over the
-- prerequisite edges. A Python set is a list with no repetition.
use guru_alt.Common.{
  ℕ, zero, suc, ◌+◌, ◌≤◌, ◌≡◌, refl, sym, ap, fun_ext, ◌∙◌, true, false, ◌||◌, ◌↔◌, inl, inr,
  Option, none, some, List, [], ◌∷◌, ◌++◌, arith, ◌==◌, ==_iff, length, length-append, elem,
  elem-append, Distinct, if◌then◌else◌, Bool-cases,
}
use mathlib.Core.List.{append_assoc, append-nil}
use guru_alt.Graph.{Edge, add_successor, dependents, Walk, here, next}
use guru_alt.Graph.Reach.{
  unseen, unseen-cons, unseen-nil, IsClosed, IsClosed-expand, IsClosed-skip, closed-Walk,
}

-- The loop that fills `prereqs_of`.
unfoldable pub index_prereqs : List Edge → (ℕ → List ℕ) → ℕ → List ℕ
unfolding add_successor
index_prereqs [] prereqs_of = prereqs_of
index_prereqs (e ∷ edges) prereqs_of =
    index_prereqs edges (add_successor prereqs_of e.kc_id e.prereq_kc_id)

-- The `while queue` loop; `none` means that the fuel ran out.
unfoldable pub closure_loop : ℕ → (ℕ → List ℕ) → (queue closure : List ℕ) → Option (List ℕ)
closure_loop fuel prereqs_of [] closure = some closure
closure_loop zero prereqs_of (kc_id ∷ queue) closure = none
closure_loop (suc fuel) prereqs_of (kc_id ∷ queue) closure =
    let skip = closure_loop fuel prereqs_of queue closure in
    let visit = closure_loop fuel prereqs_of (queue ++ prereqs_of kc_id) (kc_id ∷ closure) in
    if elem kc_id closure then skip else visit

-- A round for each target and one for each edge are enough.
unfoldable pub prerequisite_closure : List ℕ → List Edge → Option (List ℕ)
unfolding index_prereqs closure_loop
prerequisite_closure target_ids edges =
    closure_loop (length target_ids + length edges) (index_prereqs edges (λ n. [])) target_ids []

-- The edge read backward.
abbrev pub backward : List Edge → List Edge
backward [] = []
backward (e ∷ edges) = record { prereq_kc_id = e.kc_id; kc_id = e.prereq_kc_id } ∷ backward edges

-- `n` is a target or, step by step, a prerequisite of one.
abbrev pub Needed : List ℕ → List Edge → ℕ → Type 0
Needed target_ids edges n = (t : ℕ) × (elem t target_ids ≡ true) × Walk (backward edges) t n

index_prereqs-dependents :
    (edges : List Edge) (f : ℕ → List ℕ) (n : ℕ)
    → index_prereqs edges f n ≡ f n ++ dependents (backward edges) n
unfolding index_prereqs
index_prereqs-dependents [] f n = sym (append-nil (f n))
index_prereqs-dependents (e ∷ edges) f n =
    index_prereqs-dependents edges (add_successor f e.kc_id e.prereq_kc_id) n
    ∙ ground (arith, append_assoc (f n) (e.prereq_kc_id ∷ []) (dependents (backward edges) n))

length-backward : (edges : List Edge) → length (backward edges) ≡ length edges
length-backward [] = refl
length-backward (e ∷ edges) = ap suc (length-backward edges)

elem-extend : (a : ℕ) (queue more : List ℕ) → elem a (queue ++ more) ≡ (elem a more || elem a queue)
elem-extend a queue more = ground (arith, elem-append a queue more)

-- `n` can be reached from a member of the list.
abbrev pub From : List ℕ → List Edge → ℕ → Type 0
From target_ids edges n = (t : ℕ) × (elem t target_ids ≡ true) × Walk edges t n

module _ (target_ids : List ℕ) (back : List Edge) where
  record Inv (queue closure : List ℕ) : Type 0 where
    needed : (n : ℕ) → (elem n closure || elem n queue) ≡ true → From target_ids back n
    closed : IsClosed back closure queue
    targets : (n : ℕ) → elem n target_ids ≡ true → (elem n closure || elem n queue) ≡ true
    once : Distinct closure

  Inv-skip :
      (kc_id : ℕ) (queue closure : List ℕ)
      → elem kc_id closure ≡ true
      → Inv (kc_id ∷ queue) closure
      → Inv queue closure
  Inv-skip kc_id queue closure old inv = record {
    needed = λ n h. inv.needed n (ground arith);
    closed = IsClosed-skip back kc_id closure queue old inv.closed;
    targets = λ n h. elim (Bool-cases (kc_id == n)) [
      | inl same ↦
          let e : kc_id ≡ n = (==_iff kc_id n).0 same in
          ground (arith, ap (λ (k : ℕ). elem k closure) e)
      | inr other ↦ ground (arith, inv.targets n h)
    ];
    once = inv.once;
  }

  Inv-visit :
      (kc_id : ℕ) (queue closure : List ℕ)
      → elem kc_id closure ≡ false
      → Inv (kc_id ∷ queue) closure
      → Inv (queue ++ dependents back kc_id) (kc_id ∷ closure)
  Inv-visit kc_id queue closure new inv = record {
    needed = λ n h. elim (Bool-cases (elem n (dependents back kc_id))) [
      | inl e ↦ let (t, a, w) = inv.needed kc_id (ground arith) in (t, a, next w e)
      | inr e ↦ inv.needed n (ground (arith, elem-extend n queue (dependents back kc_id)))
    ];
    closed =
        IsClosed-expand back kc_id closure queue _
          (λ y. elem-extend y queue (dependents back kc_id)) inv.closed;
    targets = λ n h. ground (arith, inv.targets n h, elem-extend n queue (dependents back kc_id));
    once = (new, inv.once);
  }

  closure_loop_ends :
      (fuel : ℕ) (queue closure : List ℕ)
      → length queue + unseen back closure ≤ fuel
      → Inv queue closure
      → (c : List ℕ) × (closure_loop fuel (dependents back) queue closure ≡ some c) × Inv [] c
  unfolding closure_loop
  closure_loop_ends fuel [] closure h inv = (closure, refl, inv)
  closure_loop_ends zero (kc_id ∷ queue) closure h inv = absurd (omega arith)
  closure_loop_ends (suc fuel) (kc_id ∷ queue) closure h inv =
      elim (Bool-cases (elem kc_id closure)) [
        | inl old ↦ rw old (
            closure_loop_ends fuel queue closure (omega arith)
              (Inv-skip kc_id queue closure old inv))
        | inr new ↦ rw new (
            closure_loop_ends fuel (queue ++ dependents back kc_id) (kc_id ∷ closure)
              (omega (
                arith,
                unseen-cons back kc_id closure new,
                length-append queue (dependents back kc_id),
              ))
              (Inv-visit kc_id queue closure new inv))
      ]

  -- The loop collects what can be reached from the list that it starts with.
  pub closure_loop_exact :
      (c : List ℕ) × (closure_loop (length target_ids + length back) (dependents back) target_ids []
        ≡ some c)
      × Distinct c
      × ((n : ℕ) → (elem n c ≡ true) ↔ From target_ids back n)
  closure_loop_exact =
      let (c, ends, inv) =
        closure_loop_ends (length target_ids + length back) target_ids []
          (omega (arith, unseen-nil back))
          (record {
            needed = λ n h. (n, h, here);
            closed = λ x y hx hy. absurd (ground arith);
            targets = λ n h. h;
            once = tt;
          }) in
      (
        c,
        ends,
        inv.once,
        λ n. (
          (λ h. inv.needed n (ground arith)),
          (λ (t, a, w). closed-Walk back c inv.closed (ground (arith, inv.targets t a)) w),
        ),
      )

-- `prerequisite_closure` ends with a set that holds a component exactly when it is a target or,
-- over any number of edges, a prerequisite of one.
pub prerequisite_closure_exact :
    (target_ids : List ℕ) (edges : List Edge)
    → (c : List ℕ) × (prerequisite_closure target_ids edges ≡ some c)
      × Distinct c
      × ((n : ℕ) → (elem n c ≡ true) ↔ Needed target_ids edges n)
unfolding prerequisite_closure
prerequisite_closure_exact target_ids edges =
    let (c, ends, once, exact) = closure_loop_exact target_ids (backward edges) in
    (
      c,
      ap (λ (f : ℕ → List ℕ). closure_loop (length target_ids + length edges) f target_ids [])
            (fun_ext (λ n. index_prereqs-dependents edges (λ m. []) n))
          ∙ ap
              (λ (k : ℕ).
                closure_loop (length target_ids + k) (dependents (backward edges)) target_ids [])
              (sym (length-backward edges))
          ∙ ends,
      once,
      exact,
    )
