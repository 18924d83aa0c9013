-- ===== src/Graph/Reach.antt =====
-- The search of `_reaches` decides the relation `Walk`, and ends.
use guru_alt.Common.{
  ℕ, zero, suc, ◌+◌, ◌≤◌, ◌≡◌, refl, Bool, true, false, ◌||◌, ◌⊎◌, inl, inr, some, List, [], ◌∷◌,
  arith, ◌==◌, length, elem, if◌then◌else◌, Bool-cases, ==_iff, ap, subst,
}
use guru_alt.Graph.{Edge, push_all, reaches_loop, reaches, dependents, Walk, here, next}

pub elem-push_all :
    (a : ℕ) (xs stack : List ℕ) → elem a (push_all xs stack) ≡ (elem a xs || elem a stack)
unfolding push_all
elem-push_all a [] stack = refl
elem-push_all a (x ∷ xs) stack = ground (arith, elem-push_all a xs (x ∷ stack))

pub length-push_all : (xs stack : List ℕ) → length (push_all xs stack) ≡ length xs + length stack
unfolding push_all
length-push_all [] stack = omega arith
length-push_all (x ∷ xs) stack = omega (arith, length-push_all xs (x ∷ stack))

-- How many edges start at a node that has not been expanded.
abbrev pub unseen : List Edge → List ℕ → ℕ
unseen [] seen = 0
unseen (e ∷ edges) seen =
    if elem e.prereq_kc_id seen then unseen edges seen else suc (unseen edges seen)

pub unseen-cons :
    (edges : List Edge) (n : ℕ) (seen : List ℕ)
    → elem n seen ≡ false
    → unseen edges (n ∷ seen) + length (dependents edges n) ≡ unseen edges seen
unseen-cons [] n seen h = omega arith
unseen-cons (e ∷ edges) n seen h = ground (arith, unseen-cons edges n seen h)

pub unseen-nil : (edges : List Edge) → unseen edges [] ≡ length edges
unseen-nil [] = refl
unseen-nil (e ∷ edges) = ground (arith, unseen-nil edges)

-- Along the list `seen` every edge has been followed: its end is in one of the two lists.
abbrev pub IsClosed : List Edge → List ℕ → List ℕ → Type 0
IsClosed edges seen stack =
    (x y : ℕ)
    → elem x seen ≡ true
    → elem y (dependents edges x) ≡ true
    → (elem y seen || elem y stack) ≡ true

module _ (edges : List Edge) where
  -- Expanding a node, or dropping one that was expanded before, keeps the search closed.
  pub IsClosed-expand :
      (node : ℕ) (seen stack pushed : List ℕ)
      → ((y : ℕ) → elem y pushed ≡ (elem y (dependents edges node) || elem y stack))
      → IsClosed edges seen (node ∷ stack)
      → IsClosed edges (node ∷ seen) pushed
  IsClosed-expand node seen stack pushed e closed x y hx hy = elim (Bool-cases (node == x)) [
    | inl same ↦
        let n : node ≡ x = (==_iff node x).0 same in
        ground (arith, e y, ap (λ (k : ℕ). elem y (dependents edges k)) n)
    | inr other ↦ ground (arith, e y, closed x y (ground arith) hy)
  ]

  pub IsClosed-skip :
      (node : ℕ) (seen stack : List ℕ)
      → elem node seen ≡ true
      → IsClosed edges seen (node ∷ stack)
      → IsClosed edges seen stack
  IsClosed-skip node seen stack h closed x y hx hy = elim (Bool-cases (node == y)) [
    | inl same ↦
        let n : node ≡ y = (==_iff node y).0 same in ground (arith, ap (λ (k : ℕ). elem k seen) n)
    | inr other ↦ ground (arith, closed x y hx hy)
  ]

  -- What an ended search has seen holds every node that can be reached from a seen one.
  pub closed-Walk :
      (seen : List ℕ) {a b : ℕ}
      → IsClosed edges seen []
      → elem a seen ≡ true
      → Walk edges a b
      → elem b seen ≡ true
  closed-Walk seen closed h here = h
  closed-Walk seen closed h (next {b = b} {c = c} w e) =
      ground (arith, closed b c (closed-Walk seen closed h w) e)

module _ (edges : List Edge) (goal : ℕ) where
  reaches_loop_total :
      (fuel : ℕ) (stack seen : List ℕ)
      → length stack + unseen edges seen ≤ fuel
      → (b : Bool) × (reaches_loop fuel goal (dependents edges) stack seen ≡ some b)
  unfolding reaches_loop
  reaches_loop_total fuel [] seen h = (false, refl)
  reaches_loop_total zero (node ∷ stack) seen h = absurd (omega arith)
  reaches_loop_total (suc fuel) (node ∷ stack) seen h = elim (Bool-cases (node == goal)) [
    | inl hit ↦ (true, rw hit)
    | inr miss ↦ elim (Bool-cases (elem node seen)) [
      | inl old ↦ rw (miss, old) (reaches_loop_total fuel stack seen (omega arith))
      | inr new ↦
          rw (miss, new)
            (reaches_loop_total fuel (push_all (dependents edges node) stack) (node ∷ seen) (
              omega (
                arith,
                unseen-cons edges node seen new,
                length-push_all (dependents edges node) stack,
              )))
    ]
  ]

  -- If the search says yes, there is a walk from one of the nodes that it started with.
  reaches_loop_sound :
      (start fuel : ℕ) (stack seen : List ℕ)
      → ((x : ℕ) → elem x stack ≡ true → Walk edges start x)
      → reaches_loop fuel goal (dependents edges) stack seen ≡ some true
      → Walk edges start goal
  unfolding reaches_loop
  reaches_loop_sound start fuel [] seen from h = cc
  reaches_loop_sound start zero (node ∷ stack) seen from h = cc
  reaches_loop_sound start (suc fuel) (node ∷ stack) seen from h =
      elim (Bool-cases (node == goal)) [
        | inl hit ↦ subst (Walk edges start) ((==_iff node goal).0 hit) (from node (ground arith))
        | inr miss ↦ elim (Bool-cases (elem node seen)) [
          | inl old ↦
              reaches_loop_sound start fuel stack seen (λ x e. from x (ground arith))
                (rw (miss, old) at h)
          | inr new ↦
              reaches_loop_sound start fuel (push_all (dependents edges node) stack) (node ∷ seen)
                (λ x e. elim (Bool-cases (elem x (dependents edges node))) [
                  | inl d ↦ next (from node (ground arith)) d
                  | inr d ↦ from x (ground (arith, elem-push_all x (dependents edges node) stack))
                ])
                (rw (miss, new) at h)
        ]
      ]

  -- If the search says no, it has seen all that it started with, and not the goal.
  reaches_loop_complete :
      (fuel : ℕ) (stack seen : List ℕ) {a : ℕ}
      → IsClosed edges seen stack
      → elem goal seen ≡ false
      → (elem a seen || elem a stack) ≡ true
      → reaches_loop fuel goal (dependents edges) stack seen ≡ some false
      → ¬ Walk edges a goal
  unfolding reaches_loop
  reaches_loop_complete fuel [] seen closed absent h e w =
      cc (closed-Walk edges seen closed (ground arith) w)
  reaches_loop_complete zero (node ∷ stack) seen closed absent h e w = cc
  reaches_loop_complete (suc fuel) (node ∷ stack) seen {a} closed absent h e w =
      elim (Bool-cases (node == goal)) [
        | inl hit ↦ ground arith
        | inr miss ↦ elim (Bool-cases (elem node seen)) [
          | inl old ↦
              reaches_loop_complete fuel stack seen (IsClosed-skip edges node seen stack old closed)
                absent
                (elim (Bool-cases (node == a)) [
                  | inl same ↦
                      let n : node ≡ a = (==_iff node a).0 same in
                      ground (arith, ap (λ (k : ℕ). elem k seen) n)
                  | inr other ↦ ground arith
                ])
                (rw (miss, old) at e) w
          | inr new ↦
              reaches_loop_complete fuel (push_all (dependents edges node) stack) (node ∷ seen)
                (IsClosed-expand edges node seen stack _
                  (λ y. elem-push_all y (dependents edges node) stack) closed)
                (ground arith) (ground (arith, elem-push_all a (dependents edges node) stack))
                (rw (miss, new) at e) w
        ]
      ]

  -- With one round for each edge and one more, `_reaches` answers whether there is a walk.
  pub reaches-Walk :
      (fuel start : ℕ)
      → suc (length edges) ≤ fuel
      → ((reaches fuel start goal (dependents edges) ≡ some true) × Walk edges start goal)
        ⊎ ((reaches fuel start goal (dependents edges) ≡ some false) × (¬ Walk edges start goal))
  unfolding reaches
  reaches-Walk fuel start h =
      let (answer, e) = reaches_loop_total fuel (start ∷ []) [] (omega (arith, unseen-nil edges)) in
      split answer e
    where
      split :
          (b : Bool)
          → reaches_loop fuel goal (dependents edges) (start ∷ []) [] ≡ some b
          → ((reaches_loop fuel goal (dependents edges) (start ∷ []) [] ≡ some true)
              × Walk edges start goal)
            ⊎ ((reaches_loop fuel goal (dependents edges) (start ∷ []) [] ≡ some false)
                × (¬ Walk edges start goal))
      split true e = inl (
        e,
        reaches_loop_sound start fuel (start ∷ []) []
            (λ x h. elim (Bool-cases (start == x)) [
              | inl same ↦ subst (Walk edges start) ((==_iff start x).0 same) here
              | inr other ↦ absurd (ground arith)
            ])
            e,
      )
      split false e = inr (
        e,
        reaches_loop_complete fuel (start ∷ []) [] {a = start} (λ x y hx hy. cc) refl (ground arith)
            e,
      )
