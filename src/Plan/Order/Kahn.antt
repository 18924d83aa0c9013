-- ===== src/Plan/Order/Kahn.antt =====
-- The invariant of the `while ready` loop: it ends within one round for each node, and what it has
-- ordered stands behind its prerequisites.
use guru_alt.Common.{
  ℕ, zero, suc, ◌+◌, ◌-◌, ◌≤◌, ◌<◌, ◌≡◌, refl, ap, sym, ◌∙◌, true, false, not, ◌&&◌, ◌||◌, inl, inr,
  Option, some, List, [], ◌∷◌, ◌++◌, arith, ◌==◌, ==_iff, length, length-append, elem, elem-append,
  Distinct, Bool-cases,
}
use guru_alt.Common.Sort.{
  count, sort, elem-sort, sort-Distinct, append-Distinct, length-le_of_Distinct,
}
use guru_alt.Graph.{Edge, dependents}
use guru_alt.Plan.Order.{before, release, kahn}
use guru_alt.Plan.Order.Degree.{
  pending, pending-cons, count-elem, indegree-release, elem-release, release-Distinct,
}

-- Each component of the list has its prerequisites in front of it or in `done`.
abbrev pub Respects : List Edge → List ℕ → List ℕ → Type 0
Respects edges done [] = Unit
Respects edges done (n ∷ l) =
    ((p : ℕ) → elem n (dependents edges p) ≡ true → elem p done ≡ true)
    × Respects edges (n ∷ done) l

Respects-snoc :
    (edges : List Edge) (done l : List ℕ) (n : ℕ)
    → Respects edges done l
    → ((p : ℕ) → elem n (dependents edges p) ≡ true → (elem p done || elem p l) ≡ true)
    → Respects edges done (l ++ n ∷ [])
Respects-snoc edges done [] n r h = ((λ p e. ground (arith, h p e)), tt)
Respects-snoc edges done (m ∷ l) n r h =
    (r.0, Respects-snoc edges (m ∷ done) l n r.1 (λ p e. ground (arith, h p e)))

-- With no open edge into `n`, all its prerequisites are done.
pending-zero :
    (edges : List Edge) (done : List ℕ) (n p : ℕ)
    → pending edges done n ≡ 0
    → elem n (dependents edges p) ≡ true
    → elem p done ≡ true
pending-zero [] done n p z h = cc
pending-zero (e ∷ edges) done n p z h = elim (Bool-cases (e.prereq_kc_id == p)) [
  | inl same ↦
      let q : e.prereq_kc_id ≡ p = (==_iff e.prereq_kc_id p).0 same in
      ground (arith, pending-zero edges done n p, ap (λ (k : ℕ). elem k done) q)
  | inr other ↦ ground (arith, pending-zero edges done n p)
]

-- With an open edge into `n`, a prerequisite is missing.
pub pending-pos :
    (edges : List Edge) (done : List ℕ) (n : ℕ)
    → 0 < pending edges done n
    → (p : ℕ) × (elem n (dependents edges p) ≡ true) × (elem p done ≡ false)
pending-pos [] done n h = absurd (omega arith)
pending-pos (e ∷ edges) done n h =
    elim (Bool-cases (e.kc_id == n && not (elem e.prereq_kc_id done))) [
      | inl hit ↦ (e.prereq_kc_id, ground arith, ground arith)
      | inr miss ↦ let (p, a, b) = pending-pos edges done n (ground arith) in (p, ground arith, b)
    ]

pub record Inv (nodes : List ℕ) (edges : List Edge) (ordered ready : List ℕ) (d : ℕ → ℕ)
    : Type 0 where
  pub degrees : (n : ℕ) → d n ≡ pending edges ordered n
  pub placed : (n : ℕ) → (elem n ordered || elem n ready) ≡ (elem n nodes && (d n == 0))
  pub once : Distinct ordered
  pub ready_once : Distinct ready
  pub apart : (n : ℕ) → elem n ordered ≡ true → elem n ready ≡ false
  pub respects : Respects edges [] ordered

module _ (nodes : List ℕ) (edges : List Edge)
    (inside : (p n : ℕ) → elem n (dependents edges p) ≡ true → elem n nodes ≡ true)
    (tiebreak : ℕ → Option ℕ) where
  module _ (ordered ready : List ℕ) (node : ℕ) (d : ℕ → ℕ)
      (inv : Inv nodes edges ordered (node ∷ ready) d) where
    fresh : elem node ordered ≡ false
    fresh = ground (arith, inv.apart node)

    drained : d node ≡ 0
    drained = ground (arith, inv.placed node)

    counted :
        (n : ℕ) → pending edges (ordered ++ node ∷ []) n + count n (dependents edges node) ≡ d n
    counted n = pending-cons edges ordered node n fresh ∙ sym (inv.degrees n)

    room : (n : ℕ) → count n (dependents edges node) ≤ d n
    room n = omega (arith, counted n)

    abbrev newly : List ℕ
    newly = (release (dependents edges node) d).1

    elem-newly :
        (n : ℕ)
        → elem n newly
          ≡ (elem n (dependents edges node) && (d n - count n (dependents edges node) == 0))
    elem-newly n = elem-release (dependents edges node) d n room

    -- What had no open prerequisite before does not become ready again.
    stale : (n : ℕ) → d n ≡ 0 → elem n newly ≡ false
    stale n z = ground (arith, elem-newly n, count-elem n (dependents edges node), room n)

    elem-ready :
        (n : ℕ) → elem n (sort (before tiebreak) (ready ++ newly)) ≡ (elem n ready || elem n newly)
    elem-ready n = elem-sort (before tiebreak) n (ready ++ newly) ∙ elem-append n ready newly

    old-drained : (n : ℕ) → (elem n ordered || elem n (node ∷ ready)) ≡ true → d n ≡ 0
    old-drained n h = ground (arith, inv.placed n)

    step-Inv :
        Inv nodes edges
          (ordered ++ node ∷ [])
          (sort (before tiebreak) (ready ++ newly))
          (release (dependents edges node) d).0
    step-Inv = record {
      degrees = λ n. omega (arith, indegree-release (dependents edges node) d n, counted n);
      placed = λ n. ground (
        arith,
        elem-ready n,
        elem-append n ordered (node ∷ []),
        elem-newly n,
        inv.placed n,
        indegree-release (dependents edges node) d n,
        count-elem n (dependents edges node),
        inside node n,
      );
      once =
          append-Distinct ordered (node ∷ []) inv.once (refl, tt)
            (λ a h. ground (arith, inv.apart a h));
      ready_once = sort-Distinct (before tiebreak) (ready ++ newly) (
          append-Distinct ready newly inv.ready_once.1
            (release-Distinct (dependents edges node) d room)
            (λ a h. stale a (old-drained a (ground arith))));
      apart = λ n h. elim (Bool-cases (node == n)) [
        | inl same ↦
            let e : node ≡ n = (==_iff node n).0 same in
            ground (
              arith,
              elem-ready n,
              inv.ready_once.0,
              stale node drained,
              ap (λ (k : ℕ). elem k ready) e,
              ap (λ (k : ℕ). elem k newly) e,
            )
        | inr other ↦ ground (
          arith,
          elem-ready n,
          elem-append n ordered (node ∷ []),
          inv.apart n,
          stale n,
          old-drained n,
        )
      ];
      respects =
          Respects-snoc edges [] ordered node inv.respects
            (λ p e. pending-zero edges ordered node p (sym (inv.degrees node) ∙ drained) e);
    }

  -- One round for each node is enough.
  pub kahn_ends :
      (fuel : ℕ) (ordered ready : List ℕ) (d : ℕ → ℕ)
      → fuel + length ordered ≡ length nodes
      → Inv nodes edges ordered ready d
      → (final : List ℕ) × (kahn fuel tiebreak (dependents edges) ordered ready d ≡ some final)
        × ((d' : ℕ → ℕ) × Inv nodes edges final [] d')
  unfolding kahn
  kahn_ends fuel ordered [] d h inv = (ordered, refl, (d, inv))
  kahn_ends zero ordered (node ∷ ready) d h inv = absurd (
      omega (
        arith,
        length-append ordered (node ∷ []),
        length-le_of_Distinct (ordered ++ node ∷ []) nodes (step-Inv ordered ready node d inv).once
            (λ a e. ground (arith, elem-append a ordered (node ∷ []), inv.placed a)),
      ))
  kahn_ends (suc fuel) ordered (node ∷ ready) d h inv =
      kahn_ends fuel (ordered ++ node ∷ []) _ _ (omega (arith, length-append ordered (node ∷ [])))
        (step-Inv ordered ready node d inv)
