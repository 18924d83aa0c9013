-- ===== src/Graph/Sift.antt =====
-- What `acyclic` keeps has no cycle, and what it drops would have closed one.
use guru_alt.Common.{
  ℕ, suc, ◌≡◌, refl, sym, ap, ◌∙◌, ◌⊎◌, fun_ext, true, false, inl, inr, some, List, [], ◌∷◌, ◌++◌,
  arith, length, elem, Bool-cases, All,
}
use mathlib.Core.List.{append_assoc, append-nil}
use guru_alt.Graph.{
  Edge, reaches, add_successor, Sifted, sift, acyclic_loop, acyclic, dependents, Walk,
}
use guru_alt.Graph.Reach.{reaches-Walk}
use guru_alt.Graph.Rank.{
  IsRanked, rank-Walk, ranked-no_cycle, dependents-append, Walk-append, lifted-IsRanked,
}

-- `kept` and `dropped` hold the edges between them, each in the order of `edges`.
pub data Splits : List Edge → List Edge → List Edge → Type 0 where
  done : Splits [] [] []
  keep :
      {kept dropped edges : List Edge} (e : Edge)
      → Splits kept dropped edges
      → Splits (e ∷ kept) dropped (e ∷ edges)
  drop :
      {kept dropped edges : List Edge} (e : Edge)
      → Splits kept dropped edges
      → Splits kept (e ∷ dropped) (e ∷ edges)

-- The edge would close a cycle.
abbrev pub Closes : List Edge → Edge → Type 0
Closes kept e = Walk kept e.kc_id e.prereq_kc_id

-- The invariant of the loop.
record IsSifted (s : Sifted) : Type 0 where
  indexed : s.successors ≡ dependents s.kept
  rank : ℕ → ℕ
  ranked : IsRanked rank s.kept
  closing : All (Closes s.kept) s.dropped

All-Closes-append :
    (kept dropped : List Edge) (e : Edge)
    → All (Closes kept) dropped
    → Closes kept e
    → All (Closes kept) (dropped ++ e ∷ [])
All-Closes-append kept [] e h p = (p, tt)
All-Closes-append kept (d ∷ dropped) e h p = (h.0, All-Closes-append kept dropped e h.1 p)

Closes-append :
    (kept : List Edge) (e : Edge) (dropped : List Edge)
    → All (Closes kept) dropped
    → All (Closes (kept ++ e ∷ [])) dropped
Closes-append kept e [] h = tt
Closes-append kept e (d ∷ dropped) h = (Walk-append e h.0, Closes-append kept e dropped h.1)

sift_keep-IsSifted :
    (s : Sifted) (e : Edge) → IsSifted s → ¬ Closes s.kept e → IsSifted (sift e false s)
unfolding sift add_successor
sift_keep-IsSifted s e h no_cycle =
    let (rank', ranked') = lifted-IsRanked s.kept h.rank e h.ranked no_cycle in
    record {
      indexed = fun_ext (λ n.
          ground (arith, dependents-append s.kept e n, ap (λ (f : ℕ → List ℕ). f n) h.indexed));
      rank = rank';
      ranked = ranked';
      closing = Closes-append s.kept e s.dropped h.closing;
    }

sift_drop-IsSifted :
    (s : Sifted) (e : Edge) → IsSifted s → Closes s.kept e → IsSifted (sift e true s)
unfolding sift
sift_drop-IsSifted s e h closes = record {
  indexed = h.indexed;
  rank = h.rank;
  ranked = h.ranked;
  closing = All-Closes-append s.kept s.dropped e h.closing closes;
}

-- The search of the next round, with its answer.
sift-cases :
    (s : Sifted) (e : Edge)
    → IsSifted s
    → ((reaches (suc (length s.kept)) e.kc_id e.prereq_kc_id s.successors ≡ some true)
        × Closes s.kept e)
      ⊎ ((reaches (suc (length s.kept)) e.kc_id e.prereq_kc_id s.successors ≡ some false)
          × (¬ Closes s.kept e))
sift-cases s e h =
    rw h.indexed (reaches-Walk s.kept e.prereq_kc_id (suc (length s.kept)) e.kc_id (omega arith))

record Outcome (edges : List Edge) (s : Sifted) : Type 0 where
  final : Sifted
  runs : acyclic_loop edges s ≡ some final
  sifted : IsSifted final
  kept : List Edge
  dropped : List Edge
  splits : Splits kept dropped edges
  all_kept : final.kept ≡ s.kept ++ kept
  all_dropped : final.dropped ≡ s.dropped ++ dropped

acyclic_loop-Outcome : (edges : List Edge) (s : Sifted) → IsSifted s → Outcome edges s
unfolding acyclic_loop
acyclic_loop-Outcome [] s h = record {
  final = s;
  runs = refl;
  sifted = h;
  kept = [];
  dropped = [];
  splits = done;
  all_kept = sym (append-nil s.kept);
  all_dropped = sym (append-nil s.dropped);
}
acyclic_loop-Outcome (e ∷ edges) s h = elim (sift-cases s e h) [
  | inl (answer, closes) ↦
      let o = acyclic_loop-Outcome edges (sift e true s) (sift_drop-IsSifted s e h closes) in
      record {
        final = o.final;
        runs = rw answer o.runs;
        sifted = o.sifted;
        kept = o.kept;
        dropped = e ∷ o.dropped;
        splits = drop e o.splits;
        all_kept = unfold sift in o.all_kept;
        all_dropped = unfold sift in o.all_dropped ∙ append_assoc s.dropped (e ∷ []) o.dropped;
      }
  | inr (answer, no_cycle) ↦
      let o = acyclic_loop-Outcome edges (sift e false s) (sift_keep-IsSifted s e h no_cycle) in
      record {
        final = o.final;
        runs = rw answer o.runs;
        sifted = o.sifted;
        kept = e ∷ o.kept;
        dropped = o.dropped;
        splits = keep e o.splits;
        all_kept = unfold sift in o.all_kept ∙ append_assoc s.kept (e ∷ []) o.kept;
        all_dropped = unfold sift in o.all_dropped;
      }
]

pub record Separated (edges : List Edge) (s : Sifted) : Type 0 where
  pub splits : Splits s.kept s.dropped edges
  pub closing : All (Closes s.kept) s.dropped
  pub no_cycle : (x y : ℕ) → elem y (dependents s.kept x) ≡ true → ¬ Walk s.kept y x

start-IsSifted : IsSifted (record { successors = λ n. []; kept = []; dropped = [] })
start-IsSifted = record {
  indexed = refl;
  rank = λ n. n;
  ranked = λ x y h. absurd (ground arith);
  closing = tt;
}

subst_splits :
    {k k' d d' edges : List Edge} → k' ≡ k → d' ≡ d → Splits k d edges → Splits k' d' edges
subst_splits p q h = rw (p, q) h

-- `acyclic` always ends, and tells its edges apart: those that it keeps have no cycle, each that it
-- drops closes a cycle with the kept ones, and none is lost or moved.
pub acyclic_separates :
    (edges : List Edge) → (s : Sifted) × (acyclic edges ≡ some s) × Separated edges s
unfolding acyclic
acyclic_separates edges =
    let o = acyclic_loop-Outcome edges _ start-IsSifted in
    (
      o.final,
      o.runs,
      record {
        splits = subst_splits o.all_kept o.all_dropped o.splits;
        closing = o.sifted.closing;
        no_cycle = λ x y. ranked-no_cycle x y o.sifted.ranked;
      },
    )

IsRanked-tail :
    {rank : ℕ → ℕ} (e : Edge) (edges : List Edge) → IsRanked rank (e ∷ edges) → IsRanked rank edges
IsRanked-tail e edges ranked x y h = ranked x y (ground arith)

elem-kept :
    {kept dropped edges : List Edge} (x y : ℕ)
    → Splits kept dropped edges
    → elem y (dependents kept x) ≡ true
    → elem y (dependents edges x) ≡ true
elem-kept x y done h = h
elem-kept x y (keep {kept = ks} {edges = es} e s) h = elim (Bool-cases (elem y (dependents ks x))) [
  | inl old ↦ ground (arith, elem-kept x y s old)
  | inr new ↦ ground arith
]
elem-kept x y (drop {edges = es} e s) h = ground (arith, elem-kept x y s h)

-- Where all edges climb, a dropped one cannot close a walk through the kept ones.
dropped_none :
    {rank : ℕ → ℕ} {dropped edges kept : List Edge} (all_kept : List Edge)
    → Splits kept dropped edges
    → IsRanked rank edges
    → IsRanked rank all_kept
    → All (Closes all_kept) dropped
    → (kept ≡ edges) × (dropped ≡ [])
dropped_none all_kept done ranked climbs h = (refl, refl)
dropped_none all_kept (keep {edges = es} e s) ranked climbs h =
    let (k, d) = dropped_none all_kept s (IsRanked-tail e es ranked) climbs h in
    (ap (λ l. e ∷ l) k, d)
dropped_none all_kept (drop {edges = es} e s) ranked climbs h =
    absurd (omega (arith, ranked e.prereq_kc_id e.kc_id (ground arith), rank-Walk climbs h.0))

-- A list of edges with no cycle loses none of them.
acyclic_keeps :
    (edges : List Edge) (rank : ℕ → ℕ)
    → IsRanked rank edges
    → (s : Sifted) × (acyclic edges ≡ some s) × (s.kept ≡ edges) × (s.dropped ≡ [])
acyclic_keeps edges rank ranked =
    let (s, runs, h) = acyclic_separates edges in
    let (k, d) =
      dropped_none s.kept h.splits ranked (λ x y e. ranked x y (elem-kept x y h.splits e))
        h.closing in
    (s, runs, k, d)

-- What `acyclic` keeps can be ranked.
pub acyclic-IsRanked :
    (edges : List Edge)
    → (s : Sifted) × (acyclic edges ≡ some s) × ((rank : ℕ → ℕ) × IsRanked rank s.kept)
unfolding acyclic
acyclic-IsRanked edges =
    let o = acyclic_loop-Outcome edges _ start-IsSifted in
    (o.final, o.runs, (o.sifted.rank, o.sifted.ranked))
