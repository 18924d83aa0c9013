-- ===== src/Examples/Names.antt =====
-- Five components, two of one name and one of a blank name; a component that requires itself, a
-- stranger and one twice.
use guru_alt.Common.{ℕ, ◌≡◌, refl, not, ◌&&◌, List, [], ◌∷◌, ◌==◌, ◌/◌, elem, Distinct, keep, any}
use guru_alt.Graph.Names.{index_by_name, resolve, is_missing, has_target, resolve_exact}

-- Two spellings of each name.
abbrev normalise : ℕ → ℕ
normalise name = name / 2

abbrev named_keys : List (ℕ × ℕ)
named_keys = (1, 10) ∷ (2, 20) ∷ (3, 11) ∷ (4, 1) ∷ (5, 30) ∷ []

index_by_name-named_keys :
    index_by_name normalise named_keys ≡ ((5, 1) ∷ (10, 2) ∷ (15, 5) ∷ [], 11 ∷ [])
unfolding index_by_name
index_by_name-named_keys = refl

resolve-named_keys :
    resolve normalise 2 (11 ∷ 20 ∷ 99 ∷ 10 ∷ 31 ∷ []) (index_by_name normalise named_keys).0
    ≡ (1 ∷ 5 ∷ [], 99 ∷ [])
unfolding index_by_name resolve
resolve-named_keys = refl

resolve_exact_example :
    Distinct (resolve normalise 2 (11 ∷ 20 ∷ 99 ∷ []) ((5, 1) ∷ (10, 2) ∷ [])).0
    × (elem 1 (resolve normalise 2 (11 ∷ 20 ∷ 99 ∷ []) ((5, 1) ∷ (10, 2) ∷ [])).0 ≡ (
        any (has_target normalise ((5, 1) ∷ (10, 2) ∷ []) 1) (11 ∷ 20 ∷ 99 ∷ []) && not (2 == 1)))
    × ((resolve normalise 2 (11 ∷ 20 ∷ 99 ∷ []) ((5, 1) ∷ (10, 2) ∷ [])).1
        ≡ keep (is_missing normalise ((5, 1) ∷ (10, 2) ∷ [])) (11 ∷ 20 ∷ 99 ∷ []))
resolve_exact_example = resolve_exact normalise 2 (11 ∷ 20 ∷ 99 ∷ []) ((5, 1) ∷ (10, 2) ∷ []) 1
