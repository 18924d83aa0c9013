-- ===== src/Graph/Names.antt =====
-- Prerequisites by name, app/learning/prerequisites.py: `index_by_name` and `resolve`. A text is a
-- number and 0 is the empty one; `normalise` is an argument. Required names are texts, as the
-- model's answer has them.
use guru_alt.Common.{
  ℕ, ◌≡◌, refl, sym, ap, Bool, true, false, not, ◌&&◌, ◌||◌, inl, inr, Option, none, some, List, [],
  ◌∷◌, ◌++◌, arith, ◌==◌, ==_iff, elem, elem-append, Distinct, keep, any, if◌then◌else◌, Bool-cases,
  Option-cases,
}
use guru_alt.Common.Sort.{append-Distinct}

-- A dict is the list of its pairs in the order of insertion.
abbrev pub get : List (ℕ × ℕ) → ℕ → Option ℕ
get [] norm = none
get ((n, key) ∷ index) norm = if n == norm then some key else get index norm

append-nil : (xs : List ℕ) → xs ++ [] ≡ xs
append-nil [] = refl
append-nil (x ∷ xs) = ap (λ l. x ∷ l) (append-nil xs)

append_snoc : (xs : List ℕ) (y : ℕ) (zs : List ℕ) → (xs ++ y ∷ []) ++ zs ≡ xs ++ y ∷ zs
append_snoc [] y zs = refl
append_snoc (x ∷ xs) y zs = ap (λ l. x ∷ l) (append_snoc xs y zs)

apart :
    (xs : List ℕ) (b : ℕ) → elem b xs ≡ false → (a : ℕ) → elem a xs ≡ true → elem a (b ∷ []) ≡ false
apart xs b h a e = elim (Bool-cases (b == a)) [
  | inl hit ↦ absurd (ground (arith, ap (λ (k : ℕ). elem k xs) ((==_iff b a).0 hit)))
  | inr miss ↦ ground arith
]

module _ (normalise : ℕ → ℕ) where
  abbrev pub index_loop : List (ℕ × ℕ) → List (ℕ × ℕ) → List ℕ → List (ℕ × ℕ) × List ℕ
  index_loop [] index duplicated = (index, duplicated)
  index_loop ((key, name) ∷ named_keys) index duplicated = elim (normalise name == 0) [
    | true ↦ index_loop named_keys index duplicated
    | false ↦ elim (get index (normalise name)) [
      | some k ↦ index_loop named_keys index (duplicated ++ name ∷ [])
      | none ↦ index_loop named_keys (index ++ (normalise name, key) ∷ []) duplicated
    ]
  ]

  unfoldable pub index_by_name : List (ℕ × ℕ) → List (ℕ × ℕ) × List ℕ
  index_by_name named_keys = index_loop named_keys [] []

  -- The list `resolved` also serves as the set `seen`, which has the same elements.
  abbrev pub resolve_loop : ℕ → List (ℕ × ℕ) → List ℕ → List ℕ → List ℕ → List ℕ × List ℕ
  resolve_loop key index [] resolved unresolved = (resolved, unresolved)
  resolve_loop key index (name ∷ names) resolved unresolved = elim (get index (normalise name)) [
    | none ↦ resolve_loop key index names resolved (unresolved ++ name ∷ [])
    | some target ↦ elim (target == key || elem target resolved) [
      | true ↦ resolve_loop key index names resolved unresolved
      | false ↦ resolve_loop key index names (resolved ++ target ∷ []) unresolved
    ]
  ]

  unfoldable pub resolve : ℕ → List ℕ → List (ℕ × ℕ) → List ℕ × List ℕ
  resolve key required_names index = resolve_loop key index required_names [] []

  -- The key of the first component with the name.
  abbrev pub first_named : List (ℕ × ℕ) → ℕ → Option ℕ
  first_named [] norm = none
  first_named ((key, name) ∷ named_keys) norm =
      if normalise name == norm then some key else first_named named_keys norm

  get-append :
      (index : List (ℕ × ℕ)) (n key norm : ℕ)
      → get (index ++ (n, key) ∷ []) norm
        ≡ elim (get index norm) [ some k ↦ some k | none ↦ (if n == norm then some key else none) ]
  get-append [] n key norm = refl
  get-append ((m, k) ∷ index) n key norm = ground (arith, get-append index n key norm)

  get-index_loop :
      (named_keys index : List (ℕ × ℕ)) (duplicated : List ℕ) (norm : ℕ)
      → (norm == 0) ≡ false
      → get (index_loop named_keys index duplicated).0 norm
        ≡ elim (get index norm) [ some k ↦ some k | none ↦ first_named named_keys norm ]
  get-index_loop [] index duplicated norm h = ground arith
  get-index_loop ((key, name) ∷ named_keys) index duplicated norm h =
      elim (Bool-cases (normalise name == 0)) [
        | inl blank ↦ ground (arith, get-index_loop named_keys index duplicated norm h)
        | inr named ↦ elim (Option-cases (get index (normalise name))) [
          | inl fresh ↦ ground (
            arith,
            get-append index (normalise name) key norm,
            get-index_loop named_keys (index ++ (normalise name, key) ∷ []) duplicated norm h,
          )
          | inr (k, taken) ↦ elim (Bool-cases (normalise name == norm)) [
            | inl hit ↦ ground (
              arith,
              get-index_loop named_keys index (duplicated ++ name ∷ []) norm h,
              ap (get index) ((==_iff (normalise name) norm).0 hit),
            )
            | inr miss ↦
                ground (arith, get-index_loop named_keys index (duplicated ++ name ∷ []) norm h)
          ]
        ]
      ]

  -- The index gives a name that is not blank the key of the first component of that name, and gives
  -- none exactly to a name that no component has.
  index_by_name_first :
      (named_keys : List (ℕ × ℕ)) (norm : ℕ)
      → (norm == 0) ≡ false
      → get (index_by_name named_keys).0 norm ≡ first_named named_keys norm
  unfolding index_by_name
  index_by_name_first named_keys norm h = get-index_loop named_keys [] [] norm h

  abbrev pub is_missing : List (ℕ × ℕ) → ℕ → Bool
  is_missing index name = elim (get index (normalise name)) [ none ↦ true | some k ↦ false ]

  abbrev pub has_target : List (ℕ × ℕ) → ℕ → ℕ → Bool
  has_target index a name = elim (get index (normalise name)) [ none ↦ false | some k ↦ k == a ]

  elem-resolve_loop :
      (key : ℕ) (index : List (ℕ × ℕ)) (names resolved unresolved : List ℕ) (a : ℕ)
      → elem a (resolve_loop key index names resolved unresolved).0
        ≡ (elem a resolved || (any (has_target index a) names && not (key == a)))
  elem-resolve_loop key index [] resolved unresolved a = ground arith
  elem-resolve_loop key index (name ∷ names) resolved unresolved a =
      elim (Option-cases (get index (normalise name))) [
        | inl missing ↦
            ground (arith, elem-resolve_loop key index names resolved (unresolved ++ name ∷ []) a)
        | inr (target, found) ↦ elim (Bool-cases (target == key || elem target resolved)) [
          | inl skip ↦ elim (Bool-cases (target == a)) [
            | inl hit ↦ ground (
              arith,
              elem-resolve_loop key index names resolved unresolved a,
              ap (λ (k : ℕ). elem k resolved) ((==_iff target a).0 hit),
            )
            | inr miss ↦ ground (arith, elem-resolve_loop key index names resolved unresolved a)
          ]
          | inr take ↦ ground (
            arith,
            elem-append a resolved (target ∷ []),
            elem-resolve_loop key index names (resolved ++ target ∷ []) unresolved a,
          )
        ]
      ]

  resolve_loop-keep :
      (key : ℕ) (index : List (ℕ × ℕ)) (names resolved unresolved : List ℕ)
      → (resolve_loop key index names resolved unresolved).1
        ≡ unresolved ++ keep (is_missing index) names
  resolve_loop-keep key index [] resolved unresolved = sym (append-nil unresolved)
  resolve_loop-keep key index (name ∷ names) resolved unresolved =
      elim (Option-cases (get index (normalise name))) [
        | inl missing ↦ ground (
          arith,
          resolve_loop-keep key index names resolved (unresolved ++ name ∷ []),
          append_snoc unresolved name (keep (is_missing index) names),
        )
        | inr (target, found) ↦ elim (Bool-cases (target == key || elem target resolved)) [
          | inl skip ↦ ground (arith, resolve_loop-keep key index names resolved unresolved)
          | inr take ↦
              ground (arith, resolve_loop-keep key index names (resolved ++ target ∷ []) unresolved)
        ]
      ]

  resolve_loop-Distinct :
      (key : ℕ) (index : List (ℕ × ℕ)) (names resolved unresolved : List ℕ)
      → Distinct resolved
      → Distinct (resolve_loop key index names resolved unresolved).0
  resolve_loop-Distinct key index [] resolved unresolved d = d
  resolve_loop-Distinct key index (name ∷ names) resolved unresolved d =
      elim (Option-cases (get index (normalise name))) [
        | inl missing ↦
            ground
              (arith, resolve_loop-Distinct key index names resolved (unresolved ++ name ∷ []) d)
        | inr (target, found) ↦ elim (Bool-cases (target == key || elem target resolved)) [
          | inl skip ↦ ground (arith, resolve_loop-Distinct key index names resolved unresolved d)
          | inr take ↦
              let more =
                append-Distinct resolved (target ∷ []) d (refl, tt)
                  (apart resolved target (ground arith)) in
              ground (
                arith,
                resolve_loop-Distinct key index names (resolved ++ target ∷ []) unresolved more,
              )
        ]
      ]

  -- The resolved keys stand once each and are exactly the targets of the required names, less the
  -- component itself; the unresolved names are exactly those that the index does not know, in their
  -- order.
  pub resolve_exact :
      (key : ℕ) (required_names : List ℕ) (index : List (ℕ × ℕ)) (a : ℕ)
      → Distinct (resolve key required_names index).0
        × (elem a (resolve key required_names index).0
            ≡ (any (has_target index a) required_names && not (key == a)))
        × ((resolve key required_names index).1 ≡ keep (is_missing index) required_names)
  unfolding resolve
  resolve_exact key required_names index a = (
    resolve_loop-Distinct key index required_names [] [] tt,
    elem-resolve_loop key index required_names [] [] a,
    resolve_loop-keep key index required_names [] [],
  )
