-- ===== src/Examples/Knowledge.antt =====
-- The prerequisite table as two inserts make it, and a store with a curated subject and two private
-- ones.
use guru_alt.Common.{
  ℕ, ◌≡◌, ◌≢◌, ◌⊎◌, refl, leb, Bool, true, false, ◌&&◌, Option, none, some, List, [], ◌∷◌, ◌++◌,
  any,
}
use guru_alt.Graph.{Edge, here, next}
use guru_alt.Knowledge.Edges.{
  added, would_create_cycle_error, self_loop_error, duplicate_error, missing_kc_error,
  add_prerequisite, is_edge, Edited, unchanged, after_add, OnCycle, Leads, Edited-no_new_cycle,
  add_prerequisite-cases,
}
use guru_alt.Knowledge.Visibility.{
  Subject, Store, ok, other_subject, no_such_topic, require_visible_subject, require_visible_topic,
  require_visible_kc, resolve_source_scope, list_subjects, seen_by,
}
use guru_alt.Knowledge.Visibility.Private.{IsScope, private_as_absent, resolve_source_scope-IsScope}

abbrev edge : ℕ → ℕ → Edge
edge p k = record { prereq_kc_id = p; kc_id = k }

abbrev table : List Edge
table = edge 1 2 ∷ edge 2 3 ∷ []

-- The components 1 to 3 exist.
abbrev is_kc : ℕ → Bool
is_kc k = leb 1 k && leb k 3

-- A table that another writer left with a cycle, to which an edge is added.
abbrev cyclic : List Edge
cyclic = edge 1 2 ∷ edge 2 1 ∷ []

cyclic-Edited : Edited cyclic (cyclic ++ edge 2 3 ∷ [])
unfolding add_prerequisite
cyclic-Edited = after_add is_kc 3 2 unchanged refl

add_prerequisite-closing : add_prerequisite is_kc table 1 3 ≡ some would_create_cycle_error
unfolding add_prerequisite
add_prerequisite-closing = refl

add_prerequisite-missing : add_prerequisite is_kc table 4 3 ≡ some missing_kc_error
unfolding add_prerequisite
add_prerequisite-missing = refl

Edited-no_new_cycle_example : OnCycle cyclic 1 2
Edited-no_new_cycle_example = Edited-no_new_cycle 1 2 cyclic-Edited (refl, next here refl)

abbrev last_kc : ℕ
last_kc = 3

add_prerequisite-cases_example :
    ((add_prerequisite is_kc table 3 1 ≡ some would_create_cycle_error) × Leads table 3 1)
    ⊎ (((add_prerequisite is_kc table 3 1 ≡ some self_loop_error) × (last_kc ≡ 1))
        ⊎ (((add_prerequisite is_kc table 3 1 ≡ some duplicate_error)
              × (any (is_edge 3 1) table ≡ true))
            ⊎ (((add_prerequisite is_kc table 3 1 ≡ some missing_kc_error)
                  × ((is_kc 3 && is_kc 1) ≡ false))
                ⊎ ((add_prerequisite is_kc table 3 1 ≡ some (added (table ++ edge 1 3 ∷ [])))
                    × (last_kc ≢ 1)
                    × (any (is_edge 3 1) table ≡ false)
                    × ((is_kc 3 && is_kc 1) ≡ true)
                    × (¬ Leads table 3 1)))))
add_prerequisite-cases_example = add_prerequisite-cases is_kc table 3 1

abbrev owned : ℕ → Option ℕ → Subject
owned id owner = record {
  id = id;
  owner_learner_id = owner;
  superseded_by_id = none;
  withdrawn_at = none;
}

abbrev old : Subject
old = record { id = 13; owner_learner_id = none; superseded_by_id = some 10; withdrawn_at = none }

abbrev store : Store
store = record {
  subjects = owned 10 none ∷ owned 11 (some 1) ∷ owned 12 (some 2) ∷ old ∷ [];
  topics = record { id = 20; subject_id = 11 } ∷ record { id = 21; subject_id = 12 } ∷ [];
  kcs = record { id = 30; topic_id = 20 } ∷ [];
  plans = record { learner_id = 1; subject_id = 13 } ∷ [];
}

list_subjects-store :
    (list_subjects store (some 1) ≡ owned 10 none ∷ owned 11 (some 1) ∷ old ∷ [])
    × (list_subjects store (some 2) ≡ owned 10 none ∷ owned 12 (some 2) ∷ [])
unfolding list_subjects
list_subjects-store = (refl, refl)

resolve_source_scope-store :
    (resolve_source_scope store 1 none (some 20) ≡ ok (some 11, some 20))
    × (resolve_source_scope store 1 (some 10) (some 20) ≡ other_subject 20 10)
    × (resolve_source_scope store 1 (some 10) (some 21) ≡ no_such_topic 21)
unfolding resolve_source_scope
resolve_source_scope-store = (refl, refl, refl)

private_as_absent_example :
    (require_visible_subject (seen_by 1 store) 12 1 ≡ require_visible_subject store 12 1)
    × (require_visible_topic (seen_by 1 store) 12 1 ≡ require_visible_topic store 12 1)
    × (require_visible_kc (seen_by 1 store) 12 1 ≡ require_visible_kc store 12 1)
    × (resolve_source_scope (seen_by 1 store) 1 (some 12) (some 21)
        ≡ resolve_source_scope store 1 (some 12) (some 21))
private_as_absent_example =
    private_as_absent store 1 (refl, (refl, (refl, (refl, tt)))) 12 (some 12) (some 21)

resolve_source_scope-IsScope_example : IsScope store 1 none (some 20) (some 11) (some 20)
resolve_source_scope-IsScope_example =
    resolve_source_scope-IsScope store 1 none (some 20) (some 11) (some 20)
      resolve_source_scope-store.0
