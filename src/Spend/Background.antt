-- ===== src/Spend/Background.antt =====
-- Background work yields first.
use guru_alt.Common.{
  ℕ, ◌≡◌, Bool, true, false, inl, inr, Option, none, some, arith, Bool-cases, Option-cases,
}
use guru_alt.Spend.{
  Settings, Spend, Estimate, Ledger, is_set, spend_since, learner_over, deployment_total,
  check_deployment, admit, background_paused,
}

over_in_background :
    (settings : Settings) (spend : Spend) (estimate : Estimate)
    → learner_over settings spend (some estimate) true ≡ false
    → learner_over settings spend (some estimate) false ≡ false
unfolding learner_over
over_in_background settings spend estimate h = ground arith

check_in_background :
    (settings : Settings) (ledger : Ledger) (now : ℕ) (readable : Bool)
    → (check_deployment settings ledger now readable true).0 ≡ false
    → ((check_deployment settings ledger now readable false).0 ≡ false)
      × ((check_deployment settings ledger now readable false).1
          ≡ (check_deployment settings ledger now readable true).1)
      × (background_paused settings ledger now readable ≡ false)
unfolding check_deployment background_paused
check_in_background settings ledger now readable h =
    elim (Bool-cases (is_set settings.spend_budget_usd)) [
      | inl on ↦ elim (Option-cases (deployment_total settings ledger now readable).0) [
        | inl unread ↦ ground arith
        | inr (t, read) ↦ ground arith
      ]
      | inr off ↦ ground arith
    ]

-- Whenever a background call is admitted, background work is not paused, and the same call would be
-- admitted for a learner's own turn.
background_yields :
    (settings : Settings) (ledger : Ledger) (now : ℕ) (readable : Bool) (learner_id : Option ℕ)
    (estimate : Estimate)
    → (admit settings ledger now readable
        (record { learner_id = learner_id; background = true })
        estimate).0
      ≡ none
    → (background_paused settings ledger now readable ≡ false)
      × ((admit settings ledger now readable
            (record { learner_id = learner_id; background = false })
            estimate).0
          ≡ none)
unfolding admit
background_yields settings ledger now readable learner_id estimate h =
    elim (Bool-cases (check_deployment settings ledger now readable true).0) [
      | inl refuses ↦ absurd (ground arith)
      | inr passes ↦
          let (foreground, same, running) =
            check_in_background settings ledger now readable passes in
          (
            running,
            elim (Option-cases learner_id) [
              | inl nobody ↦ ground arith
              | inr (l, is_l) ↦
                  let after = (check_deployment settings ledger now readable true).1 in
                  let spend = spend_since after.calls l settings.window now in
                  elim (Bool-cases (learner_over settings spend (some estimate) true)) [
                    | inl over ↦ absurd (ground arith)
                    | inr under ↦ ground (arith, over_in_background settings spend estimate under)
                  ]
            ],
          )
    ]
