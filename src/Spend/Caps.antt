-- ===== src/Spend/Caps.antt =====
-- The learner's caps hold over any sequence of calls, settlements and waiting.
use guru_alt.Common.{
  ℕ, ◌+◌, ◌*◌, ◌≤◌, ◌≡◌, subst, Bool, true, false, not, ◌&&◌, ◌||◌, inl, inr, Option, none, some,
  List, [], ◌∷◌, ◌++◌, arith, ltb, leb, ◌==◌, all, Bool-cases, Option-cases,
}
use guru_alt.Spend.{
  LlmCall, CallStatus, Settings, Estimate, Attribution, Ledger, cost_or_zero, cost_since,
  tokens_since, spend_since, tenths, is_set, learner_over, deployment_total, check_deployment,
  admit, pending_row, reserved, open_call, update,
}

module _ (learner_id window : ℕ) where
  pub cost_since-append :
      (calls : List LlmCall) (c : LlmCall) (now : ℕ)
      → cost_since (calls ++ c ∷ []) learner_id window now
        ≡ cost_since calls learner_id window now + cost_since (c ∷ []) learner_id window now
  cost_since-append [] c now = omega arith
  cost_since-append (d ∷ calls) c now = omega (arith, cost_since-append calls c now)

  pub tokens_since-append :
      (calls : List LlmCall) (c : LlmCall) (now : ℕ)
      → tokens_since (calls ++ c ∷ []) learner_id window now
        ≡ tokens_since calls learner_id window now + tokens_since (c ∷ []) learner_id window now
  tokens_since-append [] c now = omega arith
  tokens_since-append (d ∷ calls) c now = omega (arith, tokens_since-append calls c now)

  pub cost_since_later :
      (calls : List LlmCall) (now later : ℕ)
      → now ≤ later
      → cost_since calls learner_id window later ≤ cost_since calls learner_id window now
  cost_since_later [] now later h = omega arith
  cost_since_later (c ∷ calls) now later h = ground (arith, cost_since_later calls now later)

  pub tokens_since_later :
      (calls : List LlmCall) (now later : ℕ)
      → now ≤ later
      → tokens_since calls learner_id window later ≤ tokens_since calls learner_id window now
  tokens_since_later [] now later h = omega arith
  tokens_since_later (c ∷ calls) now later h = ground (arith, tokens_since_later calls now later)

-- The rows with the id are reserved at no less than the values.
abbrev pub is_reserved_for : ℕ → ℕ → ℕ → Option ℕ → LlmCall → Bool
is_reserved_for id input_tokens output_tokens cost c =
    not (c.id == id)
    || (leb (cost_or_zero cost) (cost_or_zero c.cost_usd)
        && leb (input_tokens + output_tokens) (c.input_tokens + c.output_tokens))

module _ (learner_id window now : ℕ) (id : ℕ) (status : CallStatus) (estimated : Bool)
    (input_tokens output_tokens : ℕ) (cost : Option ℕ) where
  pub since-update :
      (calls : List LlmCall)
      → all (is_reserved_for id input_tokens output_tokens cost) calls ≡ true
      → (cost_since
            (update id status estimated input_tokens output_tokens cost calls)
            learner_id
            window
            now
          ≤ cost_since calls learner_id window now)
        × (tokens_since
              (update id status estimated input_tokens output_tokens cost calls)
              learner_id
              window
              now
            ≤ tokens_since calls learner_id window now)
  since-update [] h = (omega arith, omega arith)
  since-update (c ∷ calls) h = ground (arith, since-update calls)

-- In tenths, what is spent in the window is not above a share of a cap that is set.
pub record IsWithin (settings : Settings) (calls : List LlmCall) (now share learner_id : ℕ)
    : Type 0 where
  pub cost :
      (is_set settings.learner_daily_cost_usd_limit
        && ltb
            (settings.learner_daily_cost_usd_limit * share)
            (cost_since calls learner_id settings.window now * 10))
      ≡ false
  pub tokens :
      (is_set settings.learner_daily_token_limit
        && ltb
            (settings.learner_daily_token_limit * share)
            (tokens_since calls learner_id settings.window now * 10))
      ≡ false

pub calls-check_deployment :
    (settings : Settings) (ledger : Ledger) (now : ℕ) (readable background : Bool)
    → (check_deployment settings ledger now readable background).1.calls ≡ ledger.calls
unfolding check_deployment deployment_total
calls-check_deployment settings ledger now readable background = ground arith

admitted_under :
    (settings : Settings) (ledger : Ledger) (now : ℕ) (readable : Bool) (who : Attribution)
    (estimate : Estimate) (l : ℕ)
    → (admit settings ledger now readable who estimate).0 ≡ none
    → who.learner_id ≡ some l
    → learner_over settings
        (spend_since ledger.calls l settings.window now)
        (some estimate)
        who.background
      ≡ false
unfolding admit
admitted_under settings ledger now readable who estimate l free is_l =
    let same = calls-check_deployment settings ledger now readable who.background in
    elim (Bool-cases (check_deployment settings ledger now readable who.background).0) [
      | inl refuses ↦ absurd (ground arith)
      | inr passes ↦
          elim (Bool-cases (
            learner_over settings
              (spend_since (check_deployment settings ledger now readable who.background).1.calls l
                settings.window now)
              (some estimate) who.background)) [
                | inl over ↦ absurd (ground arith)
                | inr under ↦
                    subst
                      (λ calls.
                        learner_over settings (spend_since calls l settings.window now)
                          (some estimate) who.background
                        ≡ false)
                      same under
              ]
    ]

pub calls-admit :
    (settings : Settings) (ledger : Ledger) (now : ℕ) (readable : Bool) (who : Attribution)
    (estimate : Estimate)
    → (admit settings ledger now readable who estimate).1.calls ≡ ledger.calls
unfolding admit
calls-admit settings ledger now readable who estimate =
    ground (arith, calls-check_deployment settings ledger now readable who.background)

pub open_call_reserved :
    (settings : Settings) (ledger after : Ledger) (now : ℕ) (readable writable : Bool) (id row : ℕ)
    (who : Attribution) (estimate : Estimate)
    → open_call settings ledger now readable writable id who estimate ≡ reserved row after
    → ((admit settings ledger now readable who estimate).0 ≡ none)
      × (after.calls ≡ ledger.calls ++ pending_row id who now estimate ∷ [])
unfolding open_call
open_call_reserved settings ledger after now readable writable id row who estimate e =
    let same = calls-admit settings ledger now readable who estimate in
    elim (Option-cases (admit settings ledger now readable who estimate).0) [
      | inl free ↦ (free, ground arith)
      | inr (scope, no_) ↦ absurd (ground arith)
    ]

-- A call that is opened for a learner keeps what the learner has spent in the window, with all that
-- is reserved and the call's own estimate, within each cap that is set; for background work within
-- nine tenths of it.
pub open_call-IsWithin :
    (settings : Settings) (ledger after : Ledger) (now : ℕ) (readable writable : Bool)
    (id row l : ℕ) (who : Attribution) (estimate : Estimate)
    → open_call settings ledger now readable writable id who estimate ≡ reserved row after
    → who.learner_id ≡ some l
    → IsWithin settings after.calls now (tenths who.background) l
unfolding learner_over spend_since
open_call-IsWithin settings ledger after now readable writable id row l who estimate e is_l =
    let (free, rows) =
      open_call_reserved settings ledger after now readable writable id row who estimate e in
    let under = admitted_under settings ledger now readable who estimate l free is_l in
    let new : LlmCall = pending_row id who now estimate in
    rw rows (record {
      cost = ground (arith, under, cost_since-append l settings.window ledger.calls new now);
      tokens = ground (arith, under, tokens_since-append l settings.window ledger.calls new now);
    })
