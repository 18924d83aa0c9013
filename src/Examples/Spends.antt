-- ===== src/Examples/Spends.antt =====
-- One learner near the token cap, with a call in flight.
use guru_alt.Common.{ℕ, ◌≡◌, refl, true, false, Option, none, some, [], ◌∷◌, arith}
use guru_alt.Spend.{
  Settings, Estimate, Attribution, Ledger, learner, reserved, refused, pending_row, open_call,
  admit, Reservation, settle, check_deployment, deployment_total, learner_over, spend_since,
}
use guru_alt.Spend.Caps.{IsWithin}
use guru_alt.Spend.Sessions.{Reached, start, step, opens, settles, waits, Reached-IsWithin}

abbrev settings : Settings
settings = record {
  window = 24;
  learner_daily_cost_usd_limit = 0;
  learner_daily_token_limit = 100;
  spend_budget_usd = 50;
  spend_window = 24;
  spend_guard_cache_seconds = 5;
}

abbrev who : Attribution
who = record { learner_id = some 7; background = false }

abbrev estimate : Estimate
estimate = record { input_tokens = 20; output_tokens = 60; cost_usd = some 3 }

abbrev price_usd : ℕ → ℕ → Option ℕ
price_usd i o = some 2

abbrev empty : Ledger
empty = record { calls = []; cache = none }

abbrev in_flight : Ledger
in_flight = record { calls = pending_row 1 who 1000 estimate ∷ []; cache = some (1000, 0) }

open_call-empty : open_call settings empty 1000 true true 1 who estimate ≡ reserved 1 in_flight
unfolding open_call admit check_deployment deployment_total learner_over spend_since
open_call-empty = refl

-- The reserved estimate counts, so a second call does not fit.
open_call-twice :
    open_call settings in_flight 1001 true true 2 who estimate ≡ refused learner in_flight
unfolding open_call admit check_deployment deployment_total learner_over spend_since
open_call-twice = refl

abbrev reservation : Reservation
reservation = record { row_id = some 1; input_tokens = 20 }

settled_reached :
    Reached settings price_usd
      (record in_flight { calls = settle price_usd reservation 18 40 in_flight.calls })
      1030
settled_reached =
    step
      (step
        (step (start {ledger = empty} {now = 1000} refl)
          (opens true true 1 1 who estimate open_call-empty))
        (settles reservation 18 40 (λ id e. ground arith)))
      (waits 1030 (omega arith))

Reached-IsWithin_example :
    IsWithin settings (settle price_usd reservation 18 40 in_flight.calls) 1030 10 7
Reached-IsWithin_example = Reached-IsWithin 7 settled_reached

admit-background :
    (admit settings empty 1000 true (record { learner_id = some 7; background = true }) estimate).0
    ≡ none
unfolding admit check_deployment deployment_total learner_over spend_since
admit-background = refl
