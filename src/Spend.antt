-- ===== src/Spend.antt =====
-- What may be spent, app/services/spend_guard.py, and the record of every model call,
-- app/llm/meter.py. Money is a whole number of a small unit, in place of a float of dollars; a
-- share of nine tenths is compared after both sides are multiplied by ten. A setting that is 0 or
-- missing sets no limit. The clock, the price of a call and whether the database answers are
-- arguments. The admission of a call and the insert of its row are one transaction under a lock on
-- the learner, so the steps of all sessions come one after another.
pub mod Caps
pub mod Sessions
pub mod Background
use guru_alt.Common.{
  ℕ, ◌+◌, ◌*◌, ◌/◌, Bool, true, false, not, ◌&&◌, ◌||◌, Option, none, some, List, [], ◌∷◌, ◌++◌,
  ltb, leb, ◌==◌, if◌then◌else◌,
}

pub data CallStatus : Type 0 where
  pending ok failed partial : CallStatus

pub record LlmCall : Type 0 where
  pub id : ℕ
  pub learner_id : Option ℕ
  pub created_at : ℕ
  pub input_tokens : ℕ
  pub output_tokens : ℕ
  pub cost_usd : Option ℕ
  pub status : CallStatus
  pub estimated : Bool

pub record Settings : Type 0 where
  pub window : ℕ
  pub learner_daily_cost_usd_limit : ℕ
  pub learner_daily_token_limit : ℕ
  pub spend_budget_usd : ℕ
  pub spend_window : ℕ
  pub spend_guard_cache_seconds : ℕ

pub record Spend : Type 0 where
  pub cost_usd : ℕ
  pub tokens : ℕ

pub record Estimate : Type 0 where
  pub input_tokens : ℕ
  pub output_tokens : ℕ
  pub cost_usd : Option ℕ

pub record Attribution : Type 0 where
  pub learner_id : Option ℕ
  pub background : Bool

-- The rows, and `_cache`: when the deployment's total was read, and the total.
pub record Ledger : Type 0 where
  pub calls : List LlmCall
  pub cache : Option (ℕ × ℕ)

pub data Scope : Type 0 where
  learner deployment : Scope

abbrev pub cost_or_zero : Option ℕ → ℕ
cost_or_zero none = 0
cost_or_zero (some c) = c

abbrev pub is_call_of : Option ℕ → ℕ → Bool
is_call_of none learner_id = false
is_call_of (some n) learner_id = n == learner_id

abbrev pub in_window : ℕ → ℕ → LlmCall → Bool
in_window window now call = leb now (call.created_at + window)

abbrev pub cost_since : List LlmCall → ℕ → ℕ → ℕ → ℕ
cost_since [] learner_id window now = 0
cost_since (c ∷ calls) learner_id window now =
    (if is_call_of c.learner_id learner_id && in_window window now c
      then cost_or_zero c.cost_usd
      else 0)
    + cost_since calls learner_id window now

abbrev pub tokens_since : List LlmCall → ℕ → ℕ → ℕ → ℕ
tokens_since [] learner_id window now = 0
tokens_since (c ∷ calls) learner_id window now =
    (if is_call_of c.learner_id learner_id && in_window window now c
      then c.input_tokens + c.output_tokens
      else 0)
    + tokens_since calls learner_id window now

unfoldable pub spend_since : List LlmCall → ℕ → ℕ → ℕ → Spend
spend_since calls learner_id window now = record {
  cost_usd = cost_since calls learner_id window now;
  tokens = tokens_since calls learner_id window now;
}

abbrev pub tenths : Bool → ℕ
tenths background = if background then 9 else 10

abbrev pub is_set : ℕ → Bool
is_set limit = not (limit == 0)

unfoldable pub learner_over : Settings → Spend → Option Estimate → Bool → Bool
learner_over settings spend none background =
    (is_set settings.learner_daily_cost_usd_limit
      && leb (settings.learner_daily_cost_usd_limit * tenths background) (spend.cost_usd * 10))
    || (is_set settings.learner_daily_token_limit
        && leb (settings.learner_daily_token_limit * tenths background) (spend.tokens * 10))
learner_over settings spend (some e) background =
    (is_set settings.learner_daily_cost_usd_limit
      && ltb (settings.learner_daily_cost_usd_limit * tenths background)
          ((spend.cost_usd + cost_or_zero e.cost_usd) * 10))
    || (is_set settings.learner_daily_token_limit
        && ltb (settings.learner_daily_token_limit * tenths background)
            ((spend.tokens + (e.input_tokens + e.output_tokens)) * 10))

abbrev pub total_since : List LlmCall → ℕ → ℕ → ℕ
total_since [] window now = 0
total_since (c ∷ calls) window now =
    (if in_window window now c then cost_or_zero c.cost_usd else 0) + total_since calls window now

abbrev pub is_fresh : Settings → ℕ → ℕ → Bool
is_fresh settings read now = ltb now (read + settings.spend_guard_cache_seconds)

abbrev pub cached_total : Option (ℕ × ℕ) → Option ℕ
cached_total none = none
cached_total (some (read, total)) = some total

-- The total, and the ledger with the cache as it then is.
abbrev pub read_total : Settings → Ledger → ℕ → Bool → Option ℕ × Ledger
read_total settings ledger now readable =
    if readable
    then (let total = total_since ledger.calls settings.spend_window now in
        (some total, record ledger { cache = some (now, total) }))
    else (cached_total ledger.cache, ledger)

unfoldable pub deployment_total : Settings → Ledger → ℕ → Bool → Option ℕ × Ledger
deployment_total settings ledger now readable = elim ledger.cache [
  | none ↦ read_total settings ledger now readable
  | some (read, total) ↦
      if is_fresh settings read now
      then (some total, ledger)
      else read_total settings ledger now readable
]

-- Whether the deployment refuses the call, and the ledger.
unfoldable pub check_deployment : Settings → Ledger → ℕ → Bool → Bool → Bool × Ledger
unfolding deployment_total
check_deployment settings ledger now readable background =
    if not (is_set settings.spend_budget_usd)
    then (false, ledger)
    else (let (total, after) = deployment_total settings ledger now readable in
        elim total [
          | none ↦ (false, after)
          | some t ↦ (leb (settings.spend_budget_usd * tenths background) (t * 10), after)
        ])

-- The scope of the refusal, if there is one, and the ledger.
unfoldable pub check : Settings → Ledger → ℕ → Bool → Option ℕ → Bool → Option Scope × Ledger
unfolding check_deployment learner_over spend_since
check settings ledger now readable learner_id background =
    let (refuses, after) = check_deployment settings ledger now readable background in
    if refuses then (some deployment, after) else elim learner_id [
      | none ↦ (none, after)
      | some l ↦
          if learner_over settings (spend_since after.calls l settings.window now) none background
          then (some learner, after)
          else (none, after)
    ]

unfoldable pub admit : Settings → Ledger → ℕ → Bool → Attribution → Estimate → Option Scope × Ledger
unfolding check_deployment learner_over spend_since
admit settings ledger now readable who estimate =
    let (refuses, after) = check_deployment settings ledger now readable who.background in
    if refuses then (some deployment, after) else elim who.learner_id [
      | none ↦ (none, after)
      | some l ↦
          if learner_over settings (spend_since after.calls l settings.window now) (some estimate)
            who.background
          then (some learner, after)
          else (none, after)
    ]

abbrev pub pending_row : ℕ → Attribution → ℕ → Estimate → LlmCall
pending_row id who now estimate = record {
  id = id;
  learner_id = who.learner_id;
  created_at = now;
  input_tokens = estimate.input_tokens;
  output_tokens = estimate.output_tokens;
  cost_usd = estimate.cost_usd;
  status = pending;
  estimated = true;
}

-- The refusal, or the reserved row's id; the call goes on also if the write fails, with no row.
pub data Opened : Type 0 where
  refused : Scope → Ledger → Opened
  reserved : ℕ → Ledger → Opened
  unrecorded : Ledger → Opened

unfoldable pub open_call :
    Settings → Ledger → ℕ → (readable writable : Bool) → ℕ → Attribution → Estimate → Opened
open_call settings ledger now readable writable id who estimate =
    let (refusal, after) = admit settings ledger now readable who estimate in
    elim refusal [
      | some scope ↦ refused scope after
      | none ↦
          if writable
          then reserved id
              (record after { calls = after.calls ++ pending_row id who now estimate ∷ [] })
          else unrecorded after
    ]

-- `_update`: the row with the id gets the values, and keeps its learner and its time.
abbrev pub update : ℕ → CallStatus → Bool → ℕ → ℕ → Option ℕ → List LlmCall → List LlmCall
update id status estimated input_tokens output_tokens cost [] = []
update id status estimated input_tokens output_tokens cost (c ∷ calls) =
    (if c.id == id
      then record c {
        status = status;
        estimated = estimated;
        input_tokens = input_tokens;
        output_tokens = output_tokens;
        cost_usd = cost;
      }
      else c)
    ∷ update id status estimated input_tokens output_tokens cost calls

-- What `open_call` hands out: the row, if it was written, and the reserved input.
pub record Reservation : Type 0 where
  pub row_id : Option ℕ
  pub input_tokens : ℕ

unfoldable pub settle : (ℕ → ℕ → Option ℕ) → Reservation → ℕ → ℕ → List LlmCall → List LlmCall
settle price_usd reservation input_tokens output_tokens calls = elim reservation.row_id [
  | none ↦ calls
  | some id ↦
      update id ok false input_tokens output_tokens (price_usd input_tokens output_tokens) calls
]

unfoldable pub fail : (ℕ → ℕ → Option ℕ) → Reservation → List LlmCall → List LlmCall
fail price_usd reservation calls = elim reservation.row_id [
  | none ↦ calls
  | some id ↦
      update id failed true reservation.input_tokens 0 (price_usd reservation.input_tokens 0) calls
]

unfoldable pub close_early : (ℕ → ℕ → Option ℕ) → Reservation → ℕ → List LlmCall → List LlmCall
close_early price_usd reservation delivered_chars calls = elim reservation.row_id [
  | none ↦ calls
  | some id ↦
      let output_tokens = delivered_chars / 4 in
      update id partial true reservation.input_tokens output_tokens
        (price_usd reservation.input_tokens output_tokens) calls
]

unfoldable pub background_paused : Settings → Ledger → ℕ → Bool → Bool
unfolding deployment_total
background_paused settings ledger now readable =
    if not (is_set settings.spend_budget_usd)
    then false
    else elim (deployment_total settings ledger now readable).0 [
      | none ↦ false
      | some t ↦ leb (settings.spend_budget_usd * tenths true) (t * 10)
    ]
