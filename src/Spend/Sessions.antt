-- ===== src/Spend/Sessions.antt =====
-- The calls of all sessions, interleaved in any way, while time passes.
use guru_alt.Common.{
  ℕ, ◌/◌, ◌≤◌, ◌≡◌, refl, ap, ◌∙◌, Bool, true, false, ◌⊎◌, inl, inr, Option, some, List, [], ◌∷◌,
  ◌++◌, arith, ◌==◌, ==_iff, all, Bool-cases, Option-cases,
}
use guru_alt.Spend.{
  LlmCall, CallStatus, ok, failed, partial, Settings, Estimate, Attribution, Ledger, Scope,
  cost_since, tokens_since, tenths, admit, pending_row, Opened, reserved, refused, unrecorded,
  open_call, update, Reservation, settle, fail, close_early,
}
use guru_alt.Spend.Caps.{
  cost_since-append, tokens_since-append, cost_since_later, tokens_since_later, is_reserved_for,
  since-update, IsWithin, calls-admit, open_call_reserved, open_call-IsWithin,
}

-- The reserved row of the call, if it was written, covers the numbers.
abbrev pub Covers : Reservation → ℕ → ℕ → Option ℕ → List LlmCall → Type 0
Covers reservation input_tokens output_tokens cost calls =
    (id : ℕ)
    → reservation.row_id ≡ some id
    → all (is_reserved_for id input_tokens output_tokens cost) calls ≡ true

-- A step of one session, or of the clock. The numbers that settle a call are covered by what it
-- reserved.
pub data Step (settings : Settings) (price_usd : ℕ → ℕ → Option ℕ)
    : Ledger → ℕ → Ledger → ℕ → Type 0 where
  opens :
      {ledger after : Ledger} {now : ℕ} (readable writable : Bool) (id row : ℕ) (who : Attribution)
      (estimate : Estimate)
      → open_call settings ledger now readable writable id who estimate ≡ reserved row after
      → Step settings price_usd ledger now after now
  is_refused :
      {ledger after : Ledger} {now : ℕ} (readable writable : Bool) (id : ℕ) (scope : Scope)
      (who : Attribution) (estimate : Estimate)
      → open_call settings ledger now readable writable id who estimate ≡ refused scope after
      → Step settings price_usd ledger now after now
  is_unrecorded :
      {ledger after : Ledger} {now : ℕ} (readable writable : Bool) (id : ℕ) (who : Attribution)
      (estimate : Estimate)
      → open_call settings ledger now readable writable id who estimate ≡ unrecorded after
      → Step settings price_usd ledger now after now
  settles :
      {ledger : Ledger} {now : ℕ} (r : Reservation) (input_tokens output_tokens : ℕ)
      → Covers r input_tokens output_tokens (price_usd input_tokens output_tokens) ledger.calls
      → Step settings price_usd ledger now
          (record ledger { calls = settle price_usd r input_tokens output_tokens ledger.calls })
          now
  fails :
      {ledger : Ledger} {now : ℕ} (r : Reservation)
      → Covers r r.input_tokens 0 (price_usd r.input_tokens 0) ledger.calls
      → Step settings price_usd ledger now
          (record ledger { calls = fail price_usd r ledger.calls })
          now
  closes :
      {ledger : Ledger} {now : ℕ} (r : Reservation) (delivered_chars : ℕ)
      → Covers r r.input_tokens
          (delivered_chars / 4)
          (price_usd r.input_tokens (delivered_chars / 4))
          ledger.calls
      → Step settings price_usd ledger now
          (record ledger { calls = close_early price_usd r delivered_chars ledger.calls })
          now
  waits :
      {ledger : Ledger} {now : ℕ} (later : ℕ)
      → now ≤ later
      → Step settings price_usd ledger now ledger later

pub data Reached (settings : Settings) (price_usd : ℕ → ℕ → Option ℕ) : Ledger → ℕ → Type 0 where
  start : {ledger : Ledger} {now : ℕ} → ledger.calls ≡ [] → Reached settings price_usd ledger now
  step :
      {ledger after : Ledger} {now later : ℕ}
      → Reached settings price_usd ledger now
      → Step settings price_usd ledger now after later
      → Reached settings price_usd after later

lower-IsWithin :
    (settings : Settings) (old new : List LlmCall) (before now l : ℕ)
    → IsWithin settings old before 10 l
    → cost_since new l settings.window now ≤ cost_since old l settings.window before
    → tokens_since new l settings.window now ≤ tokens_since old l settings.window before
    → IsWithin settings new now 10 l
lower-IsWithin settings old new before now l w c t = record {
  cost = ground (arith, w.cost, c);
  tokens = ground (arith, w.tokens, t);
}

widen :
    (settings : Settings) (calls : List LlmCall) (now l : ℕ) (background : Bool)
    → IsWithin settings calls now (tenths background) l
    → IsWithin settings calls now 10 l
widen settings calls now l true w = record {
  cost = ground (arith, w.cost);
  tokens = ground (arith, w.tokens);
}
widen settings calls now l false w = w

open_call_other :
    (settings : Settings) (ledger after : Ledger) (now : ℕ) (readable writable : Bool)
    (id row l : ℕ) (who : Attribution) (estimate : Estimate)
    → open_call settings ledger now readable writable id who estimate ≡ reserved row after
    → IsWithin settings ledger.calls now 10 l
    → IsWithin settings after.calls now 10 l
open_call_other settings ledger after now readable writable id row l who estimate e w =
    let (free, rows) =
      open_call_reserved settings ledger after now readable writable id row who estimate e in
    let new : LlmCall = pending_row id who now estimate in
    let cost = cost_since-append l settings.window ledger.calls new now in
    let tokens = tokens_since-append l settings.window ledger.calls new now in
    elim (Option-cases who.learner_id) [
      | inl nobody ↦ rw rows (
          lower-IsWithin settings ledger.calls (ledger.calls ++ new ∷ []) now now l w
            (ground (arith, cost)) (ground (arith, tokens)))
      | inr (k, is_k) ↦ elim (Bool-cases (k == l)) [
        | inl mine ↦
            let me : who.learner_id ≡ some l = is_k ∙ ap some ((==_iff k l).0 mine) in
            let v =
              open_call-IsWithin settings ledger after now readable writable id row l who estimate e
                me in
            widen settings after.calls now l who.background v
        | inr other ↦ rw rows (
            lower-IsWithin settings ledger.calls (ledger.calls ++ new ∷ []) now now l w
              (ground (arith, cost)) (ground (arith, tokens)))
      ]
    ]

open_call_refused :
    (settings : Settings) (ledger after : Ledger) (now : ℕ) (readable writable : Bool) (id : ℕ)
    (who : Attribution) (estimate : Estimate) (o : Opened)
    → open_call settings ledger now readable writable id who estimate ≡ o
    → ((scope : Scope) × (o ≡ refused scope after)) ⊎ (o ≡ unrecorded after)
    → after.calls ≡ ledger.calls
unfolding open_call
open_call_refused settings ledger after now readable writable id who estimate o e h =
    let same = calls-admit settings ledger now readable who estimate in
    elim (Option-cases (admit settings ledger now readable who estimate).0) [
      | inl free ↦ ground (arith, h)
      | inr (scope, no_) ↦ ground (arith, h)
    ]

update-IsWithin :
    (settings : Settings) (calls : List LlmCall) (now l : ℕ) (r : Reservation) (status : CallStatus)
    (estimated : Bool) (input_tokens output_tokens : ℕ) (cost : Option ℕ)
    → Covers r input_tokens output_tokens cost calls
    → IsWithin settings calls now 10 l
    → (id : ℕ) → r.row_id ≡ some id
    → IsWithin settings (update id status estimated input_tokens output_tokens cost calls) now 10 l
update-IsWithin settings calls now l r status estimated input_tokens output_tokens cost covers w id
      e =
    let (c, t) =
      since-update l settings.window now id status estimated input_tokens output_tokens cost calls
        (covers id e) in
    lower-IsWithin settings calls (update id status estimated input_tokens output_tokens cost calls)
      now now l w c t

Step-IsWithin :
    {settings : Settings} {price_usd : ℕ → ℕ → Option ℕ} {ledger after : Ledger} {now later : ℕ}
    (l : ℕ)
    → Step settings price_usd ledger now after later
    → IsWithin settings ledger.calls now 10 l
    → IsWithin settings after.calls later 10 l
unfolding settle fail close_early
Step-IsWithin {settings = s} {ledger = ledger} {after = after} {now = now} l
      (opens readable writable id row who estimate e) w =
    open_call_other s ledger after now readable writable id row l who estimate e w
Step-IsWithin {settings = s} {ledger = ledger} {after = after} {now = now} l
      (is_refused readable writable id scope who estimate e) w =
    rw
      (open_call_refused s ledger after now readable writable id who estimate (refused scope after)
        e (inl (scope, refl)))
      w
Step-IsWithin {settings = s} {ledger = ledger} {after = after} {now = now} l
      (is_unrecorded readable writable id who estimate e) w =
    rw
      (open_call_refused s ledger after now readable writable id who estimate (unrecorded after) e
        (inr refl))
      w
Step-IsWithin {settings = s} {price_usd = price_usd} {ledger = ledger} {now = now} l
      (settles r i o covers) w =
    elim (Option-cases r.row_id) [
      | inl nothing ↦ rw nothing w
      | inr (id, e) ↦
          rw e (update-IsWithin s ledger.calls now l r ok false i o (price_usd i o) covers w id e)
    ]
Step-IsWithin {settings = s} {price_usd = price_usd} {ledger = ledger} {now = now} l
      (fails r covers) w =
    elim (Option-cases r.row_id) [
      | inl nothing ↦ rw nothing w
      | inr (id, e) ↦ rw e (
          update-IsWithin s ledger.calls now l r failed true r.input_tokens 0
            (price_usd r.input_tokens 0) covers w id e)
    ]
Step-IsWithin {settings = s} {price_usd = price_usd} {ledger = ledger} {now = now} l
      (closes r chars covers) w =
    elim (Option-cases r.row_id) [
      | inl nothing ↦ rw nothing w
      | inr (id, e) ↦ rw e (
          update-IsWithin s ledger.calls now l r partial true r.input_tokens (chars / 4)
            (price_usd r.input_tokens (chars / 4)) covers w id e)
    ]
Step-IsWithin {settings = s} {ledger = ledger} {now = now} l (waits later h) w =
    lower-IsWithin s ledger.calls ledger.calls now later l w
      (cost_since_later l s.window ledger.calls now later h)
      (tokens_since_later l s.window ledger.calls now later h)

-- As long as no call turns out larger than it was reserved, no learner's spending in the window,
-- pending calls included, is ever above a cap that is set, in whatever order the calls of all
-- sessions are opened, refused, left unrecorded, settled, failed or closed.
pub Reached-IsWithin :
    {settings : Settings} {price_usd : ℕ → ℕ → Option ℕ} {ledger : Ledger} {now : ℕ}
    (learner_id : ℕ)
    → Reached settings price_usd ledger now
    → IsWithin settings ledger.calls now 10 learner_id
Reached-IsWithin {settings = s} {now = now} l (start none_yet) =
    rw none_yet (record { cost = ground arith; tokens = ground arith })
Reached-IsWithin l (step before s) = Step-IsWithin l s (Reached-IsWithin l before)
