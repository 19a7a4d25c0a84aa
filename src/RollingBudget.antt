-- ===== src/RollingBudget.antt =====
-- modules/budgets/services/rolling-window-budget.service.ts: the check of an agent's spend over a trailing
-- window. Amounts count units of 10^-7; the enabled budgets and the agent's transactions are lists.
-- The check runs under the agent's lock on one snapshot, so it is one step.
pub mod Limits
mod Tests
use astroid_api.Common.{
  ℕ, ◌+◌, ◌-◌, String, Bool, true, false, not, ◌&&◌, Option, none, some, List, [], ◌∷◌, ltb, leb,
  if◌then◌else◌,
}
use astroid_api.Common.Results.{Result, ok, err}
use astroid_api.Schema.{TransactionStatus, rejected, expired, cancelled, failed}

pub record Transaction : Type 0 where
  pub amount : ℕ
  pub created_at : ℕ
  pub status : TransactionStatus

pub record Budget : Type 0 where
  pub id : String
  pub limit_amount : ℕ

pub record CheckResult : Type 0 where
  pub spent_in_window : ℕ
  pub limit : Option ℕ
  pub remaining_after : Option ℕ
  pub budget_id : Option String

pub record BudgetExceeded : Type 0 where
  pub budget_id : String
  pub limit : ℕ
  pub spent_in_window : ℕ
  pub attempted : ℕ

-- `EXCLUDED_STATUSES`
abbrev pub is_excluded : TransactionStatus → Bool
is_excluded failed = true
is_excluded cancelled = true
is_excluded rejected = true
is_excluded expired = true
is_excluded _ = false

-- One step of the `reduce` that finds the tightest budget.
abbrev pub tighter : Option Budget → Budget → Budget
tighter none candidate = candidate
tighter (some b) candidate = if ltb candidate.limit_amount b.limit_amount then candidate else b

unfoldable pub effective_budget : Option Budget → List Budget → Option Budget
effective_budget tightest [] = tightest
effective_budget tightest (b ∷ bs) = effective_budget (some (tighter tightest b)) bs

-- `createdAt: { gte: windowStart }` and a status that counts; `now - windowSizeMs` may be below zero.
abbrev pub is_counted : ℕ → ℕ → Transaction → Bool
is_counted window_size_ms now t =
    leb now (t.created_at + window_size_ms) && not (is_excluded t.status)

unfoldable pub spent_in_window : ℕ → ℕ → List Transaction → ℕ
spent_in_window window_size_ms now [] = 0
spent_in_window window_size_ms now (t ∷ ts) =
    let rest = spent_in_window window_size_ms now ts in
    if is_counted window_size_ms now t then t.amount + rest else rest

-- The error's details name the amount asked for, the event the amount that would be reached.
abbrev pub Outcome : Type 0
Outcome = Result BudgetExceeded CheckResult × List BudgetExceeded

abbrev pub check_limit : Option Budget → ℕ → ℕ → Outcome
check_limit none spent requested = (
  ok (record { spent_in_window = spent; limit = none; remaining_after = none; budget_id = none }),
  [],
)
check_limit (some b) spent requested =
    let exceeded : ℕ → BudgetExceeded = λ attempted. record {
      budget_id = b.id;
      limit = b.limit_amount;
      spent_in_window = spent;
      attempted = attempted;
    } in
    if ltb b.limit_amount (spent + requested)
    then (err (exceeded requested), exceeded (spent + requested) ∷ [])
    else (
      ok (record {
        spent_in_window = spent;
        limit = some b.limit_amount;
        remaining_after = some (b.limit_amount - (spent + requested));
        budget_id = some b.id;
      }),
      [],
    )

unfoldable pub check_and_reserve_budget : List Budget → List Transaction → ℕ → ℕ → ℕ → Outcome
unfolding effective_budget spent_in_window
check_and_reserve_budget budgets ledger amount window_size_ms now =
    check_limit (effective_budget none budgets) (spent_in_window window_size_ms now ledger) amount
