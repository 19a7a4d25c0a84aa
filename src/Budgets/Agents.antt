-- ===== src/Budgets/Agents.antt =====
-- modules/budgets/budget.service.ts, `checkAgentBudgetWithinLimit`, `assertAgentBudgetWithinLimit` and
-- `withAgentBudgetLimit`, with `sumUnaccountedSpendByAgent` of budget.repository.ts. The agent's
-- budgets and its transactions are lists; `toUpperCase` is an argument. Each call runs under the
-- agent's lock and is one step.
use astroid_api.Common.{
  ℕ, ◌+◌, String, Bool, true, false, not, ◌&&◌, ◌||◌, Option, none, some, List, [], ◌∷◌, str_eq,
  ltb, if◌then◌else◌, includes, keep,
}
use astroid_api.Common.Results.{Result, ok, err}
use astroid_api.Schema.{
  TransactionStatus, draft, pending, approved, submitted, confirmed, completed,
}
use astroid_api.Budgets.Service.{Budgets, BudgetError, agent_budget_exceeded}

pub record AgentTransaction : Type 0 where
  pub asset : String
  pub amount : ℕ
  pub budget_id : Option String
  pub status : TransactionStatus
  pub deleted : Bool

-- `DRAFT`, `PENDING`, `APPROVED`, `SUBMITTED`, `CONFIRMED`
abbrev pub is_in_flight : TransactionStatus → Bool
is_in_flight draft = true
is_in_flight pending = true
is_in_flight approved = true
is_in_flight submitted = true
is_in_flight confirmed = true
is_in_flight _ = false

abbrev pub is_completed : TransactionStatus → Bool
is_completed completed = true
is_completed _ = false

-- No budget, or one that is not among the accounted ones.
abbrev pub charged_elsewhere : List String → Option String → Bool
charged_elsewhere accounted none = true
charged_elsewhere accounted (some id) = not (includes accounted id)

abbrev pub is_unaccounted : String → List String → AgentTransaction → Bool
is_unaccounted asset accounted t =
    not t.deleted
    && (str_eq t.asset asset
        && (is_in_flight t.status
            || (is_completed t.status && charged_elsewhere accounted t.budget_id)))

unfoldable pub sum_unaccounted_spend : String → List String → List AgentTransaction → ℕ
sum_unaccounted_spend asset accounted [] = 0
sum_unaccounted_spend asset accounted (t ∷ ts) =
    let rest = sum_unaccounted_spend asset accounted ts in
    if is_unaccounted asset accounted t then t.amount + rest else rest

-- `findEnabledByAgentId`, of the rows with the agent's identifier.
abbrev pub find_enabled : Budgets → Budgets
find_enabled agent_budgets = keep (λ e. e.1.enabled && not e.1.deleted) agent_budgets

abbrev pub identifiers : Budgets → List String
identifiers [] = []
identifiers ((id, b) ∷ more) = id ∷ identifiers more

-- The loop over the matching budgets.
abbrev pub check_each : ℕ → ℕ → Budgets → Result BudgetError Bool
check_each unaccounted amount [] = ok true
check_each unaccounted amount ((id, b) ∷ more) =
    let rest = check_each unaccounted amount more in
    if ltb b.limit_amount (b.spent + unaccounted + amount)
    then err (agent_budget_exceeded b.name)
    else rest

-- `ok false` when no budget matches, and nothing is summed.
abbrev pub check_matching : List AgentTransaction → String → ℕ → Budgets → Result BudgetError Bool
check_matching ledger asset amount [] = ok false
check_matching ledger asset amount (b ∷ more) =
    let accounted = identifiers (b ∷ more) in
    check_each (sum_unaccounted_spend asset accounted ledger) amount (b ∷ more)

abbrev pub create_row :
    AgentTransaction
    → List AgentTransaction
    → Result BudgetError Bool
    → Result BudgetError AgentTransaction × List AgentTransaction
create_row row ledger (err e) = (err e, ledger)
create_row row ledger (ok _) = (ok row, row ∷ ledger)

module _ (to_upper_case : String → String) where
  abbrev pub matching : String → Budgets → Budgets
  matching asset agent_budgets =
      keep (λ e. str_eq (to_upper_case e.1.currency) (to_upper_case asset))
        (find_enabled agent_budgets)

  unfoldable pub check_agent_budget :
      Budgets → List AgentTransaction → String → ℕ → Result BudgetError Bool
  check_agent_budget agent_budgets ledger asset amount =
      check_matching ledger asset amount (matching asset agent_budgets)

  -- `withAgentBudgetLimit`, with the insertion of a row as its operation.
  unfoldable pub with_agent_budget_limit :
      Budgets
      → List AgentTransaction
      → String
      → ℕ
      → AgentTransaction
      → Result BudgetError AgentTransaction × List AgentTransaction
  unfolding check_agent_budget
  with_agent_budget_limit agent_budgets ledger asset amount row =
      create_row row ledger (check_agent_budget agent_budgets ledger asset amount)
