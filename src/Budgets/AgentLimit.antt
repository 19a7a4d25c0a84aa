-- ===== src/Budgets/AgentLimit.antt =====
-- What the agent's budgets bound: the spend that is settled and the spend that is in flight.
use astroid_api.Common.{
  ℕ, ◌+◌, ◌≤◌, String, ◌≡◌, refl, ap, ◌∙◌, ◌↔◌, ◌⊎◌, inl, inr, Bool, true, false, Option, List, [],
  ◌∷◌, arith, ltb, Bool-cases, All, eq_refl,
}
use astroid_api.Common.Results.{Result, ok, err}
use astroid_api.Schema.{draft}
use astroid_api.Budgets.OpenSpend.{Binds, unrecorded_spend, unrecorded-sum, matching-All}
use astroid_api.Budgets.Service.{Budget, Budgets, BudgetError, agent_budget_exceeded}
use astroid_api.Budgets.Agents.{
  AgentTransaction, sum_unaccounted_spend, identifiers, matching, check_each, check_matching,
  check_agent_budget, with_agent_budget_limit,
}

-- The spend that a budget has recorded, with what is on its way, fits.
abbrev pub HasRoom : ℕ → String × Budget → Type 0
HasRoom pending e = e.1.spent + pending ≤ e.1.limit_amount

-- Whether a check passes, and the room that it is about.
abbrev pub Agrees : ℕ → Budgets → Result BudgetError Bool → Type 0
Agrees pending bs checked =
    (((found : Bool) × (checked ≡ ok found)) × All (HasRoom pending) bs)
    ⊎ (((e : BudgetError) × (checked ≡ err e)) × ¬ All (HasRoom pending) bs)

check_each-cases :
    (unaccounted amount : ℕ) (bs : Budgets)
    → Agrees (unaccounted + amount) bs (check_each unaccounted amount bs)
check_each-cases unaccounted amount [] = inl ((true, refl), tt)
check_each-cases unaccounted amount ((id, b) ∷ more) =
    elim (Bool-cases (ltb b.limit_amount (b.spent + unaccounted + amount))) [
      | inl e ↦ inr ((agent_budget_exceeded b.name, rw e refl), λ h. ground (arith, e, h.0))
      | inr e ↦ elim (check_each-cases unaccounted amount more) [
        | inl ((found, q), h) ↦ inl ((found, rw e q), (ground (arith, e), h))
        | inr ((k, q), h) ↦ inr ((k, rw e q), λ all. h all.1)
      ]
    ]

check_matching-cases :
    (ledger : List AgentTransaction) (asset : String) (amount : ℕ) (bs : Budgets)
    → Agrees
        (sum_unaccounted_spend asset (identifiers bs) ledger + amount)
        bs
        (check_matching ledger asset amount bs)
check_matching-cases ledger asset amount [] = inl ((false, refl), tt)
check_matching-cases ledger asset amount (b ∷ more) = check_each-cases _ amount (b ∷ more)

-- The row that the transaction pipeline inserts.
abbrev pub draft_row : String → ℕ → Option String → AgentTransaction
draft_row asset amount budget_id = record {
  asset = asset;
  amount = amount;
  budget_id = budget_id;
  status = draft;
  deleted = false;
}

-- Every budget that binds the agent has room for what its transactions may spend.
abbrev pub AllFit : (String → String) → String → Budgets → List AgentTransaction → Type 0
AllFit up asset agent_budgets ts =
    All (λ e. Binds up asset e → HasRoom (unrecorded_spend up asset agent_budgets ts) e)
      agent_budgets

unrecorded_spend-draft :
    (up : String → String) (asset : String) (bs : Budgets) (amount : ℕ) (budget_id : Option String)
    (ledger : List AgentTransaction)
    → unrecorded_spend up asset bs (draft_row asset amount budget_id ∷ ledger)
      ≡ unrecorded_spend up asset bs ledger + amount
unrecorded_spend-draft up asset bs amount budget_id ledger = rw (eq_refl asset) (omega arith)

fit_iff :
    (up : String → String) (asset : String) (bs : Budgets) (amount : ℕ) (budget_id : Option String)
    (ledger : List AgentTransaction)
    → All
        (HasRoom (sum_unaccounted_spend asset (identifiers (matching up asset bs)) ledger + amount))
        (matching up asset bs)
      ↔ AllFit up asset bs (draft_row asset amount budget_id ∷ ledger)
fit_iff up asset bs amount budget_id ledger =
    let ids = identifiers (matching up asset bs) in
    let total : unrecorded_spend up asset bs (draft_row asset amount budget_id ∷ ledger)
        ≡ sum_unaccounted_spend asset ids ledger + amount =
      unrecorded_spend-draft up asset bs amount budget_id ledger
      ∙ ap (λ n. n + amount) (unrecorded-sum up asset bs ledger) in
    rw total (matching-All up asset (HasRoom (sum_unaccounted_spend asset ids ledger + amount)) bs)

-- A transaction that `withAgentBudgetLimit` lets in is inserted, and after it the settled spend of each of
-- the agent's budgets that is enabled, not deleted and in the asset's currency, with all that the agent's
-- transactions in the asset have spent or may spend and those budgets have not recorded, the new transaction
-- included, is within the budget's limit. When one of them has no room for it, the call throws and inserts
-- nothing.
pub agent_budget_kept :
    (to_upper_case : String → String) (agent_budgets : Budgets) (ledger : List AgentTransaction)
    (asset : String) (amount : ℕ) (budget_id : Option String)
    → (let row = draft_row asset amount budget_id in
        let result = with_agent_budget_limit to_upper_case agent_budgets ledger asset amount row in
        ((result.0 ≡ ok row)
          × (result.1 ≡ row ∷ ledger)
          × AllFit to_upper_case asset agent_budgets (row ∷ ledger))
        ⊎ (((e : BudgetError) × (result.0 ≡ err e))
            × (result.1 ≡ ledger)
            × ¬ AllFit to_upper_case asset agent_budgets (row ∷ ledger)))
unfolding with_agent_budget_limit check_agent_budget
agent_budget_kept up agent_budgets ledger asset amount budget_id =
    let bs = matching up asset agent_budgets in
    let row = draft_row asset amount budget_id in
    let (into, back) = fit_iff up asset agent_budgets amount budget_id ledger in
    elim (check_matching-cases ledger asset amount bs) [
      | inl ((found, q), h) ↦ inl (rw q refl, rw q refl, into h)
      | inr ((e, q), h) ↦ inr ((e, rw q refl), rw q refl, λ k. h (back k))
    ]
