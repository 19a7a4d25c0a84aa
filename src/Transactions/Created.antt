-- ===== src/Transactions/Created.antt =====
-- What `createTransaction` makes of a request, and when it pays.
use astroid_api.Common.{
  ℕ, String, ◌≡◌, ◌↔◌, ◌⊎◌, inl, inr, Bool, true, false, ◌&&◌, Option, none, some, List, ◌∷◌, arith,
}
use astroid_api.Common.Results.{Result, ok, err}
use astroid_api.Budgets.Service.{Budgets}
use astroid_api.Budgets.Agents.{AgentTransaction, with_agent_budget_limit}
use astroid_api.Budgets.AgentLimit.{AllFit, agent_budget_kept}
use astroid_api.Transactions.Validator.{Text}
use astroid_api.Schema.{pending}
use astroid_api.Transactions.Execution.{Wallet, set_status, Bookkeeping, Submission}
use astroid_api.Transactions.Outcomes.{payments_in}
use astroid_api.Transactions.Creation.{
  Made, Request, Answers, CreateError, budget, check_all, agent_row, new_row, requires_approval,
  create_transaction, nothing_made, create_proposal, Proposal,
}
use astroid_api.Transactions.Governance.{
  Passes, both, Given, IsAllowed, request-Passes, then-Passes, finally-Passes, only_for-Passes,
  lift-Passes,
}

-- The new transaction fits in each of the agent's budgets with all that is in flight.
abbrev pub HasAgentRoom : (String → String) → Budgets → List AgentTransaction → Request → Type 0
HasAgentRoom up agent_budgets ledger r = AllFit up r.asset agent_budgets (agent_row r ∷ ledger)

agent-Passes :
    (up : String → String) (agent_budgets : Budgets) (ledger : List AgentTransaction) (r : Request)
    → Passes (with_agent_budget_limit up agent_budgets ledger r.asset r.amount (agent_row r)).0
      ↔ HasAgentRoom up agent_budgets ledger r
agent-Passes up agent_budgets ledger r =
    elim (agent_budget_kept up agent_budgets ledger r.asset r.amount r.budget_id) [
      | inl (q, _, h) ↦ (λ k. h, λ k. (_, q))
      | inr ((e, q), _, h) ↦ (λ (b, k). absurd (ground (arith, q, k)), λ k. absurd (h k))
    ]

-- The call throws, and the row is a draft that nothing pays.
abbrev pub LeavesDraft : String → Request → Option Proposal → Made → Type 0
LeavesDraft id r proposal made =
    ((e : CreateError) × (made.result ≡ err e))
    × ((made.row ≡ some (new_row id r))
        × ((made.proposal ≡ proposal) × (payments_in made.effects ≡ 0)))

-- The ends of a request that needs approval.
abbrev pub Asks : ℕ → String → Answers → Request → Made → Type 0
Asks now id a r made =
    let proposal = create_proposal now id a.risk.band in
    ((a.proposed ≡ false) × LeavesDraft id r none made)
    ⊎ (((a.proposed ≡ true) × ((a.announced && a.parked) ≡ false))
        × LeavesDraft id r (some proposal) made)
    ⊎ (((a.proposed ≡ true) × ((a.announced && a.parked) ≡ true))
        × (made.result ≡ ok (set_status pending (new_row id r)))
        × (made.row ≡ some (set_status pending (new_row id r)))
        × (made.proposal ≡ some proposal)
        × (payments_in made.effects ≡ 0))

module _ (ed25519 med25519 : Text → Bool) (up : String → String) (agent_budgets : Budgets)
    (ledger : List AgentTransaction) where
  -- All that a request must satisfy.
  pub IsGoverned : Answers → Budgets → Request → Type 0
  IsGoverned a budgets r =
      IsAllowed ed25519 med25519 a budgets r
      × Given r.agent_id (λ _. HasAgentRoom up agent_budgets ledger r)

  pub all-Passes :
      (a : Answers) (budgets : Budgets) (r : Request)
      → Passes (check_all ed25519 med25519 up agent_budgets ledger a budgets r)
        ↔ IsGoverned a budgets r
  unfolding check_all IsGoverned
  all-Passes a budgets r = then-Passes _ _ (request-Passes ed25519 med25519 a budgets r) (λ w.
      finally-Passes _ w (
        only_for-Passes r.agent_id _
          (λ id. both (lift-Passes budget _) (agent-Passes up agent_budgets ledger r))))

  -- The calls up to the insert of the row return.
  pub IsInserted : Answers → Budgets → Request → Type 0
  IsInserted a budgets r = IsGoverned a budgets r × (a.inserted ≡ true)

  -- The ways in which a request ends.
  abbrev pub Ends : ℕ → String → Answers → Budgets → Request → Made → Type 0
  Ends now id a budgets r made =
      (¬ IsInserted a budgets r × ((e : CreateError) × (made ≡ nothing_made e)))
      ⊎ (IsInserted a budgets r
          × (((a.recorded ≡ false) × LeavesDraft id r none made)
              ⊎ (((a.recorded ≡ true) × (requires_approval a ≡ true)) × Asks now id a r made)
              ⊎ (((a.recorded ≡ true) × (requires_approval a ≡ false))
                  × (made.proposal ≡ none)
                  × (payments_in made.effects ≡ 1))))

  module _ (now : ℕ) (id : String) (a : Answers) (budgets : Budgets) (b : Bookkeeping)
      (s : Submission) (r : Request) where
    made : Made
    made = create_transaction ed25519 med25519 up agent_budgets ledger now id a budgets b s r

    checked : Result CreateError Wallet
    checked = check_all ed25519 med25519 up agent_budgets ledger a budgets r
