-- ===== src/Transactions/Creation.antt =====
-- modules/transactions/transaction.service.ts, `createTransaction` with `preflight` and `createProposal`: one
-- request that nothing overlaps. What the wallet, agent, policy, spending-limit and risk services
-- answer is the record Answers; the budgets and the agent's transactions are those of Budgets. The age
-- of the wallet and the intent are left out, since only the answers depend on them.
use astroid_api.Common.{
  ℕ, ◌+◌, ◌*◌, String, Bool, true, false, not, ◌&&◌, ◌||◌, Option, none, some, List, [], ◌∷◌,
  str_eq, if◌then◌else◌,
}
use astroid_api.Common.Results.{Result, ok, err, ◌>>=◌}
use astroid_api.Schema.{draft, pending, AgentStatus, RiskBand, high, critical}
use astroid_api.Budgets.Service.{Budgets, BudgetError, assert_within_budget}
use astroid_api.Budgets.Agents.{AgentTransaction, with_agent_budget_limit}
use astroid_api.Transactions.Validator.{Text, text_of, Invalid, validate_transaction_input}
use astroid_api.Transactions.Execution.{
  Transaction, TransactionError, Wallet, assert_wallet_spendable, set_status, Effect, emit_created,
  emit_proposal_created, Bookkeeping, Submission, execute,
}

-- `CreateTransactionInput`, as far as the service reads it.
pub record Request : Type 0 where
  pub agent_id : Option String
  pub budget_id : Option String
  pub asset : String
  pub amount : ℕ
  pub recipient_address : String
  pub memo : Option String
  pub memo_type : Option String
  pub memo_value : Option String

pub record PolicyAnswer : Type 0 where
  pub passed : Bool
  pub requires_approval : Bool

pub record Assessment : Type 0 where
  pub band : RiskBand
  pub requires_approval : Bool

-- The answers for one request: the wallet and the agent's status as they are found, whether the velocity
-- check and the spending-limit evaluation return, the policies' verdict, and the risk. Then, whether the
-- calls that change something return: the agent's lock and the insert of the row (`inserted`); the
-- lock's release, `onTransactionCreated`, if it is given, `risk.record` and the event of the new
-- row (`recorded`); the insert of the proposal, its event, and the write of PENDING. The checks'
-- own reads of the database return.
pub record Answers : Type 0 where
  pub wallet : Option Wallet
  pub agent : Option AgentStatus
  pub velocity : Bool
  pub spending_limits : Bool
  pub policy : PolicyAnswer
  pub risk : Assessment
  pub inserted : Bool
  pub recorded : Bool
  pub proposed : Bool
  pub announced : Bool
  pub parked : Bool

pub data CreateError : Type 0 where
  transaction : TransactionError → CreateError
  invalid : Invalid → CreateError
  budget : BudgetError → CreateError
  agent_not_found agent_not_active : CreateError
  velocity_exceeded spending_limit_exceeded policy_violation : CreateError
  not_inserted not_recorded not_proposed not_announced not_parked : CreateError

-- An approval that was asked for.
pub record Proposal : Type 0 where
  pub transaction_id : String
  pub dual : Bool
  pub required_approvals : ℕ
  pub expires_at : ℕ

abbrev pub lift_error {ℓ κ μ} :
    {E : Type ℓ} {F : Type κ} {A : Type μ} → (E → F) → Result E A → Result F A
lift_error f (ok a) = ok a
lift_error f (err e) = err (f e)

abbrev pub guard : Bool → CreateError → Result CreateError Bool
guard b e = if b then ok true else err e

-- `input.memoType && input.memoValue ? input.memoValue : input.memo`; the empty string is false.
abbrev pub is_truthy : Option String → Bool
is_truthy none = false
is_truthy (some s) = not (str_eq s "")

abbrev pub memo_of : Request → Option String
memo_of r = if is_truthy r.memo_type && is_truthy r.memo_value then r.memo_value else r.memo

abbrev pub text_of? : Option String → Option Text
text_of? none = none
text_of? (some s) = some (text_of s)

abbrev pub is_active_agent : AgentStatus → Bool
is_active_agent AgentStatus.active = true
is_active_agent _ = false

-- The check of the agent in `preflight`.
abbrev pub check_agent : Option String → Option AgentStatus → Result CreateError Bool
check_agent none status = ok true
check_agent (some id) none = err agent_not_found
check_agent (some id) (some status) = guard (is_active_agent status) agent_not_active

abbrev pub only_for {ℓ} :
    {A : Type ℓ} → Option String → (String → Result CreateError A) → Result CreateError (Option A)
only_for none f = ok none
only_for (some id) f = f id >>= λ a. ok (some a)

module _ (is_valid_ed25519 is_valid_med25519 : Text → Bool) where
  abbrev pub check_input : Request → Result CreateError Bool
  check_input r = lift_error invalid (
      validate_transaction_input is_valid_ed25519 is_valid_med25519 (text_of r.recipient_address)
        (text_of? (memo_of r)))

  unfoldable pub preflight : Answers → Request → Result CreateError Wallet
  preflight a r = lift_error transaction (assert_wallet_spendable a.wallet) >>= λ wallet.
      check_input r >>= λ _. check_agent r.agent_id a.agent >>= λ _. ok wallet

  -- Everything before the row is inserted, except for the agent's budgets.
  unfoldable pub check_request : Answers → Budgets → Request → Result CreateError Wallet
  unfolding preflight
  check_request a budgets r = preflight a r >>= λ wallet.
      only_for r.agent_id (λ _. guard a.velocity velocity_exceeded) >>= λ _.
      only_for r.agent_id (λ _. guard a.spending_limits spending_limit_exceeded) >>= λ _.
      guard a.policy.passed policy_violation >>= λ _.
      only_for r.budget_id (λ id. lift_error budget (assert_within_budget budgets id r.amount).0)
      >>= λ _. ok wallet

-- The row of `createTransactionRow`, with the identifier that the database gives it.
abbrev pub new_row : String → Request → Transaction
new_row id r = record {
  id = id;
  asset = r.asset;
  amount = r.amount;
  recipient_address = r.recipient_address;
  memo = memo_of r;
  budget_id = r.budget_id;
  status = draft;
  stellar_hash = none;
  confirmation_count = 0;
}

abbrev pub agent_row : Request → AgentTransaction
agent_row r = record {
  asset = r.asset;
  amount = r.amount;
  budget_id = r.budget_id;
  status = draft;
  deleted = false;
}

abbrev pub is_severe : RiskBand → Bool
is_severe high = true
is_severe critical = true
is_severe _ = false

unfoldable pub create_proposal : ℕ → String → RiskBand → Proposal
create_proposal now id band = record {
  transaction_id = id;
  dual = is_severe band;
  required_approvals = if is_severe band then 2 else 1;
  expires_at = now + 72 * 3600000;
}

-- What the call has made when it ends.
pub record Made : Type 0 where
  pub result : Result CreateError Transaction
  pub row : Option Transaction
  pub proposal : Option Proposal
  pub effects : List Effect

abbrev pub nothing_made : CreateError → Made
nothing_made e = record { result = err e; row = none; proposal = none; effects = [] }

abbrev pub requires_approval : Answers → Bool
requires_approval a = a.policy.requires_approval || a.risk.requires_approval

-- The call throws after the row was inserted: the row stays a draft.
abbrev pub left_draft : CreateError → Transaction → Option Proposal → List Effect → Made
left_draft e row proposal effects = record {
  result = err e;
  row = some row;
  proposal = proposal;
  effects = effects;
}

-- What follows the insert of the proposal: its event, and the write of PENDING.
abbrev pub park : Answers → Proposal → Transaction → Made
park a proposal row =
    if not a.announced
    then left_draft not_announced row (some proposal) (emit_created ∷ [])
    else if not a.parked
    then left_draft not_parked row (some proposal) (emit_created ∷ emit_proposal_created ∷ [])
    else record {
      result = ok (set_status pending row);
      row = some (set_status pending row);
      proposal = some proposal;
      effects = emit_created ∷ emit_proposal_created ∷ [];
    }

unfoldable pub ask_approval : ℕ → Answers → Transaction → Made
unfolding create_proposal
ask_approval now a row =
    if not a.proposed
    then left_draft not_proposed row none (emit_created ∷ [])
    else park a (create_proposal now row.id a.risk.band) row

abbrev pub execute_now : Answers → Bookkeeping → Submission → Transaction → Made
execute_now a b s row =
    let (result, row', effects) = execute b s a.wallet (some row) in
    record {
      result = lift_error transaction result;
      row = row';
      proposal = none;
      effects = emit_created ∷ effects;
    }

-- From the inserted row on.
unfoldable pub govern : ℕ → Answers → Bookkeeping → Submission → Transaction → Made
unfolding ask_approval
govern now a b s row =
    if not a.recorded
    then left_draft not_recorded row none []
    else if requires_approval a
    then ask_approval now a row
    else execute_now a b s row

module _ (is_valid_ed25519 is_valid_med25519 : Text → Bool) (to_upper_case : String → String)
    (agent_budgets : Budgets) (ledger : List AgentTransaction) where
  -- The agent's budgets, under its lock.
  abbrev pub check_agent_budgets : Request → Result CreateError (Option AgentTransaction)
  check_agent_budgets r = only_for r.agent_id λ _.
      lift_error budget
        (with_agent_budget_limit to_upper_case agent_budgets ledger r.asset r.amount
          (agent_row r)).0

  unfoldable pub check_all : Answers → Budgets → Request → Result CreateError Wallet
  unfolding check_request
  check_all a budgets r = check_request is_valid_ed25519 is_valid_med25519 a budgets r >>= λ wallet.
      check_agent_budgets r >>= λ _. ok wallet

  abbrev create_checked :
      ℕ → String → Answers → Bookkeeping → Submission → Request → Result CreateError Wallet → Made
  create_checked now id a b s r (err e) = nothing_made e
  create_checked now id a b s r (ok wallet) =
      if a.inserted then govern now a b s (new_row id r) else nothing_made not_inserted

  unfoldable pub create_transaction :
      ℕ → String → Answers → Budgets → Bookkeeping → Submission → Request → Made
  unfolding govern check_all
  create_transaction now id a budgets b s r = create_checked now id a b s r (check_all a budgets r)
