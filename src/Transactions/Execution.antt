-- ===== src/Transactions/Execution.antt =====
-- modules/transactions/transaction.service.ts, `execute` and `cancel`: one transaction row, with the calls of
-- the wallet service, of the Stellar network and of the budget service as arguments. `execute` is its
-- reads and checks, then `claim` (its serializable unit of work), the payment, and `settle`, so
-- that two calls can overlap between them.
use astroid_api.Common.{
  ℕ, String, Bool, true, false, not, Option, none, some, List, [], ◌∷◌, ◌++◌, ◌==◌, if◌then◌else◌,
}
use astroid_api.Common.Results.{Result, ok, err}
use astroid_api.Schema.{
  TransactionStatus, draft, pending, submitted, confirmed, completed, cancelled, failed,
  WalletStatus,
}

-- What the service reads of a row: what it pays, and what it writes to it.
pub record Transaction : Type 0 where
  pub id : String
  pub asset : String
  pub amount : ℕ
  pub recipient_address : String
  pub memo : Option String
  pub budget_id : Option String
  pub status : TransactionStatus
  pub stellar_hash : Option String
  pub confirmation_count : ℕ

pub record Wallet : Type 0 where
  pub stellar_address : String
  pub status : WalletStatus

-- The exceptions of the service, and those that its callees throw.
pub data TransactionError : Type 0 where
  not_found already_executed not_cancellable : TransactionError
  wallet_not_found wallet_frozen : TransactionError
  stellar_error database_error budget_error : TransactionError

-- `EXECUTED_STATUSES`
abbrev pub is_executed : TransactionStatus → Bool
is_executed completed = true
is_executed submitted = true
is_executed confirmed = true
is_executed _ = false

-- `CANCELLABLE_STATUSES`
abbrev pub is_cancellable : TransactionStatus → Bool
is_cancellable draft = true
is_cancellable pending = true
is_cancellable _ = false

abbrev pub is_active : WalletStatus → Bool
is_active WalletStatus.active = true
is_active _ = false

-- `assertWalletSpendable`; a frozen wallet and one that is not active throw the same code.
abbrev pub assert_wallet_spendable : Option Wallet → Result TransactionError Wallet
assert_wallet_spendable none = err wallet_not_found
assert_wallet_spendable (some w) = if is_active w.status then ok w else err wallet_frozen

abbrev pub set_status : TransactionStatus → Transaction → Transaction
set_status status t = record t { status = status }

-- A guarded write of the row that `findById` sees, if it sees one, in one serializable unit of work.
abbrev pub Guarded : Type 0
Guarded = Result TransactionError Transaction × Option Transaction

unfoldable pub claim : Option Transaction → Guarded
claim none = (err not_found, none)
claim (some t) =
    let t' = set_status submitted t in
    if is_executed t.status then (err already_executed, some t) else (ok t', some t')

unfoldable pub cancel : Option Transaction → Guarded
cancel none = (err not_found, none)
cancel (some t) =
    let t' = set_status cancelled t in
    if is_cancellable t.status then (ok t', some t') else (err not_cancellable, some t)

-- What `submitPayment` is called with.
pub record Payment : Type 0 where
  pub source_address : String
  pub destination_address : String
  pub asset : String
  pub amount : ℕ
  pub memo : Option String

abbrev pub payment_of : Wallet → Transaction → Payment
payment_of w t = record {
  source_address = w.stellar_address;
  destination_address = t.recipient_address;
  asset = t.asset;
  amount = t.amount;
  memo = t.memo;
}

-- How a call of `submitPayment` ends.
pub data Submission : Type 0 where
  answered : (successful : Bool) (hash : String) (ledger : Option ℕ) → Submission
  threw : Submission

-- Whether the calls after the payment return: the write of its result, the call of
-- `budgets.consume`, and the write of FAILED.
pub record Bookkeeping : Type 0 where
  pub updates : Bool
  pub consumes : Bool
  pub recovers : Bool

pub data Effect : Type 0 where
  emit_created emit_proposal_created emit_submitted emit_completed emit_failed : Effect
  submit_payment : Payment → Effect
  consume_budget : (budget_id : String) (amount : ℕ) → Effect

-- `result.ledger ? 1 : 0`
abbrev pub confirmations : Option ℕ → ℕ
confirmations none = 0
confirmations (some ledger) = if ledger == 0 then 0 else 1

abbrev pub Settled : Type 0
Settled = Result TransactionError Transaction × Transaction × List Effect

-- The `catch` of `execute`.
abbrev pub fail_with : Bookkeeping → TransactionError → Transaction → List Effect → Settled
fail_with b e row effects =
    if b.recovers
    then (err e, set_status failed row, effects ++ emit_failed ∷ [])
    else (err database_error, row, effects)

abbrev pub outcome_event : Bool → Effect
outcome_event true = emit_completed
outcome_event false = emit_failed

-- The call of `budgets.consume`, with the transaction's budget.
abbrev pub consume : Bookkeeping → Bool → Option String → Transaction → Settled
consume b successful none row = (ok row, row, outcome_event successful ∷ [])
consume b successful (some budget_id) row =
    let call = consume_budget budget_id row.amount in
    if not successful
    then (ok row, row, emit_failed ∷ [])
    else if b.consumes
    then (ok row, row, call ∷ emit_completed ∷ [])
    else fail_with b budget_error row (call ∷ [])

-- `result.successful ? COMPLETED : FAILED`, with the hash and the confirmations.
abbrev pub record_result : Bool → String → Option ℕ → Transaction → Transaction
record_result successful hash ledger row = record row {
  status = if successful then completed else failed;
  stellar_hash = some hash;
  confirmation_count = confirmations ledger;
}

-- What `execute` does once the payment call has ended.
unfoldable pub settle : Bookkeeping → Submission → Transaction → Settled
settle b threw row = fail_with b stellar_error row []
settle b (answered successful hash ledger) row =
    let row' = record_result successful hash ledger row in
    if b.updates then consume b successful row.budget_id row' else fail_with b database_error row []

abbrev Executed : Type 0
Executed = Result TransactionError Transaction × Option Transaction × List Effect

settle_claimed : Bookkeeping → Submission → Wallet → Transaction → Executed
settle_claimed b s w t =
    let (r, row, effects) = settle b s t in
    (r, some row, emit_submitted ∷ submit_payment (payment_of w t) ∷ effects)

-- What follows the claim of a row.
unfoldable pub pay_claimed : Bookkeeping → Submission → Wallet → Guarded → Executed
unfolding settle_claimed
pay_claimed b s w (ok t, row) = settle_claimed b s w t
pay_claimed b s w (err e, row) = (err e, row, [])

abbrev pub executable : Option Transaction → Option Wallet → Result TransactionError Wallet
executable none wallet = err not_found
executable (some t) wallet =
    if is_executed t.status then err already_executed else assert_wallet_spendable wallet

abbrev execute_checked :
    Bookkeeping → Submission → Result TransactionError Wallet → Option Transaction → Executed
execute_checked b s (err e) row = (err e, row, [])
execute_checked b s (ok w) row = pay_claimed b s w (claim row)

-- A call that nothing overlaps.
unfoldable pub execute : Bookkeeping → Submission → Option Wallet → Option Transaction → Executed
unfolding claim pay_claimed
execute b s wallet row = execute_checked b s (executable row wallet) row
