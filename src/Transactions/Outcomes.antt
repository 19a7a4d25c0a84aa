-- ===== src/Transactions/Outcomes.antt =====
-- When `execute` pays, and what it leaves behind.
use astroid_api.Common.{
  ℕ, suc, ◌+◌, String, ◌≡◌, refl, sym, ap, ◌∙◌, ◌⊎◌, inl, inr, Bool, true, false, Option, none,
  some, List, [], ◌∷◌, arith, if◌then◌else◌, Bool-cases,
}
use astroid_api.Common.Results.{ok, err}
use astroid_api.Transactions.Execution.{
  consume, Transaction, TransactionError, Wallet, is_executed, is_active, claim, Submission,
  answered, threw, Bookkeeping, settle, record_result, execute, pay_claimed, Effect, submit_payment,
  not_found, already_executed, wallet_not_found, wallet_frozen, consume_budget,
}

-- The payments among effects.
abbrev pub payments_in : List Effect → ℕ
payments_in [] = 0
payments_in (submit_payment p ∷ more) = suc (payments_in more)
payments_in (_ ∷ more) = payments_in more

-- What was charged to budgets.
abbrev pub charged_in : List Effect → ℕ
charged_in [] = 0
charged_in (consume_budget id amount ∷ more) = amount + charged_in more
charged_in (_ ∷ more) = charged_in more

unfoldable pub IsExecutable : Option Transaction → Option Wallet → Type 0
IsExecutable row wallet =
    (t : Transaction) × (w : Wallet) × (row ≡ some t)
    × (wallet ≡ some w)
    × (is_executed t.status ≡ false)
    × (is_active w.status ≡ true)

consume-payments :
    (b : Bookkeeping) (ok? : Bool) (id : Option String) (t : Transaction)
    → payments_in (consume b ok? id t).2 ≡ 0
consume-payments b true none t = refl
consume-payments b false none t = refl
consume-payments b true (some id) t = ground arith
consume-payments b false (some id) t = refl

settle-payments :
    (b : Bookkeeping) (s : Submission) (t : Transaction) → payments_in (settle b s t).2 ≡ 0
unfolding settle
settle-payments b threw t = ground arith
settle-payments b (answered ok? hash ledger) t =
    ground (arith, consume-payments b ok? t.budget_id (record_result ok? hash ledger t))

-- `execute` sends a payment exactly when the organization has the transaction, its status is none of
-- SUBMITTED, CONFIRMED and COMPLETED, and the wallet exists and is ACTIVE: then it sends one. In
-- every other case it throws, changes nothing and emits nothing.
pub execute_pays_once :
    (b : Bookkeeping) (s : Submission) (row : Option Transaction) (wallet : Option Wallet)
    → (IsExecutable row wallet × (payments_in (execute b s wallet row).2 ≡ 1))
      ⊎ (¬ IsExecutable row wallet
          × ((execute b s wallet row).1 ≡ row)
          × ((execute b s wallet row).2 ≡ [])
          × ((e : TransactionError) × ((execute b s wallet row).0 ≡ err e)))
unfolding execute IsExecutable claim pay_claimed
execute_pays_once b s none wallet =
    inr (λ (t, w, q, _, _, _). ground arith, refl, refl, (not_found, refl))
execute_pays_once b s (some t) none = elim (Bool-cases (is_executed t.status)) [
  | inl q ↦
      inr (λ (u, w, k, _, l, _). ground arith, rw q refl, rw q refl, (already_executed, rw q refl))
  | inr q ↦
      inr (λ (u, w, _, k, _, _). ground arith, rw q refl, rw q refl, (wallet_not_found, rw q refl))
]
execute_pays_once b s (some t) (some w) = elim (Bool-cases (is_executed t.status)) [
  | inl q ↦
      inr (λ (u, v, k, _, l, _). ground arith, rw q refl, rw q refl, (already_executed, rw q refl))
  | inr q ↦ elim (Bool-cases (is_active w.status)) [
    | inl k ↦ inl ((t, w, refl, refl, q, k), rw (q, k, q) (ap suc (settle-payments b s _)))
    | inr k ↦ inr (
      λ (u, v, l, m, n, o). ground arith,
      rw (q, k) refl,
      rw (q, k) refl,
      (wallet_frozen, rw (q, k) refl),
    )
  ]
]

abbrev pub budget_amount : Option String → ℕ → ℕ
budget_amount none amount = 0
budget_amount (some id) amount = amount

-- What `settle` is to leave when nothing throws.
pub IsRecorded : Bool → String → Option ℕ → Transaction → Transaction → ℕ → Type 0
IsRecorded successful hash ledger t row charged =
    (row ≡ record_result successful hash ledger t)
    × (charged ≡ (if successful then budget_amount t.budget_id t.amount else 0))

consume-charged :
    (b : Bookkeeping) (ok? : Bool) (id : Option String) (t u : Transaction)
    → (consume b ok? id t).0 ≡ ok u
    → (u ≡ t)
      × ((consume b ok? id t).1 ≡ t)
      × (charged_in (consume b ok? id t).2 ≡ (if ok? then budget_amount id t.amount else 0))
consume-charged b true none t u h = (cc, refl, refl)
consume-charged b false none t u h = (cc, refl, refl)
consume-charged b true (some id) t u h = elim (Bool-cases b.consumes) [
  | inl e ↦ rw e ((ground (arith, e, h), refl, omega arith))
  | inr e ↦ elim (Bool-cases b.recovers) [
    | inl k ↦ absurd (ground (arith, e, k, h))
    | inr k ↦ absurd (ground (arith, e, k, h))
  ]
]
consume-charged b false (some id) t u h = (cc, refl, refl)

-- When the part of `execute` after the payment returns, the call of the network was answered; the row
-- that it returns and leaves has the status that the answer says and its hash, and the budget of
-- the transaction has been charged with its amount if the payment succeeded, and with nothing if not.
settle_returns :
    (b : Bookkeeping) (s : Submission) (t u : Transaction)
    → (settle b s t).0 ≡ ok u
    → (successful : Bool) × (hash : String) × (ledger : Option ℕ) × (s
        ≡ answered successful hash ledger)
      × ((settle b s t).1 ≡ u)
      × IsRecorded successful hash ledger t u (charged_in (settle b s t).2)
unfolding settle IsRecorded
settle_returns b threw t u h = elim (Bool-cases b.recovers) [
  | inl e ↦ absurd (ground (arith, e, h))
  | inr e ↦ absurd (ground (arith, e, h))
]
settle_returns b (answered successful hash ledger) t u h = elim (Bool-cases b.updates) [
  | inl e ↦
      let row : Transaction = record_result successful hash ledger t in
      let (same, left, charged) = consume-charged b successful t.budget_id row u (rw e at h) in
      (successful, hash, ledger, refl, rw e (left ∙ sym same), (same, rw e charged))
  | inr e ↦ elim (Bool-cases b.recovers) [
    | inl k ↦ absurd (ground (arith, e, k, h))
    | inr k ↦ absurd (ground (arith, e, k, h))
  ]
]
