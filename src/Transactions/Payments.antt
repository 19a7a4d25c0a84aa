-- ===== src/Transactions/Payments.antt =====
-- Any number of overlapping calls of `execute` and `cancel` on one transaction, and the write of PENDING
-- by the call that created it: how often a payment can leave.
use astroid_api.Common.{
  ℕ, suc, ◌+◌, ◌-◌, ◌≤◌, String, ◌≡◌, refl, sym, ◌∙◌, inl, inr, Bool, true, false, Option, none,
  some, List, [], ◌∷◌, ◌++◌, arith, if◌then◌else◌, Bool-cases, false≢true,
}
use astroid_api.Common.Results.{ok}
use astroid_api.Schema.{
  TransactionStatus, draft, pending, approved, submitted, confirmed, completed, rejected, expired,
  cancelled, failed,
}
use astroid_api.Transactions.Execution.{
  is_cancellable, threw, Transaction, is_executed, set_status, claim, cancel, Submission, answered,
  Bookkeeping, settle, record_result, consume,
}

-- A payment call that has ended, and whether the network has accepted the payment.
pub record Paid : Type 0 where
  pub submission : Submission
  pub accepted : Bool

-- An answer says whether the payment was accepted; after a call that threw, it may have been or not.
abbrev pub Agrees : Submission → Bool → Type 0
Agrees (answered successful hash ledger) accepted = accepted ≡ successful
Agrees threw accepted = Unit

-- The row, the calls that have claimed it and not paid yet, those that have paid and written nothing
-- yet, those that have recorded the result of the payment and not ended yet, and the payments that the
-- network has accepted.
pub record World : Type 0 where
  pub row : Transaction
  pub waiting : ℕ
  pub answers : List Paid
  pub recorded : ℕ
  pub payments : ℕ

abbrev pub one_if : Bool → ℕ
one_if true = 1
one_if false = 0

-- One atomic part of one call: a write of the row, or the payment. A call that throws outside the `try`
-- leaves the row as it is, and is no step.
pub data Step : World → World → Type 0 where
  claims :
      {w : World} (t : Transaction)
      → claim (some w.row) ≡ (ok t, some t)
      → Step w (record w { row = t; waiting = suc w.waiting })
  pays :
      {w : World} (p : Paid) (k : ℕ)
      → w.waiting ≡ suc k
      → Agrees p.submission p.accepted
      → Step w (record w {
        waiting = k;
        answers = p ∷ w.answers;
        payments = one_if p.accepted + w.payments;
      })
  -- The write of the answer.
  records :
      {w : World} (successful : Bool) (hash : String) (ledger : Option ℕ) (accepted : Bool)
      (before after : List Paid)
      → w.answers
        ≡ before
          ++ record { submission = answered successful hash ledger; accepted = accepted } ∷ after
      → accepted ≡ successful
      → Step w (record w {
        row = record_result successful hash ledger w.row;
        answers = before ++ after;
        recorded = suc w.recorded;
      })
  -- The `catch`, after the payment call or the write of its answer threw.
  fails :
      {w : World} (p : Paid) (before after : List Paid)
      → w.answers ≡ before ++ p ∷ after
      → Step w (record w { row = set_status failed w.row; answers = before ++ after })
  -- The `catch`, after a call that follows the write of the answer threw.
  fails_late :
      {w : World} (k : ℕ)
      → w.recorded ≡ suc k
      → Step w (record w { row = set_status failed w.row; recorded = k })
  cancels :
      {w : World} (t : Transaction)
      → cancel (some w.row) ≡ (ok t, some t)
      → Step w (record w { row = t })
  -- `repository.update(transaction.id, { status: PENDING })` of `createTransaction`, unguarded
  parks : {w : World} → Step w (record w { row = set_status pending w.row })

abbrev pub is_open : Transaction → ℕ
is_open t = if is_executed t.status then 0 else 1

-- 1 for a step that lets an executed transaction be executed again although its payment was accepted or the
-- call had recorded its result: PENDING or FAILED written over it.
abbrev pub reopened : {v w : World} → Step v w → ℕ
reopened {v} (claims t e) = 0
reopened {v} (pays p k e agrees) = 0
reopened {v} (records successful hash ledger accepted before after e agrees) = 0
reopened {v} (fails p before after e) = one_if p.accepted - is_open v.row
reopened {v} (fails_late k e) = 1 - is_open v.row
reopened {v} (cancels t e) = 0
reopened {v} parks = 1 - is_open v.row

pub data Reach (u : World) : ℕ → World → Type 0 where
  start : Reach u 0 u
  later : {v w : World} {n : ℕ} → Reach u n v → (s : Step v w) → Reach u (n + reopened s) w

-- The payments that were accepted, and those that still can be.
failures : List Paid → ℕ
failures [] = 0
failures (p ∷ more) = (1 - one_if p.accepted) + failures more

possible : World → ℕ
possible w = w.payments + w.waiting + failures w.answers + is_open w.row

failures-append : (xs ys : List Paid) → failures (xs ++ ys) ≡ failures xs + failures ys
unfolding failures
failures-append [] ys = omega arith
failures-append (p ∷ xs) ys = omega (arith, failures-append xs ys)

failures-among :
    (xs before after : List Paid) (p : Paid)
    → xs ≡ before ++ p ∷ after
    → failures xs ≡ failures (before ++ after) + (1 - one_if p.accepted)
unfolding failures
failures-among xs before after p e =
    let all : failures xs ≡ failures before + (1 - one_if p.accepted + failures after) =
      rw e (failures-append before (p ∷ after)) in
    omega (arith, all, failures-append before after)

claim-is_open : (r t : Transaction) → claim (some r) ≡ (ok t, some t) → is_open t + 1 ≤ is_open r
unfolding claim
claim-is_open r t e = elim (Bool-cases (is_executed r.status)) [
  | inl q ↦ ground (arith, q, e)
  | inr q ↦ ground (arith, q, e)
]

is_cancellable-executed : (s : TransactionStatus) → is_cancellable s ≡ true → is_executed s ≡ false
is_cancellable-executed draft h = refl
is_cancellable-executed pending h = refl
is_cancellable-executed approved h = refl
is_cancellable-executed rejected h = refl
is_cancellable-executed expired h = refl
is_cancellable-executed cancelled h = refl
is_cancellable-executed failed h = refl
is_cancellable-executed submitted h = absurd (false≢true h)
is_cancellable-executed confirmed h = absurd (false≢true h)
is_cancellable-executed completed h = absurd (false≢true h)

cancel-is_open : (r t : Transaction) → cancel (some r) ≡ (ok t, some t) → is_open t ≤ is_open r
unfolding cancel
cancel-is_open r t e = elim (Bool-cases (is_cancellable r.status)) [
  | inl q ↦ ground (arith, q, e, is_cancellable-executed r.status)
  | inr q ↦ ground (arith, q, e)
]

one_if-le : (b : Bool) → one_if b ≤ 1
one_if-le true = omega arith
one_if-le false = omega arith

record_result-is_open :
    (successful : Bool) (hash : String) (ledger : Option ℕ) (t : Transaction)
    → is_open (record_result successful hash ledger t) ≡ 1 - one_if successful
record_result-is_open true hash ledger t = refl
record_result-is_open false hash ledger t = refl

-- A step makes no more payments possible than the ones it reopens.
Step-possible : {v w : World} (s : Step v w) → possible w ≤ possible v + reopened s
unfolding possible failures
Step-possible {v} (claims t e) = omega (arith, claim-is_open v.row t e)
Step-possible (pays p k e agrees) = omega (arith, e, one_if-le p.accepted)
Step-possible {v} (records successful hash ledger accepted before after e agrees) =
    let among = failures-among v.answers before after _ e in
    let opened = record_result-is_open successful hash ledger v.row in
    let same : one_if accepted ≡ one_if successful = rw agrees refl in
    omega (arith, among, opened, same)
Step-possible {v} (fails p before after e) =
    omega (arith, failures-among v.answers before after p e, one_if-le p.accepted)
Step-possible {v} (fails_late k e) = omega (arith, e)
Step-possible {v} (cancels t e) = omega (arith, cancel-is_open v.row t e)
Step-possible {v} parks = ground arith

abbrev pub fresh : Transaction → World
fresh t = record { row = t; waiting = 0; answers = []; recorded = 0; payments = 0 }

reach-possible : {u w : World} {n : ℕ} → Reach u n w → possible w ≤ possible u + n
reach-possible start = omega arith
reach-possible (later {v} {w} {n} r s) = omega (arith, reach-possible r, Step-possible s)

consume-steps :
    (b : Bookkeeping) (successful : Bool) (budget : Option String) {u w : World} {n : ℕ} (k : ℕ)
    → w.recorded ≡ suc k
    → Reach u n w
    → (m : ℕ) × ((v : World) × (Reach u m v × (v.row ≡ (consume b successful budget w.row).1)))
consume-steps b successful none k e r = (_, (_, (r, refl)))
consume-steps b false (some budget) k e r = (_, (_, (r, refl)))
consume-steps b true (some budget) k e r = elim (Bool-cases b.consumes) [
  | inl c ↦ (_, (_, (r, rw c refl)))
  | inr c ↦ elim (Bool-cases b.recovers) [
    | inl q ↦ (_, (_, (later r (fails_late k e), rw (c, q) refl)))
    | inr q ↦ (_, (_, (r, rw (c, q) refl)))
  ]
]

settle-consume :
    (b : Bookkeeping) (successful : Bool) (hash : String) (ledger : Option ℕ) (t : Transaction)
    → b.updates ≡ true
    → (settle b (answered successful hash ledger) t).1
      ≡ (consume b successful t.budget_id (record_result successful hash ledger t)).1
unfolding settle
settle-consume b successful hash ledger t u = rw u refl

-- The steps of a call that nothing overlaps once it has paid, taken together, write what `settle` writes.
settle-steps :
    (b : Bookkeeping) (s : Submission) (accepted : Bool) (more : List Paid) (w : World)
    → Agrees s accepted
    → w.answers ≡ record { submission = s; accepted = accepted } ∷ more
    → (n : ℕ) × ((v : World) × (Reach w n v × (v.row ≡ (settle b s w.row).1)))
unfolding settle
settle-steps b threw accepted more w agrees e = elim (Bool-cases b.recovers) [
  | inl q ↦ (_, (_, (later start (fails _ [] more e), rw q refl)))
  | inr q ↦ (_, (_, (start, rw q refl)))
]
settle-steps b (answered successful hash ledger) accepted more w agrees e =
    elim (Bool-cases b.updates) [
      | inl u ↦
          let at = later start (records {w = w} successful hash ledger accepted [] more e agrees) in
          let (n, (v, (r, h))) = consume-steps b successful w.row.budget_id _ refl at in
          (n, (v, (r, h ∙ sym (settle-consume b successful hash ledger w.row u))))
      | inr u ↦ elim (Bool-cases b.recovers) [
        | inl q ↦ (_, (_, (later start (fails _ [] more e), rw (u, q) refl)))
        | inr q ↦ (_, (_, (start, rw (u, q) refl)))
      ]
    ]

-- However calls of `execute` and `cancel` overlap on a transaction and wherever they fail, the network accepts
-- at most one payment of it, and none when it has been executed before, plus one for each time that
-- the status of an executed row is written so that it can be executed again: PENDING by the call that
-- created it, or FAILED by a call whose payment was accepted, even if it got no answer, or that had
-- recorded its answer before. A transaction that can still be executed has used up one payment less.
pub paid_once :
    (t : Transaction) {w : World} {n : ℕ}
    → Reach (fresh t) n w
    → w.payments + is_open w.row ≤ is_open t + n
unfolding possible failures
paid_once t r = omega (arith, reach-possible r)
