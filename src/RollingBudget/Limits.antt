-- ===== src/RollingBudget/Limits.antt =====
-- Spending that is checked first stays within the tightest limit.
use astroid_api.Common.{
  leb, not, ◌&&◌, ℕ, ◌+◌, ◌≤◌, ◌≡◌, refl, subst, inl, inr, Bool, true, false, none, some, List, [],
  ◌∷◌, arith, ltb, if◌then◌else◌, Bool-cases, All, In,
}
use astroid_api.Common.Results.{Result, ok, err}
use astroid_api.Schema.{
  TransactionStatus, draft, pending, approved, submitted, confirmed, completed, rejected, expired,
  cancelled, failed,
}
use astroid_api.RollingBudget.{
  Transaction, Budget, is_excluded, effective_budget, spent_in_window, check_and_reserve_budget,
}

among_more : (e b c : Budget) (bs : List Budget) → In e (b ∷ bs) → In e (b ∷ c ∷ bs)
among_more e b c bs (inl h) = inl h
among_more e b c bs (inr h) = inr (inr h)

-- Every budget in the list has at least this limit, and one has exactly this one.
effective_tightest :
    (b : Budget) (bs : List Budget)
    → (e : Budget) × (effective_budget (some b) bs ≡ some e)
      × (e.limit_amount ≤ b.limit_amount)
      × All (λ c. e.limit_amount ≤ c.limit_amount) bs
      × In e (b ∷ bs)
unfolding effective_budget
effective_tightest b [] = (b, refl, omega arith, tt, inl refl)
effective_tightest b (c ∷ bs) = elim (Bool-cases (ltb c.limit_amount b.limit_amount)) [
  | inl q ↦
      let (e, found, below, all, among) = effective_tightest c bs in
      (e, rw q found, ground (arith, q, below), (below, all), inr among)
  | inr q ↦
      let (e, found, below, all, among) = effective_tightest b bs in
      (e, rw q found, below, (ground (arith, q, below), all), among_more e b c bs among)
]

-- A spend: the check at a time and, if it passes, the transaction created at that time.
pub record Spend : Type 0 where
  pub amount : ℕ
  pub now : ℕ

abbrev pub passes {ℓ κ} : {E : Type ℓ} {A : Type κ} → Result E A → Bool
passes (ok a) = true
passes (err e) = false

module _ (budgets : List Budget) (window_size_ms : ℕ) where
  abbrev pub spend : Spend → List Transaction → List Transaction
  spend s ledger =
      if passes (check_and_reserve_budget budgets ledger s.amount window_size_ms s.now).0
      then record { amount = s.amount; created_at = s.now; status = pending } ∷ ledger
      else ledger

  abbrev pub spend_all : List Spend → List Transaction → List Transaction
  spend_all [] ledger = ledger
  spend_all (s ∷ ss) ledger = spend_all ss (spend s ledger)

-- The clock does not go back; `last` is the time of the last spend.
abbrev pub InOrder : ℕ → List Spend → Type 0
InOrder m [] = Unit
InOrder m (s ∷ ss) = (m ≤ s.now) × InOrder s.now ss

abbrev pub last : ℕ → List Spend → ℕ
last m [] = m
last m (s ∷ ss) = last s.now ss

-- As time passes the window loses transactions and gains none.
window_shrinks :
    (window_size_ms m n : ℕ) (ledger : List Transaction)
    → m ≤ n
    → spent_in_window window_size_ms n ledger ≤ spent_in_window window_size_ms m ledger
unfolding spent_in_window
window_shrinks w m n [] le = omega arith
window_shrinks w m n (t ∷ ts) le = let rest = window_shrinks w m n ts le in ground (arith, rest, le)

spend_within :
    (budgets : List Budget) (w m : ℕ) (b : Budget) (s : Spend) (ledger : List Transaction)
    → effective_budget none budgets ≡ some b
    → m ≤ s.now
    → spent_in_window w m ledger ≤ b.limit_amount
    → spent_in_window w s.now (spend budgets w s ledger) ≤ b.limit_amount
unfolding spent_in_window check_and_reserve_budget
spend_within budgets w m b s ledger e le h =
    let now_spent = window_shrinks w m s.now ledger le in
    elim (Bool-cases (ltb b.limit_amount (spent_in_window w s.now ledger + s.amount))) [
      | inl q ↦ rw (e, q) (omega (arith, now_spent, h))
      | inr q ↦ rw (e, q) (ground (arith, q, now_spent, h))
    ]

spends_within :
    (budgets : List Budget) (w m : ℕ) (b : Budget) (ss : List Spend) (ledger : List Transaction)
    → effective_budget none budgets ≡ some b
    → InOrder m ss
    → spent_in_window w m ledger ≤ b.limit_amount
    → spent_in_window w (last m ss) (spend_all budgets w ss ledger) ≤ b.limit_amount
spends_within budgets w m b [] ledger e o h = h
spends_within budgets w m b (s ∷ ss) ledger e (le, o) h =
    spends_within budgets w s.now b ss (spend budgets w s ledger) e o
      (spend_within budgets w m b s ledger e le h)

All-In :
    (n : ℕ) (e : Budget) (bs : List Budget)
    → All (λ c. n ≤ c.limit_amount) bs
    → In e bs
    → n ≤ e.limit_amount
All-In n e [] h k = absurd k
All-In n e (b ∷ bs) (h, hs) (inl q) = subst (λ c. n ≤ c.limit_amount) q h
All-In n e (b ∷ bs) (h, hs) (inr k) = All-In n e bs hs k

All-below :
    (n m : ℕ) (bs : List Budget)
    → n ≤ m
    → All (λ c. m ≤ c.limit_amount) bs
    → All (λ c. n ≤ c.limit_amount) bs
All-below n m [] le h = tt
All-below n m (b ∷ bs) le (h, hs) = (omega (arith, le, h), All-below n m bs le hs)

-- The statuses of a transaction that has moved money or still can.
abbrev pub is_live : TransactionStatus → Bool
is_live draft = true
is_live pending = true
is_live approved = true
is_live submitted = true
is_live confirmed = true
is_live completed = true
is_live rejected = false
is_live expired = false
is_live cancelled = false
is_live failed = false

-- What an agent has spent, or still may, by transactions at most a window's length old.
abbrev pub spent_lately : ℕ → ℕ → List Transaction → ℕ
spent_lately w now [] = 0
spent_lately w now (t ∷ ts) =
    let rest = spent_lately w now ts in
    if is_live t.status && leb now (t.created_at + w) then t.amount + rest else rest

is_live-is_excluded : (s : TransactionStatus) → is_live s ≡ not (is_excluded s)
is_live-is_excluded draft = refl
is_live-is_excluded pending = refl
is_live-is_excluded approved = refl
is_live-is_excluded submitted = refl
is_live-is_excluded confirmed = refl
is_live-is_excluded completed = refl
is_live-is_excluded rejected = refl
is_live-is_excluded expired = refl
is_live-is_excluded cancelled = refl
is_live-is_excluded failed = refl

spent_lately-spent_in_window :
    (w now : ℕ) (ledger : List Transaction)
    → spent_lately w now ledger ≡ spent_in_window w now ledger
unfolding spent_in_window
spent_lately-spent_in_window w now [] = refl
spent_lately-spent_in_window w now (t ∷ ts) =
    rw (is_live-is_excluded t.status) (ground (arith, spent_lately-spent_in_window w now ts))

spends_stay :
    (budgets : List Budget) (w m : ℕ) (ss : List Spend) (ledger : List Transaction)
    → InOrder m ss
    → All (λ c. spent_in_window w m ledger ≤ c.limit_amount) budgets
    → All
        (λ c. spent_in_window w (last m ss) (spend_all budgets w ss ledger) ≤ c.limit_amount)
        budgets
unfolding effective_budget
spends_stay [] w m ss ledger o h = tt
spends_stay (b ∷ bs) w m ss ledger o h =
    let (e, found, below, all, among) = effective_tightest b bs in
    let start = All-In (spent_in_window w m ledger) e (b ∷ bs) h among in
    All-below _ e.limit_amount (b ∷ bs) (spends_within (b ∷ bs) w m e ss ledger found o start)
      (below, all)

-- Spends that are checked in the order of time, each transaction created at the time of its check and
-- before the next check, keep what the agent has spent in the window that ends at the last check, by every
-- transaction that is not rejected, expired, cancelled or failed, within the limit of every enabled budget,
-- if it was so at the start.
pub spends_stay_within :
    (budgets : List Budget) (w m : ℕ) (ss : List Spend) (ledger : List Transaction)
    → InOrder m ss
    → All (λ c. spent_lately w m ledger ≤ c.limit_amount) budgets
    → All (λ c. spent_lately w (last m ss) (spend_all budgets w ss ledger) ≤ c.limit_amount) budgets
spends_stay_within budgets w m ss ledger o h =
    let after = spent_lately-spent_in_window w (last m ss) (spend_all budgets w ss ledger) in
    let before = spent_lately-spent_in_window w m ledger in
    rw after (spends_stay budgets w m ss ledger o (rw before at h))
