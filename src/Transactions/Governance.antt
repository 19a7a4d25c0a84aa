-- ===== src/Transactions/Governance.antt =====
-- What a request must satisfy before anything is inserted or paid, and what the call makes of it.
use astroid_api.Common.{
  ℕ, ◌+◌, ◌≤◌, String, ◌≡◌, refl, ◌↔◌, inl, inr, Bool, true, false, Option, none, some, arith, ltb,
  Bool-cases, Option-cases, false≢true,
}
use astroid_api.Common.Results.{Result, Result-cases, ok, err, ◌>>=◌}
use astroid_api.Schema.{AgentStatus}
use astroid_api.Budgets.Service.{
  budget_exceeded, not_found, Budget, Budgets, find_by_id, assert_within_budget,
}
use astroid_api.Transactions.Validator.{Text, text_of, validate_transaction_input}
use astroid_api.Transactions.Execution.{Wallet, is_active, assert_wallet_spendable}
use astroid_api.Transactions.Creation.{
  transaction, invalid, budget, Request, Answers, CreateError, lift_error, guard, only_for, memo_of,
  text_of?, check_agent, preflight, check_request,
}

abbrev pub Passes : {E A : Type 0} → Result E A → Type 0
Passes {E} {A} r = (a : A) × (r ≡ ok a)

module _ {E A B : Type 0} {P Q : Type 0} where
  pub then-Passes :
      (r : Result E A) (k : A → Result E B)
      → Passes r ↔ P
      → ((a : A) → Passes (k a) ↔ Q)
      → Passes (r >>= k) ↔ (P × Q)
  then-Passes (ok a) k (p, p') q = (λ h. (p (a, refl), (q a).0 h), λ h. (q a).1 h.1)
  then-Passes (err e) k (p, p') q = (
    λ (b, h). absurd (ground (arith, h)),
    λ (h, k). let (b, q) = p' h in absurd (ground (arith, q)),
  )

pub finally-Passes :
    {E A B : Type 0} {P : Type 0} (r : Result E A) (b : B)
    → Passes r ↔ P
    → Passes (r >>= λ _. ok b) ↔ P
finally-Passes (ok a) b (p, p') = (λ h. p (a, refl), λ h. (b, refl))
finally-Passes (err e) b (p, p') =
    (λ (c, h). absurd (ground (arith, h)), λ h. let (c, q) = p' h in absurd (ground (arith, q)))

pub guard-Passes : (b : Bool) (e : CreateError) → Passes (guard b e) ↔ (b ≡ true)
guard-Passes true e = (λ h. refl, λ h. (true, refl))
guard-Passes false e = (λ (b, h). absurd (ground (arith, h)), λ h. absurd (false≢true h))

pub lift-Passes :
    {F A : Type 0} (f : F → CreateError) (r : Result F A) → Passes (lift_error f r) ↔ Passes r
lift-Passes f (ok a) = (λ h. (a, refl), λ h. (a, refl))
lift-Passes f (err e) = (λ (b, h). absurd (ground (arith, h)), λ (b, h). absurd (ground (arith, h)))

pub both : {P Q R : Type 0} → P ↔ Q → Q ↔ R → P ↔ R
both (f, f') (g, g') = (λ p. g (f p), λ r. f' (g' r))

-- What is asked of an identifier, when there is one.
abbrev pub Given : Option String → (String → Type 0) → Type 0
Given none P = Unit
Given (some id) P = P id

pub only_for-Passes :
    {A : Type 0} {P : String → Type 0} (o : Option String) (f : String → Result CreateError A)
    → ((id : String) → Passes (f id) ↔ P id)
    → Passes (only_for o f) ↔ Given o P
only_for-Passes none f h = (λ h. tt, λ h. (none, refl))
only_for-Passes (some id) f h = elim (Result-cases (f id)) [
  | inl (a, q) ↦ (λ k. (h id).0 (a, q), λ k. (some a, rw q refl))
  | inr (e, q) ↦ (
    λ k. absurd (no_value (f id) e q k),
    λ k. let (b, l) = (h id).1 k in absurd (ground (arith, q, l)),
  )
]
  where
    no_value :
        {A : Type 0} (r : Result CreateError A) (e : CreateError)
        → r ≡ err e
        → ¬ ((b : Option A) × ((r >>= λ a. ok (some a)) ≡ ok b))
    no_value (ok a) e q h = ground (arith, q)
    no_value (err d) e q (b, h) = ground (arith, h)

-- What `preflight` asks for.
unfoldable pub IsSound : (Text → Bool) → (Text → Bool) → Answers → Request → Type 0
IsSound ed25519 med25519 a r =
    ((w : Wallet) × (a.wallet ≡ some w) × (is_active w.status ≡ true))
    × (Passes (
          validate_transaction_input ed25519 med25519 (text_of r.recipient_address)
            (text_of? (memo_of r)))
        × Given r.agent_id (λ _. a.agent ≡ some AgentStatus.active))

abbrev pub HasHeadroom : Budgets → ℕ → String → Type 0
HasHeadroom budgets amount id =
    (b : Budget) × (find_by_id budgets id ≡ some b) × (b.spent + amount ≤ b.limit_amount)

wallet-Passes :
    (wallet : Option Wallet)
    → Passes (assert_wallet_spendable wallet)
      ↔ ((w : Wallet) × (wallet ≡ some w) × (is_active w.status ≡ true))
wallet-Passes none = (λ (w, h). absurd (ground (arith, h)), λ (w, h, k). absurd (ground (arith, h)))
wallet-Passes (some w) = elim (Bool-cases (is_active w.status)) [
  | inl e ↦ (λ h. (w, refl, e), λ h. (w, rw e refl))
  | inr e ↦ (λ (v, h). absurd (ground (arith, e, h)), λ (v, h, k). absurd (ground (arith, e, h, k)))
]

agent-Passes :
    (id : Option String) (status : Option AgentStatus)
    → Passes (check_agent id status) ↔ Given id (λ _. status ≡ some AgentStatus.active)
agent-Passes none status = (λ h. tt, λ h. (true, refl))
agent-Passes (some id) none =
    (λ (w, h). absurd (ground (arith, h)), λ h. absurd (ground (arith, h)))
agent-Passes (some id) (some AgentStatus.active) = (λ h. refl, λ h. (true, refl))
agent-Passes (some id) (some AgentStatus.paused) =
    (λ (w, h). absurd (ground (arith, h)), λ h. absurd (ground (arith, h)))
agent-Passes (some id) (some AgentStatus.suspended) =
    (λ (w, h). absurd (ground (arith, h)), λ h. absurd (ground (arith, h)))
agent-Passes (some id) (some AgentStatus.archived) =
    (λ (w, h). absurd (ground (arith, h)), λ h. absurd (ground (arith, h)))

headroom-Passes :
    (budgets : Budgets) (amount : ℕ) (id : String)
    → Passes (assert_within_budget budgets id amount).0 ↔ HasHeadroom budgets amount id
unfolding assert_within_budget
headroom-Passes budgets amount id = elim (Option-cases (find_by_id budgets id)) [
  | inl e ↦ (
    λ h.
        let (b, q) : (b : Budget) × (err not_found ≡ ok b) = rw e at h in
        absurd (ground (arith, q)),
    λ (b, h, k). absurd (ground (arith, e, h)),
  )
  | inr (b, e) ↦ elim (Bool-cases (ltb b.limit_amount (b.spent + amount))) [
    | inl q ↦ (
      λ h.
          let no : (c : Budget) × (err (budget_exceeded b.limit_amount b.spent amount) ≡ ok c) =
            rw (e, q) at h in
          absurd (ground (arith, no.1)),
      λ (c, k, le). absurd (ground (arith, e, q, k, le)),
    )
    | inr q ↦ (λ h. (b, e, ground (arith, q)), λ h. (b, rw (e, q) refl))
  ]
]

module _ (ed25519 med25519 : Text → Bool) where
  pub preflight-Passes :
      (a : Answers) (r : Request)
      → Passes (preflight ed25519 med25519 a r) ↔ IsSound ed25519 med25519 a r
  unfolding preflight IsSound
  preflight-Passes a r =
      then-Passes _ _
        (both (lift-Passes transaction (assert_wallet_spendable a.wallet)) (wallet-Passes a.wallet))
        (λ w.
          then-Passes _ _ (lift-Passes invalid _)
            (λ _. finally-Passes _ w (agent-Passes r.agent_id a.agent)))

  -- What must hold before the agent's budgets are looked at.
  unfoldable pub IsAllowed : Answers → Budgets → Request → Type 0
  IsAllowed a budgets r =
      IsSound ed25519 med25519 a r
      × (Given r.agent_id (λ _. a.velocity ≡ true)
          × (Given r.agent_id (λ _. a.spending_limits ≡ true)
              × ((a.policy.passed ≡ true) × Given r.budget_id (HasHeadroom budgets r.amount))))

  pub request-Passes :
      (a : Answers) (budgets : Budgets) (r : Request)
      → Passes (check_request ed25519 med25519 a budgets r) ↔ IsAllowed a budgets r
  unfolding check_request IsAllowed
  request-Passes a budgets r = then-Passes _ _ (preflight-Passes a r) (λ w.
      then-Passes _ _ (only_for-Passes r.agent_id _ (λ id. guard-Passes a.velocity _)) (λ _.
        then-Passes _ _ (only_for-Passes r.agent_id _ (λ id. guard-Passes a.spending_limits _))
          (λ _. then-Passes _ _ (guard-Passes a.policy.passed _) (λ _. finally-Passes _ w (
            only_for-Passes r.budget_id _
              (λ id. both (lift-Passes budget _) (headroom-Passes budgets r.amount id)))))))
