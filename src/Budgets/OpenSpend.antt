-- ===== src/Budgets/OpenSpend.antt =====
-- What an agent has spent or may still spend, told apart from how the repository queries it.
use astroid_api.Common.{
  ℕ, ◌+◌, String, ◌≡◌, refl, sym, ◌∙◌, ◌↔◌, inl, inr, Bool, true, false, not, ◌&&◌, ◌||◌, Option,
  none, some, List, [], ◌∷◌, arith, str_eq, eq_iff, if◌then◌else◌, Bool-cases, All, false≢true,
}
use astroid_api.Schema.{
  TransactionStatus, draft, pending, approved, submitted, confirmed, completed, rejected, expired,
  cancelled, failed,
}
use astroid_api.Budgets.Service.{Budget, Budgets}
use astroid_api.Budgets.Agents.{
  AgentTransaction, is_in_flight, is_completed, charged_elsewhere, sum_unaccounted_spend,
  identifiers, matching,
}

-- The statuses of a transaction that can still move money or has moved it, but is not COMPLETED.
abbrev pub is_open : TransactionStatus → Bool
is_open draft = true
is_open pending = true
is_open approved = true
is_open submitted = true
is_open confirmed = true
is_open completed = false
is_open rejected = false
is_open expired = false
is_open cancelled = false
is_open failed = false

abbrev pub is_done : TransactionStatus → Bool
is_done completed = true
is_done _ = false

-- An enabled budget that is not deleted and has the currency, which is compared in upper case.
abbrev pub Binds : (String → String) → String → String × Budget → Type 0
Binds up asset e = (e.1.enabled ≡ true) × ((e.1.deleted ≡ false) × (up e.1.currency ≡ up asset))

abbrev pub binds : (String → String) → String → Budget → Bool
binds up asset b = (b.enabled && not b.deleted) && str_eq (up b.currency) (up asset)

-- The transaction's budget is one of those that bind the agent: it has recorded the completed payment.
abbrev pub is_recorded : (String → String) → String → Budgets → Option String → Bool
is_recorded up asset [] o = false
is_recorded up asset ((id, b) ∷ more) none = false
is_recorded up asset ((id, b) ∷ more) (some own) =
    (binds up asset b && str_eq id own) || is_recorded up asset more (some own)

-- What the agent's transactions in an asset have spent or may spend, less what the binding budgets have
-- recorded.
abbrev pub unrecorded_spend : (String → String) → String → Budgets → List AgentTransaction → ℕ
unrecorded_spend up asset agent_budgets [] = 0
unrecorded_spend up asset agent_budgets (t ∷ ts) =
    let rest = unrecorded_spend up asset agent_budgets ts in
    if (not t.deleted && str_eq t.asset asset)
      && (is_open t.status
          || (is_done t.status && not (is_recorded up asset agent_budgets t.budget_id)))
    then t.amount + rest
    else rest

statuses_agree :
    (s : TransactionStatus) → (is_open s ≡ is_in_flight s) × (is_done s ≡ is_completed s)
statuses_agree draft = (refl, refl)
statuses_agree pending = (refl, refl)
statuses_agree approved = (refl, refl)
statuses_agree submitted = (refl, refl)
statuses_agree confirmed = (refl, refl)
statuses_agree completed = (refl, refl)
statuses_agree rejected = (refl, refl)
statuses_agree expired = (refl, refl)
statuses_agree cancelled = (refl, refl)
statuses_agree failed = (refl, refl)

charged_lem :
    (up : String → String) (asset : String) (bs : Budgets) (o : Option String)
    → not (is_recorded up asset bs o) ≡ charged_elsewhere (identifiers (matching up asset bs)) o
charged_lem up asset [] none = refl
charged_lem up asset [] (some own) = refl
charged_lem up asset ((id, b) ∷ more) none = refl
charged_lem up asset ((id, b) ∷ more) (some own) =
    let ih = charged_lem up asset more (some own) in
    elim (Bool-cases (b.enabled && not b.deleted)) [
      | inl e ↦ elim (Bool-cases (str_eq (up b.currency) (up asset))) [
        | inl f ↦
            rw (e, f) (elim (Bool-cases (str_eq id own)) [ inl g ↦ rw g refl | inr g ↦ rw g ih ])
        | inr f ↦ rw (e, f) ih
      ]
      | inr e ↦ rw e ih
    ]

pub unrecorded-sum :
    (up : String → String) (asset : String) (bs : Budgets) (ts : List AgentTransaction)
    → unrecorded_spend up asset bs ts
      ≡ sum_unaccounted_spend asset (identifiers (matching up asset bs)) ts
unfolding sum_unaccounted_spend
unrecorded-sum up asset bs [] = refl
unrecorded-sum up asset bs (t ∷ ts) =
    let ih = unrecorded-sum up asset bs ts in
    let (a, b) = statuses_agree t.status in
    let c = charged_lem up asset bs t.budget_id in rw (a, b, c) (ground (arith, ih))

-- What holds of every matching budget holds of every budget that binds the agent, and conversely.
pub matching-All :
    (up : String → String) (asset : String) (P : String × Budget → Type 0) (bs : Budgets)
    → All P (matching up asset bs) ↔ All (λ e. Binds up asset e → P e) bs
matching-All up asset P [] = (λ h. tt, λ h. tt)
matching-All up asset P ((id, b) ∷ more) =
    let ih = matching-All up asset P more in
    elim (Bool-cases (b.enabled && not b.deleted)) [
      | inl e ↦
          let on : b.enabled ≡ true = ground (arith, e) in
          let there : b.deleted ≡ false = ground (arith, e) in
          elim (Bool-cases (str_eq (up b.currency) (up asset))) [
            | inl f ↦
                let same = (eq_iff (up b.currency) (up asset)).0 f in
                rw (e, f) (λ h. (λ _. h.0, ih.0 h.1), λ h. (h.0 (on, (there, same)), ih.1 h.1))
            | inr f ↦
                rw (e, f)
                  (
                    λ h. (
                      λ k.
                          absurd (false≢true (sym f ∙ (eq_iff (up b.currency) (up asset)).1 k.1.1)),
                      ih.0 h,
                    ),
                    λ h. ih.1 h.1,
                  )
          ]
      | inr e ↦ rw e (λ h. (λ k. absurd (ground (arith, e, k)), ih.0 h), λ h. ih.1 h.1)
    ]
