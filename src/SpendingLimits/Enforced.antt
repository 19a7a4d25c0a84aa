-- ===== src/SpendingLimits/Enforced.antt =====
-- What a check that passes guarantees of the limits.
use astroid_api.Common.{
  ℕ, String, ◌≡◌, refl, sym, subst, ◌⊎◌, inl, inr, Bool, true, false, Option, none, some, List,
  str_eq, Bool-cases, or_else, All, eq_refl,
}
use astroid_api.Policy.{SpendPeriods, TransactionIntent, PolicyEvaluationResult, Runtime}
use astroid_api.SpendingLimits.Spent.{spent_in_periods, aggregate_spend-spent_in_periods}
use astroid_api.Policy.Currencies.{
  StoredPolicy, Converter, currency_of, prepare_intent, is_for, is_listed,
  find_active_for_evaluation, evaluate_intent,
}
use astroid_api.Policy.CurrencyGroups.{RespectsIn, passed-RespectsIn}
use astroid_api.SpendingLimits.{
  SpentRow, allowed, aggregate_spend, has_spending_limit_policy, enrich, with_aggregates,
  check_limited, check_agent, evaluate_spending_limits,
}
use astroid_api.SpendingLimits.Within.{
  All-each, IsPlain, Respects-WithinLimits, Rounds, WithinLimits, bare-enriched, enrich-plain,
  find_active-All, listed-active, no_limits-All, unlimited-WithinLimits, verdict-passed,
}

module _ (rt : Runtime) (convert : Converter) (utc_date : ℕ → ℕ) (now : ℕ) (rows : List SpentRow)
    (policies : List StoredPolicy) (agent : String) (i : TransactionIntent) where
  -- Either the agent has no periodic limit or the policies were evaluated.
  check_agent-cases :
      (audited : Bool) (o : Option String)
      → o ≡ some agent
      → str_eq agent "" ≡ false
      → check_agent rt convert utc_date now rows policies audited o i ≡ allowed
      → (has_spending_limit_policy agent policies ≡ false)
        ⊎ (check_limited rt convert utc_date now rows policies audited agent i ≡ allowed)
  check_agent-cases audited o e named h =
      let h' : check_agent rt convert utc_date now rows policies audited (some agent) i ≡ allowed =
        subst (λ o. check_agent rt convert utc_date now rows policies audited o i ≡ allowed) e h in
      elim (Bool-cases (has_spending_limit_policy agent policies)) [
        | inl k ↦ inr (rw (named, k) at h')
        | inr k ↦ inl k
      ]

  evaluated-WithinLimits :
      (slack : ℕ → ℕ) (spent : SpendPeriods) (r : PolicyEvaluationResult)
      → Rounds rt slack
      → IsPlain agent i
      → evaluate_intent rt convert now (with_aggregates i spent) policies ≡ some r
      → r.passed ≡ true
      → All
          (λ s.
            is_listed (some agent) s ≡ true
            → currency_of rt s ≡ ""
            → WithinLimits slack s.policy.configuration spent i.amount)
          policies
  unfolding evaluate_intent prepare_intent
  evaluated-WithinLimits slack spent r rounds plain e passed =
      let j = with_aggregates i spent in
      let active = find_active_for_evaluation i.agent_id policies in
      let respected =
        find_active-All (λ s. RespectsIn rt convert now j (currency_of rt s) s.policy) i.agent_id
          policies (passed-RespectsIn rt convert now j active r e passed) in
      All-each policies
        (λ s q listed native.
          let listed' : is_listed i.agent_id s ≡ true =
            subst (λ o. is_listed o s ≡ true) (sym plain.of_agent) listed in
          let same : prepare_intent convert j (currency_of rt s) ≡ some j =
            subst (λ c. prepare_intent convert j c ≡ some j) (sym native) refl in
          Respects-WithinLimits rt slack (or_else j.at now) s.policy i spent rounds plain.single
            (q listed' j same (listed-active agent j s plain.of_agent listed)))
        respected

checked-WithinLimits :
    (rt : Runtime) (slack : ℕ → ℕ) (convert : Converter) (utc_date : ℕ → ℕ) (now : ℕ)
    (rows : List SpentRow) (policies : List StoredPolicy) (organization : String)
    (actor : Option String) (agent : String) (i : TransactionIntent)
    → Rounds rt slack
    → IsPlain agent i
    → evaluate_spending_limits rt convert utc_date now rows policies organization actor i ≡ allowed
    → All
        (λ s.
          is_listed (some agent) s ≡ true
          → currency_of rt s ≡ ""
          → WithinLimits slack s.policy.configuration
              (aggregate_spend utc_date now rows agent i.asset)
              i.amount)
        policies
unfolding evaluate_spending_limits
checked-WithinLimits rt slack convert utc_date now rows policies organization actor agent i rounds
      plain h =
    let spent = aggregate_spend utc_date now rows agent i.asset in
    elim (check_agent-cases rt convert utc_date now rows policies agent i _ i.agent_id
      plain.of_agent plain.named h) [
        | inl none_set ↦
            All-each policies
              (λ s k listed _.
                unlimited-WithinLimits slack s.policy.configuration spent i.amount (k listed))
              (no_limits-All agent policies none_set)
        | inr checked ↦
            let (r, e, passed) = verdict-passed _ _ _ checked in
            evaluated-WithinLimits rt convert utc_date now rows policies agent i slack spent r
              rounds plain
              (subst (λ j. evaluate_intent rt convert now j policies ≡ some r)
                (enrich-plain utc_date now rows agent spent i plain.single)
                (subst
                  (λ a.
                    evaluate_intent rt convert now (enrich utc_date now rows agent a i) policies
                    ≡ some r)
                  (bare-enriched i spent plain.bare) e))
              passed
      ]

-- A policy that is enabled, not deleted, for every agent or for this one, and without a base currency.
pub record BindsAgent (agent : String) (s : StoredPolicy) : Type 0 where
  pub on : s.policy.enabled ≡ true
  pub there : s.deleted ≡ false
  pub for_agent : (s.policy.agent_id ≡ none) ⊎ (s.policy.agent_id ≡ some agent)
  pub native : s.base_currency ≡ none

for_agent-is_for :
    (o : Option String) (agent : String)
    → str_eq agent "" ≡ false
    → (o ≡ none) ⊎ (o ≡ some agent)
    → is_for o (some agent) ≡ true
for_agent-is_for o agent named (inl e) = rw e refl
for_agent-is_for o agent named (inr e) = rw e (rw (named, eq_refl agent) refl)

binds-is_listed :
    (agent : String) (s : StoredPolicy)
    → str_eq agent "" ≡ false
    → BindsAgent agent s
    → is_listed (some agent) s ≡ true
unfolding is_listed
binds-is_listed agent s named b =
    rw (b.on, b.there, for_agent-is_for s.policy.agent_id agent named b.for_agent) refl

-- A check that allows an agent's transaction, with no transfers and no aggregates of its own, guarantees for
-- every policy that is enabled, not deleted, for all agents or this one, and without a base currency, that
-- the amount and what the agent has spent of the asset since the day, the last Monday and the first of the
-- month, by transactions that are PENDING, SUBMITTED, CONFIRMED or COMPLETED, are within the policy's daily,
-- weekly and monthly limits, up to what the rounding of a sum of doubles can hide.
pub allowed-WithinLimits :
    (rt : Runtime) (slack : ℕ → ℕ) (convert : Converter) (utc_date : ℕ → ℕ) (now : ℕ)
    (rows : List SpentRow) (policies : List StoredPolicy) (organization : String)
    (actor : Option String) (agent : String) (i : TransactionIntent)
    → rt.upper "" ≡ ""
    → Rounds rt slack
    → IsPlain agent i
    → evaluate_spending_limits rt convert utc_date now rows policies organization actor i ≡ allowed
    → All
        (λ s.
          BindsAgent agent s
          → WithinLimits slack s.policy.configuration
              (spent_in_periods utc_date now rows agent i.asset)
              i.amount)
        policies
allowed-WithinLimits rt slack convert utc_date now rows policies organization actor agent i up
      rounds plain h =
    All-each policies
      (λ s k b.
        let native : currency_of rt s ≡ "" = rw b.native up in
        subst (λ x. WithinLimits slack s.policy.configuration x i.amount)
          (aggregate_spend-spent_in_periods utc_date now rows agent i.asset)
          (k (binds-is_listed agent s plain.named b) native))
      (checked-WithinLimits rt slack convert utc_date now rows policies organization actor agent i
        rounds plain h)
