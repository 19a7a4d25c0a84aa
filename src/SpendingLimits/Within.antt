-- ===== src/SpendingLimits/Within.antt =====
-- What it says that an amount is within the limits of a configuration, and what the evaluation and the queries of an agent's
-- transaction have to do with it.
use astroid_api.Common.{
  ℕ, ◌+◌, ◌≤◌, String, ◌≡◌, refl, sym, ap, ◌∙◌, subst, inl, inr, Bool, true, false, Option, none,
  some, List, [], ◌∷◌, map, arith, str_eq, leb, Bool-cases, or_else, All, false≢true,
}
use astroid_api.Policy.{
  AssetLimit, Configuration, SpendPeriods, TransactionIntent, PolicyEvaluationResult,
  EvaluablePolicy, Runtime,
}
use astroid_api.Policy.Engine.{
  is_active, applies_to_agent, legs_of, leg_config, leg_intent, asset_limit,
}
use astroid_api.Policy.Spec.{SumWithin}
use astroid_api.Policy.SpecRules.{LegRespected}
use astroid_api.Policy.Decides.{Respects}
use astroid_api.Policy.Currencies.{
  StoredPolicy, is_for, is_listed, insert_listed, find_active_for_evaluation,
}
use astroid_api.SpendingLimits.{
  SpentRow, allowed, enriched, limits_spending, is_set, has_spending_limit_policy, enrich,
  with_aggregates, blocked, by_asset_for, aggregate_spend_by_asset, verdict,
}

insert_listed-All :
    (P : StoredPolicy → Type 0) (s : StoredPolicy) (rows : List StoredPolicy)
    → All P (insert_listed s rows)
    → P s × All P rows
unfolding insert_listed
insert_listed-All P s [] h = h
insert_listed-All P s (t ∷ rows) h = elim (Bool-cases (leb s.policy.priority t.policy.priority)) [
  | inl e ↦ rw e at h
  | inr e ↦
      let h' : P t × All P (insert_listed s rows) = rw e at h in
      let (a, b) = insert_listed-All P s rows h'.1 in (a, (h'.0, b))
]

pub find_active-All :
    (P : StoredPolicy → Type 0) (agent : Option String) (rows : List StoredPolicy)
    → All P (find_active_for_evaluation agent rows)
    → All (λ s. is_listed agent s ≡ true → P s) rows
unfolding find_active_for_evaluation
find_active-All P agent [] h = tt
find_active-All P agent (s ∷ rows) h = elim (Bool-cases (is_listed agent s)) [
  | inl e ↦
      let h' : All P (insert_listed s (find_active_for_evaluation agent rows)) = rw e at h in
      let (a, b) = insert_listed-All P s (find_active_for_evaluation agent rows) h' in
      (λ _. a, find_active-All P agent rows b)
  | inr e ↦
      let h' : All P (find_active_for_evaluation agent rows) = rw e at h in
      (λ k. absurd (false≢true (sym e ∙ k)), find_active-All P agent rows h')
]

pub All-each :
    {P Q : StoredPolicy → Type 0} (xs : List StoredPolicy)
    → ((s : StoredPolicy) → P s → Q s)
    → All P xs
    → All Q xs
All-each [] f h = tt
All-each (x ∷ xs) f h = (f x h.0, All-each xs f h.1)

-- How far above a limit a sum can lie that does not exceed it once it is rounded to a double.
abbrev pub Rounds : Runtime → (ℕ → ℕ) → Type 0
Rounds rt slack =
    (spent amount limit : ℕ)
    → rt.sum_exceeds spent amount limit ≡ false
    → spent + amount ≤ limit + slack limit

abbrev pub AtMostAbout : (ℕ → ℕ) → Option ℕ → ℕ → Type 0
AtMostAbout slack none n = Unit
AtMostAbout slack (some l) n = n ≤ l + slack l

-- The three limits of a configuration hold, up to rounding, for an amount on top of what was spent.
abbrev pub WithinLimits : (ℕ → ℕ) → Configuration → SpendPeriods → ℕ → Type 0
WithinLimits slack c spent amount =
    AtMostAbout slack c.daily_limit (spent.spent_today + amount)
    × (AtMostAbout slack c.weekly_limit (spent.spent_this_week + amount)
        × AtMostAbout slack c.monthly_limit (spent.spent_this_month + amount))

unset-AtMostAbout :
    (slack : ℕ → ℕ) (o : Option ℕ) (n : ℕ) → is_set o ≡ false → AtMostAbout slack o n
unset-AtMostAbout slack none n h = tt
unset-AtMostAbout slack (some l) n h = absurd (false≢true (sym h))

sum-AtMostAbout :
    (rt : Runtime) (slack : ℕ → ℕ) (o : Option ℕ) (spent amount : ℕ)
    → Rounds rt slack
    → SumWithin rt o (some spent) amount
    → AtMostAbout slack o (spent + amount)
sum-AtMostAbout rt slack none spent amount rounds h = tt
sum-AtMostAbout rt slack (some l) spent amount rounds h = rounds spent amount l h

pub unlimited-WithinLimits :
    (slack : ℕ → ℕ) (c : Configuration) (spent : SpendPeriods) (amount : ℕ)
    → limits_spending c ≡ false
    → WithinLimits slack c spent amount
unlimited-WithinLimits slack c spent amount h = (
  unset-AtMostAbout slack c.daily_limit _ (ground (arith, h)),
  (
    unset-AtMostAbout slack c.weekly_limit _ (ground (arith, h)),
    unset-AtMostAbout slack c.monthly_limit _ (ground (arith, h)),
  ),
)

pub no_limits-All :
    (agent : String) (rows : List StoredPolicy)
    → has_spending_limit_policy agent rows ≡ false
    → All
        (λ s. is_listed (some agent) s ≡ true → limits_spending s.policy.configuration ≡ false)
        rows
unfolding has_spending_limit_policy
no_limits-All agent [] h = tt
no_limits-All agent (s ∷ rows) h =
    (λ k. ground (arith, h, k), no_limits-All agent rows (ground (arith, h)))

applies_lem :
    (owner : Option String) (agent : String)
    → is_for owner (some agent) ≡ true
    → applies_to_agent owner (some agent) ≡ true
unfolding applies_to_agent
applies_lem none agent h = refl
applies_lem (some own) agent h = ground (arith, h)

pub listed-active :
    (agent : String) (i : TransactionIntent) (s : StoredPolicy)
    → i.agent_id ≡ some agent
    → is_listed (some agent) s ≡ true
    → is_active i s.policy ≡ true
unfolding is_listed is_active
listed-active agent i s e h =
    let applies = applies_lem s.policy.agent_id agent (ground (arith, h)) in
    let enabled : s.policy.enabled ≡ true = ground (arith, h) in rw (e, enabled, applies) refl

pub verdict-passed :
    (audited : Bool) (spent : SpendPeriods) (o : Option PolicyEvaluationResult)
    → verdict audited spent o ≡ allowed
    → (r : PolicyEvaluationResult) × (o ≡ some r) × (r.passed ≡ true)
verdict-passed audited spent none h = absurd (ground (arith, h))
verdict-passed audited spent (some r) h = elim (Bool-cases r.passed) [
  | inl e ↦ (r, refl, e)
  | inr e ↦
      let no : blocked r.violations spent audited ≡ allowed = rw e at h in
      absurd (ground (arith, no))
]

-- An agent's transaction without transfers and without aggregates.
pub record IsPlain (agent : String) (i : TransactionIntent) : Type 0 where
  pub of_agent : i.agent_id ≡ some agent
  pub named : str_eq agent "" ≡ false
  pub bare : i.spent_today ≡ none
  pub single : i.transfers ≡ []

-- An asset's own limits change no periodic limit.
leg_config-WithinLimits :
    (slack : ℕ → ℕ) (c : Configuration) (o : Option AssetLimit) (spent : SpendPeriods) (amount : ℕ)
    → WithinLimits slack (leg_config c o) spent amount
    → WithinLimits slack c spent amount
unfolding leg_config
leg_config-WithinLimits slack c none spent amount h = h
leg_config-WithinLimits slack c (some l) spent amount h = h

pub Respects-WithinLimits :
    (rt : Runtime) (slack : ℕ → ℕ) (at : ℕ) (p : EvaluablePolicy) (i : TransactionIntent)
    (spent : SpendPeriods)
    → Rounds rt slack
    → i.transfers ≡ []
    → Respects rt (with_aggregates i spent) at p
    → WithinLimits slack p.configuration spent i.amount
unfolding legs_of leg_intent
Respects-WithinLimits rt slack at p i spent rounds e r =
    let j = with_aggregates i spent in
    let legs : All (LegRespected rt p j at) (legs_of j []) =
      subst (λ ts. All (LegRespected rt p j at) (legs_of j ts)) e r.legs in
    let o = asset_limit rt p.configuration i.asset in
    leg_config-WithinLimits slack p.configuration o spent i.amount (
      sum-AtMostAbout rt slack _ spent.spent_today i.amount rounds legs.0.daily,
      (
        sum-AtMostAbout rt slack _ spent.spent_this_week i.amount rounds legs.0.weekly,
        sum-AtMostAbout rt slack _ spent.spent_this_month i.amount rounds legs.0.monthly,
      ),
    )

-- For transfers that are none, the check only adds the three aggregates.
pub enrich-plain :
    (utc_date : ℕ → ℕ) (now : ℕ) (rows : List SpentRow) (agent : String) (spent : SpendPeriods)
    (i : TransactionIntent)
    → i.transfers ≡ []
    → enrich utc_date now rows agent spent i ≡ with_aggregates i spent
unfolding enrich
enrich-plain utc_date now rows agent spent i e =
    let fresh =
      aggregate_spend_by_asset utc_date now rows agent (map (λ leg. leg.asset) i.transfers) in
    let kept : by_asset_for fresh i.transfers i.spent_by_asset ≡ i.spent_by_asset =
      subst (λ ts. by_asset_for fresh ts i.spent_by_asset ≡ i.spent_by_asset) (sym e) refl in
    ap (λ x. record (with_aggregates i spent) { spent_by_asset = x }) kept

-- Without an aggregate of the day the intent counts as not enriched.
pub bare-enriched :
    (i : TransactionIntent) (spent : SpendPeriods)
    → i.spent_today ≡ none
    → or_else (enriched i) spent ≡ spent
bare-enriched i spent e = rw e refl
