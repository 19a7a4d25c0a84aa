-- ===== src/SpendingLimits.antt =====
-- modules/transactions/spending-limit.service.ts: what an agent has spent in the day, the week and the month,
-- and the check of a transaction against its policies. Times are milliseconds since 1970; amounts are units
-- of 10^-7 and stand for less than 2^29, so that doubles tell them apart. `getUTCDate` of a day is an argument.
pub mod Windows
pub mod Spent
pub mod Within
pub mod Enforced
pub mod Day
mod Tests
use astroid_api.Common.{
  ℕ, ◌+◌, ◌-◌, ◌*◌, ◌/◌, ◌%◌, String, Bool, true, false, not, ◌&&◌, ◌||◌, Option, none, some, List,
  [], ◌∷◌, map, str_eq, leb, ◌==◌, if◌then◌else◌, or_else, keep,
}
use astroid_api.Schema.{TransactionStatus, pending, submitted, confirmed, completed}
use astroid_api.Policy.{
  AssetLimit, Configuration, AssetTransfer, SpendPeriods, TransactionIntent, PolicyViolation,
  PolicyEvaluationResult, Runtime,
}
use astroid_api.Policy.Currencies.{StoredPolicy, Converter, is_listed, evaluate_intent}

-- A row of the transactions.
pub record SpentRow : Type 0 where
  pub agent_id : Option String
  pub asset : String
  pub amount : ℕ
  pub status : TransactionStatus
  pub deleted : Bool
  pub created_at : ℕ

pub record WindowBounds : Type 0 where
  pub start_of_day : ℕ
  pub start_of_week : ℕ
  pub start_of_month : ℕ

abbrev pub ms_per_day : ℕ
ms_per_day = 86400000

-- `getUTCDay`; 1970 began on a Thursday.
abbrev pub utc_day : ℕ → ℕ
utc_day day = (day + 4) % 7

abbrev pub days_since_monday : ℕ → ℕ
days_since_monday day_of_week = if day_of_week == 0 then 6 else day_of_week - 1

unfoldable pub window_bounds : (ℕ → ℕ) → ℕ → WindowBounds
window_bounds utc_date now =
    let day = now / ms_per_day in
    record {
      start_of_day = day * ms_per_day;
      start_of_week = (day - days_since_monday (utc_day day)) * ms_per_day;
      start_of_month = (day - (utc_date day - 1)) * ms_per_day;
    }

-- `countedStatuses`
abbrev pub is_counted : TransactionStatus → Bool
is_counted pending = true
is_counted submitted = true
is_counted confirmed = true
is_counted completed = true
is_counted _ = false

abbrev pub is_by : String → Option String → Bool
is_by agent none = false
is_by agent (some own) = str_eq own agent

unfoldable pub is_spent : String → String → ℕ → SpentRow → Bool
is_spent agent asset since r =
    (is_by agent r.agent_id && str_eq r.asset asset)
    && (is_counted r.status && (not r.deleted && leb since r.created_at))

-- The sum that one `aggregate` returns.
unfoldable pub spent_since : String → String → ℕ → List SpentRow → ℕ
unfolding is_spent
spent_since agent asset since [] = 0
spent_since agent asset since (r ∷ rows) =
    let rest = spent_since agent asset since rows in
    if is_spent agent asset since r then r.amount + rest else rest

unfoldable pub aggregate_spend : (ℕ → ℕ) → ℕ → List SpentRow → String → String → SpendPeriods
unfolding window_bounds spent_since
aggregate_spend utc_date now rows agent asset =
    let windows = window_bounds utc_date now in
    record {
      spent_today = spent_since agent asset windows.start_of_day rows;
      spent_this_week = spent_since agent asset windows.start_of_week rows;
      spent_this_month = spent_since agent asset windows.start_of_month rows;
    }

-- `[...new Set(assets)]`
unfoldable pub unique : List String → List String
unique [] = []
unique (a ∷ assets) = a ∷ keep (λ b. not (str_eq a b)) (unique assets)

unfoldable pub aggregate_spend_by_asset :
    (ℕ → ℕ) → ℕ → List SpentRow → String → List String → List (String × SpendPeriods)
unfolding aggregate_spend unique
aggregate_spend_by_asset utc_date now rows agent assets =
    map (λ asset. (asset, aggregate_spend utc_date now rows agent asset)) (unique assets)

abbrev pub is_set : Option ℕ → Bool
is_set none = false
is_set (some n) = true

abbrev pub limits_asset : List (String × AssetLimit) → Bool
limits_asset [] = false
limits_asset ((asset, l) ∷ limits) =
    (is_set l.daily_limit || (is_set l.weekly_limit || is_set l.monthly_limit))
    || limits_asset limits

abbrev pub limits_spending : Configuration → Bool
limits_spending c =
    is_set c.daily_limit
    || (is_set c.weekly_limit || (is_set c.monthly_limit || limits_asset c.asset_limits))

-- The query has the same condition as that of the evaluation.
unfoldable pub has_spending_limit_policy : String → List StoredPolicy → Bool
unfolding is_listed
has_spending_limit_policy agent [] = false
has_spending_limit_policy agent (s ∷ rows) =
    (is_listed (some agent) s && limits_spending s.policy.configuration)
    || has_spending_limit_policy agent rows

-- The check passes, raises a violation, of which an audit entry is written or not, or fails for want of a price.
pub data Checked : Type 0 where
  allowed price_unavailable : Checked
  blocked :
      (violations : List PolicyViolation) (aggregates : SpendPeriods) (audited : Bool) → Checked

-- The aggregates that the intent has, if it has all three.
abbrev pub enriched : TransactionIntent → Option SpendPeriods
enriched i = elim i.spent_today as (λ o. Option SpendPeriods) [
  | none ↦ none
  | some today ↦ elim i.spent_this_week as (λ o. Option SpendPeriods) [
    | none ↦ none
    | some week ↦ elim i.spent_this_month as (λ o. Option SpendPeriods) [
      | none ↦ none
      | some month ↦
          some (record { spent_today = today; spent_this_week = week; spent_this_month = month })
    ]
  ]
]

abbrev pub with_aggregates : TransactionIntent → SpendPeriods → TransactionIntent
with_aggregates i a = record i {
  spent_today = some a.spent_today;
  spent_this_week = some a.spent_this_week;
  spent_this_month = some a.spent_this_month;
}

-- The spend of each asset, for transfers whose intent has none.
abbrev pub by_asset_for :
    List (String × SpendPeriods)
    → List AssetTransfer
    → List (String × SpendPeriods)
    → List (String × SpendPeriods)
by_asset_for fresh [] given = given
by_asset_for fresh (leg ∷ legs) [] = fresh
by_asset_for fresh (leg ∷ legs) (e ∷ given) = e ∷ given

unfoldable pub enrich :
    (ℕ → ℕ) → ℕ → List SpentRow → String → SpendPeriods → TransactionIntent → TransactionIntent
unfolding aggregate_spend_by_asset
enrich utc_date now rows agent aggregates i = record (with_aggregates i aggregates) {
  spent_by_asset =
      by_asset_for
        (aggregate_spend_by_asset utc_date now rows agent (map (λ leg. leg.asset) i.transfers))
        i.transfers i.spent_by_asset;
}

abbrev pub verdict : Bool → SpendPeriods → Option PolicyEvaluationResult → Checked
verdict audited aggregates none = price_unavailable
verdict audited aggregates (some r) =
    if r.passed then allowed else blocked r.violations aggregates audited

abbrev pub is_named : Option String → Bool
is_named none = false
is_named (some s) = not (str_eq s "")

abbrev pub check_limited :
    Runtime
    → Converter
    → (ℕ → ℕ)
    → ℕ
    → List SpentRow
    → List StoredPolicy
    → Bool
    → String
    → TransactionIntent
    → Checked
check_limited rt convert utc_date now rows policies audited agent i =
    let aggregates = or_else (enriched i) (aggregate_spend utc_date now rows agent i.asset) in
    verdict audited aggregates
      (evaluate_intent rt convert now (enrich utc_date now rows agent aggregates i) policies)

abbrev pub check_agent :
    Runtime
    → Converter
    → (ℕ → ℕ)
    → ℕ
    → List SpentRow
    → List StoredPolicy
    → Bool
    → Option String
    → TransactionIntent
    → Checked
check_agent rt convert utc_date now rows policies audited none i = allowed
check_agent rt convert utc_date now rows policies audited (some agent) i =
    if str_eq agent ""
    then allowed
    else if has_spending_limit_policy agent policies
    then check_limited rt convert utc_date now rows policies audited agent i
    else allowed

-- `evaluateSpendingLimits`, on the rows that its queries find.
unfoldable pub evaluate_spending_limits :
    Runtime
    → Converter
    → (ℕ → ℕ)
    → ℕ
    → List SpentRow
    → List StoredPolicy
    → String
    → Option String
    → TransactionIntent
    → Checked
unfolding has_spending_limit_policy aggregate_spend enrich evaluate_intent
evaluate_spending_limits rt convert utc_date now rows policies organization actor i =
    check_agent rt convert utc_date now rows policies
      (is_named actor || is_named (some organization)) i.agent_id i
