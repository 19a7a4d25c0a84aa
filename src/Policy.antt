-- ===== src/Policy.antt =====
-- modules/policies/policy.types.ts: what the policy engine reads and returns.
-- An amount is a natural number that stands for a double that is not negative, 0 for 0 and in the order of the
-- doubles, so that a comparison is the source's. What depends on more than the order is part of Runtime: whether a
-- rounded sum exceeds a limit, and which number stands for a whole one. Below 2^29, the units of
-- 10^-7 that Stellar counts in are such numbers, since doubles lie closer than that. A violation is kept without
-- its message and its policy's name, which are only shown.
pub mod Text
pub mod Conditions
pub mod Checks
pub mod Engine
pub mod Spec
pub mod SpecRules
pub mod Decides
pub mod Order
pub mod AssetLimits
pub mod Periods
pub mod Currencies
pub mod CurrencyGroups
mod Tests
use astroid_api.Common.{ℕ, String, Bool, Option, List}

pub data VelocityWindow : Type 0 where
  minute hour day week month : VelocityWindow

pub record AssetLimit : Type 0 where
  pub max_amount : Option ℕ
  pub min_amount : Option ℕ
  pub daily_limit : Option ℕ
  pub weekly_limit : Option ℕ
  pub monthly_limit : Option ℕ

pub record TimeWindow : Type 0 where
  pub start_hour : ℕ
  pub end_hour : ℕ
  pub days : Option (List ℕ)
  pub timezone : Option String

pub record Velocity : Type 0 where
  pub max_transactions : ℕ
  pub window : VelocityWindow

pub data RuleField : Type 0 where
  amount asset recipient_address agent_id hour_of_day day_of_week transaction_count : RuleField

pub data RuleOperator : Type 0 where
  eq neq gt gte lt lte one_of not_in : RuleOperator

-- A JavaScript number: one that stands for `n`, a negative one (`minus n`, below it for a larger n), or NaN.
pub data Num : Type 0 where
  units minus : ℕ → Num
  nan : Num

pub data RuleValue : Type 0 where
  text : String → RuleValue
  number : Num → RuleValue
  boolean : Bool → RuleValue
  texts : List String → RuleValue

pub record RuleCondition : Type 0 where
  pub field : RuleField
  pub operator : RuleOperator
  pub value : RuleValue

pub data Logic : Type 0 where
  all_of any_of : Logic

pub record RuleGroup : Type 0 where
  pub logic : Logic
  pub conditions : List RuleCondition

-- An optional flag that is absent is `false`; an absent list of rules is the empty one.
pub record Configuration : Type 0 where
  pub max_amount : Option ℕ
  pub min_amount : Option ℕ
  pub allowed_assets : Option (List String)
  pub blocked_assets : Option (List String)
  pub allowed_recipients : Option (List String)
  pub blocked_recipients : Option (List String)
  pub daily_limit : Option ℕ
  pub weekly_limit : Option ℕ
  pub monthly_limit : Option ℕ
  pub time_window : Option TimeWindow
  pub velocity : Option Velocity
  pub rules : List RuleGroup
  pub requires_approval : Bool
  pub approval_threshold : Option ℕ
  pub emergency_lock : Bool
  pub asset_limits : List (String × AssetLimit)

pub record AssetTransfer : Type 0 where
  pub asset : String
  pub amount : ℕ
  pub recipient_address : Option String

pub record SpendPeriods : Type 0 where
  pub spent_today : ℕ
  pub spent_this_week : ℕ
  pub spent_this_month : ℕ

-- An absent list of transfers is the empty one, which the engine treats alike; `empty_transfers` says that the
-- list is there and empty.
pub record TransactionIntent : Type 0 where
  pub agent_id : Option String
  pub asset : String
  pub amount : ℕ
  pub recipient_address : String
  pub at : Option ℕ
  pub spent_today : Option ℕ
  pub spent_this_week : Option ℕ
  pub spent_this_month : Option ℕ
  pub transaction_count : Option ℕ
  pub transaction_counts : VelocityWindow → Option ℕ
  pub transfers : List AssetTransfer
  pub empty_transfers : Bool
  pub spent_by_asset : List (String × SpendPeriods)

pub data ViolationCode : Type 0 where
  max_amount_exceeded min_amount_not_met asset_not_allowed asset_blocked : ViolationCode
  recipient_not_allowed recipient_blocked : ViolationCode
  daily_limit_exceeded weekly_limit_exceeded monthly_limit_exceeded : ViolationCode
  outside_time_window velocity_limit_exceeded rule_group_violated emergency_locked : ViolationCode

pub record PolicyViolation : Type 0 where
  pub policy_id : String
  pub code : ViolationCode
  pub asset : Option String

pub record PolicyEvaluationResult : Type 0 where
  pub passed : Bool
  pub requires_approval : Bool
  pub violations : List PolicyViolation
  pub evaluated_policy_ids : List String
  pub matched_policy_id : Option String

pub record EvaluablePolicy : Type 0 where
  pub id : String
  pub priority : ℕ
  pub enabled : Bool
  pub agent_id : Option String
  pub configuration : Configuration
  pub override_limit : Option ℕ
  pub override_until : Option ℕ
  pub original_limit : Option ℕ

-- What the engine takes from the JavaScript runtime: case conversion, the printing and the parsing
-- of numbers, and `Intl.DateTimeFormat` with its two parts looked up,
-- where `none` is a time zone that it refuses, `spent + amount > limit` on the doubles of three amounts, and the
-- amount that stands for a whole number.
pub record Runtime : Type 0 where
  pub upper : String → String
  pub lower : String → String
  pub show_number : ℕ → String
  pub parse_number : String → Num
  pub zone_parts : ℕ → String → Option (Option ℕ × Option String)
  pub sum_exceeds : (spent amount limit : ℕ) → Bool
  pub whole : ℕ → ℕ
