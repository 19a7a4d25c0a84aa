-- ===== src/Policy/AssetLimits.antt =====
-- What the engine does not read: the spend recorded per asset, and an asset's periodic limits.
use astroid_api.Common.{
  ℕ, String, ◌≡◌, refl, ap, inl, inr, Bool, not, Option, none, some, List, [], ◌∷◌, str_eq,
  Bool-cases, or_else, or_other, length, keep,
}
use mathlib.Core.Path.{fun_ext}
use mathlib.Core.Option
use astroid_api.Policy.{
  AssetLimit, AssetTransfer, SpendPeriods, TransactionIntent, EvaluablePolicy, Runtime, RuleField,
  RuleCondition, RuleGroup, Velocity,
}
use astroid_api.Policy.Text.{before_colon}
use astroid_api.Policy.Conditions.{
  resolve_condition_value, evaluate_condition, holds_by, group_holds,
}
use astroid_api.Policy.Checks.{
  check_amount, check_assets, check_recipients, check_periodic_limits, check_velocity,
  check_rule_groups,
}
use astroid_api.Policy.Engine.{
  active_policies, legs_of, lookup_limit, asset_limit, check_leg, check_legs, check_policy,
  check_policies, any_demands, evaluate,
}

-- The same intent with another record of the spend per asset.
abbrev pub respent : List (String × SpendPeriods) → TransactionIntent → TransactionIntent
respent x intent = record intent { spent_by_asset = x }

module _ (rt : Runtime) (x : List (String × SpendPeriods)) (intent : TransactionIntent)
    (at : ℕ) where
  resolve_respent :
      (f : RuleField)
      → resolve_condition_value f rt (respent x intent) at ≡ resolve_condition_value f rt intent at
  unfolding resolve_condition_value
  resolve_respent RuleField.amount = refl
  resolve_respent _ = refl

  condition_respent :
      (c : RuleCondition)
      → evaluate_condition rt (respent x intent) at c ≡ evaluate_condition rt intent at c
  unfolding evaluate_condition
  condition_respent c = rw (resolve_respent c.field) refl

  group_respent :
      (g : RuleGroup) → group_holds rt (respent x intent) at g ≡ group_holds rt intent at g
  unfolding group_holds
  group_respent g =
      ap
        (λ (t : RuleCondition → Bool).
          holds_by g.logic (length (keep (λ c. not (t c)) g.conditions)) (length g.conditions))
        (fun_ext condition_respent)

  groups_respent :
      (p : EvaluablePolicy) (gs : List RuleGroup)
      → check_rule_groups rt p gs (respent x intent) at ≡ check_rule_groups rt p gs intent at
  unfolding check_rule_groups
  groups_respent p [] = refl
  groups_respent p (g ∷ gs) = rw (group_respent g, groups_respent p gs) refl

  leg_respent :
      (p : EvaluablePolicy) (leg : AssetTransfer)
      → check_leg rt p (respent x intent) at leg ≡ check_leg rt p intent at leg
  unfolding check_leg check_amount check_assets check_recipients check_periodic_limits
  leg_respent p leg = refl

  legs_respent :
      (p : EvaluablePolicy) (legs : List AssetTransfer)
      → check_legs rt p (respent x intent) at legs ≡ check_legs rt p intent at legs
  unfolding check_legs
  legs_respent p [] = refl
  legs_respent p (leg ∷ legs) = rw (leg_respent p leg, legs_respent p legs) refl

  legs_of-respent : (ts : List AssetTransfer) → legs_of (respent x intent) ts ≡ legs_of intent ts
  unfolding legs_of
  legs_of-respent [] = refl
  legs_of-respent (t ∷ ts) = refl

  velocity_respent :
      (p : EvaluablePolicy) (v : Option Velocity)
      → check_velocity p v (respent x intent) ≡ check_velocity p v intent
  unfolding check_velocity
  velocity_respent p none = refl
  velocity_respent p (some v) = refl

  policy_respent :
      (p : EvaluablePolicy) → check_policy rt (respent x intent) at p ≡ check_policy rt intent at p
  unfolding check_policy
  policy_respent p =
      rw
        (
          legs_of-respent intent.transfers,
          legs_respent p (legs_of intent intent.transfers),
          velocity_respent p p.configuration.velocity,
          groups_respent p p.configuration.rules,
        )
        refl

  policies_respent :
      (ps : List EvaluablePolicy)
      → check_policies rt (respent x intent) at ps ≡ check_policies rt intent at ps
  unfolding check_policies
  policies_respent [] = refl
  policies_respent (p ∷ ps) = rw (policy_respent p, policies_respent ps) refl

  active_respent :
      (ps : List EvaluablePolicy)
      → active_policies (respent x intent) ps ≡ active_policies intent ps
  unfolding active_policies
  active_respent ps = refl

  demands_respent :
      (ps : List EvaluablePolicy) → any_demands (respent x intent) ps ≡ any_demands intent ps
  unfolding any_demands
  demands_respent [] = refl
  demands_respent (p ∷ ps) = rw (demands_respent ps) refl

-- The result of an evaluation does not depend on the spend that the intent records per asset.
evaluate-respent :
    (rt : Runtime) (now : ℕ) (x : List (String × SpendPeriods)) (intent : TransactionIntent)
    (policies : List EvaluablePolicy)
    → evaluate rt now (respent x intent) policies ≡ evaluate rt now intent policies
unfolding evaluate
evaluate-respent rt now x intent policies =
    let at = or_else intent.at now in
    rw
      (
        active_respent rt x intent at policies,
        policies_respent rt x intent at (active_policies intent policies),
        demands_respent rt x intent at (active_policies intent policies),
      )
      refl

-- An asset's limits without its periodic ones.
abbrev pub without_periods : AssetLimit → AssetLimit
without_periods l = record l { daily_limit = none; weekly_limit = none; monthly_limit = none }

abbrev pub stripped : List (String × AssetLimit) → List (String × AssetLimit)
stripped [] = []
stripped ((k, l) ∷ rest) = (k, without_periods l) ∷ stripped rest

-- The same policy, none of whose assets has a periodic limit.
abbrev pub strip : EvaluablePolicy → EvaluablePolicy
strip p = record p {
  configuration = record p.configuration { asset_limits = stripped p.configuration.asset_limits };
}

lookup-stripped :
    (k : String) (l : List (String × AssetLimit))
    → lookup_limit k (stripped l) ≡ Option.map without_periods (lookup_limit k l)
unfolding lookup_limit
lookup-stripped k [] = refl
lookup-stripped k ((j, a) ∷ rest) = elim (Bool-cases (str_eq j k)) [
  | inl e ↦ rw e refl
  | inr e ↦ rw e (lookup-stripped k rest)
]

or_other-map :
    (a b : Option AssetLimit)
    → or_other (Option.map without_periods a) (Option.map without_periods b)
      ≡ Option.map without_periods (or_other a b)
or_other-map none b = refl
or_other-map (some x) b = refl

pub asset_limit-strip :
    (rt : Runtime) (p : EvaluablePolicy) (asset : String)
    → asset_limit rt (strip p).configuration asset
      ≡ Option.map without_periods (asset_limit rt p.configuration asset)
unfolding asset_limit
asset_limit-strip rt p asset =
    rw
      (
        lookup-stripped (rt.upper (before_colon asset)) p.configuration.asset_limits,
        lookup-stripped (rt.lower (rt.upper (before_colon asset))) p.configuration.asset_limits,
      )
      (or_other-map _ _)
