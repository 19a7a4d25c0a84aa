-- ===== src/Policy/Periods.antt =====
-- The engine enforces no periodic limit of a single asset.
use astroid_api.Common.{
  ℕ, ◌≡◌, refl, ap, ◌∙◌, inl, inr, Option, none, some, List, [], ◌∷◌, ◌++◌, map, leb, Bool-cases,
  or_else, keep,
}
use mathlib.Core.Option
use astroid_api.Policy.{
  AssetLimit, AssetTransfer, TransactionIntent, EvaluablePolicy, Runtime, PolicyViolation,
  TimeWindow, Velocity, RuleGroup,
}
use astroid_api.Policy.Checks.{
  check_time_window, check_velocity, check_rule_groups, check_emergency_lock, check_velocity,
  check_time_window, check_emergency_lock, check_rule_groups, check_amount, check_assets,
  check_recipients, check_periodic_limits,
}
use astroid_api.Policy.Engine.{
  is_active, insert, by_priority, active_policies, legs_of, asset_limit, leg_config, leg_intent,
  check_leg, check_legs, check_policy, check_policies, any_demands, first_id, evaluate,
}
use astroid_api.Policy.AssetLimits.{without_periods, strip, asset_limit-strip}

-- The checks of a leg under a given limit of its asset.
leg_checks :
    Runtime → EvaluablePolicy → Option AssetLimit → TransactionIntent → ℕ → List PolicyViolation
leg_checks rt p o i at =
    let c = leg_config p.configuration o in
    check_amount rt p c i at
    ++ (check_assets p c i ++ (check_recipients p c i ++ check_periodic_limits rt p c i))

leg_checks-strip :
    (rt : Runtime) (p : EvaluablePolicy) (o : Option AssetLimit) (i : TransactionIntent) (at : ℕ)
    → leg_checks rt (strip p) (Option.map without_periods o) i at ≡ leg_checks rt p o i at
unfolding leg_checks leg_config check_amount check_assets check_recipients check_periodic_limits
leg_checks-strip rt p none i at = refl
leg_checks-strip rt p (some l) i at = refl

check_leg-strip :
    (rt : Runtime) (p : EvaluablePolicy) (intent : TransactionIntent) (at : ℕ) (leg : AssetTransfer)
    → check_leg rt (strip p) intent at leg ≡ check_leg rt p intent at leg
unfolding check_leg leg_checks
check_leg-strip rt p intent at leg =
    ap (λ o. leg_checks rt (strip p) o (leg_intent intent leg) at)
      (asset_limit-strip rt p leg.asset)
    ∙ leg_checks-strip rt p (asset_limit rt p.configuration leg.asset) (leg_intent intent leg) at

check_legs-strip :
    (rt : Runtime) (p : EvaluablePolicy) (intent : TransactionIntent) (at : ℕ)
    (legs : List AssetTransfer)
    → check_legs rt (strip p) intent at legs ≡ check_legs rt p intent at legs
unfolding check_legs
check_legs-strip rt p intent at [] = refl
check_legs-strip rt p intent at (leg ∷ legs) =
    rw (check_leg-strip rt p intent at leg, check_legs-strip rt p intent at legs) refl

window-strip :
    (rt : Runtime) (p : EvaluablePolicy) (w : Option TimeWindow) (at : ℕ)
    → check_time_window rt (strip p) w at ≡ check_time_window rt p w at
unfolding check_time_window
window-strip rt p none at = refl
window-strip rt p (some w) at = refl

velocity-strip :
    (p : EvaluablePolicy) (v : Option Velocity) (i : TransactionIntent)
    → check_velocity (strip p) v i ≡ check_velocity p v i
unfolding check_velocity
velocity-strip p none i = refl
velocity-strip p (some v) i = refl

groups-strip :
    (rt : Runtime) (p : EvaluablePolicy) (gs : List RuleGroup) (i : TransactionIntent) (at : ℕ)
    → check_rule_groups rt (strip p) gs i at ≡ check_rule_groups rt p gs i at
unfolding check_rule_groups
groups-strip rt p [] i at = refl
groups-strip rt p (g ∷ gs) i at = rw (groups-strip rt p gs i at) refl

check_policy-strip :
    (rt : Runtime) (intent : TransactionIntent) (at : ℕ) (p : EvaluablePolicy)
    → check_policy rt intent at (strip p) ≡ check_policy rt intent at p
unfolding check_policy check_emergency_lock
check_policy-strip rt intent at p =
    rw
      (
        check_legs-strip rt p intent at (legs_of intent intent.transfers),
        window-strip rt p p.configuration.time_window at,
        velocity-strip p p.configuration.velocity intent,
        groups-strip rt p p.configuration.rules intent at,
      )
      refl

check_policies-strip :
    (rt : Runtime) (intent : TransactionIntent) (at : ℕ) (ps : List EvaluablePolicy)
    → check_policies rt intent at (map strip ps) ≡ check_policies rt intent at ps
unfolding check_policies
check_policies-strip rt intent at [] = refl
check_policies-strip rt intent at (p ∷ ps) =
    rw (check_policy-strip rt intent at p, check_policies-strip rt intent at ps) refl

insert-strip :
    (p : EvaluablePolicy) (ps : List EvaluablePolicy)
    → insert (strip p) (map strip ps) ≡ map strip (insert p ps)
unfolding insert
insert-strip p [] = refl
insert-strip p (q ∷ qs) = elim (Bool-cases (leb p.priority q.priority)) [
  | inl e ↦ rw e refl
  | inr e ↦ rw e (rw (insert-strip p qs) refl)
]

by_priority-strip :
    (ps : List EvaluablePolicy) → by_priority (map strip ps) ≡ map strip (by_priority ps)
unfolding by_priority
by_priority-strip [] = refl
by_priority-strip (p ∷ ps) =
    ap (insert (strip p)) (by_priority-strip ps) ∙ insert-strip p (by_priority ps)

keep-strip :
    (intent : TransactionIntent) (ps : List EvaluablePolicy)
    → keep (is_active intent) (map strip ps) ≡ map strip (keep (is_active intent) ps)
unfolding is_active
keep-strip intent [] = refl
keep-strip intent (p ∷ ps) = elim (Bool-cases (is_active intent p)) [
  | inl e ↦ rw e (rw (keep-strip intent ps) refl)
  | inr e ↦ rw e (keep-strip intent ps)
]

active_policies-strip :
    (intent : TransactionIntent) (ps : List EvaluablePolicy)
    → active_policies intent (map strip ps) ≡ map strip (active_policies intent ps)
unfolding active_policies
active_policies-strip intent ps =
    ap by_priority (keep-strip intent ps) ∙ by_priority-strip (keep (is_active intent) ps)

demands-strip :
    (intent : TransactionIntent) (ps : List EvaluablePolicy)
    → any_demands intent (map strip ps) ≡ any_demands intent ps
unfolding any_demands
demands-strip intent [] = refl
demands-strip intent (p ∷ ps) = rw (demands-strip intent ps) refl

ids-strip : (ps : List EvaluablePolicy) → map (λ p. p.id) (map strip ps) ≡ map (λ p. p.id) ps
ids-strip [] = refl
ids-strip (p ∷ ps) = ap (λ l. p.id ∷ l) (ids-strip ps)

first_id-strip : (ps : List EvaluablePolicy) → first_id (map strip ps) ≡ first_id ps
first_id-strip [] = refl
first_id-strip (p ∷ ps) = refl

-- The daily, weekly and monthly limits that a policy sets for one asset change no evaluation:
-- without any of them the result is the same.
evaluate-strip :
    (rt : Runtime) (now : ℕ) (intent : TransactionIntent) (policies : List EvaluablePolicy)
    → evaluate rt now intent (map strip policies) ≡ evaluate rt now intent policies
unfolding evaluate
evaluate-strip rt now intent policies =
    let at = or_else intent.at now in
    let active = active_policies intent policies in
    rw
      (
        active_policies-strip intent policies,
        check_policies-strip rt intent at active,
        demands-strip intent active,
        ids-strip active,
        first_id-strip active,
      )
      refl
