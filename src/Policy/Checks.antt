-- ===== src/Policy/Checks.antt =====
-- modules/policies/policy.engine.ts: the checks that each produce violations of one policy.
use astroid_api.Common.{
  ℕ, String, Bool, true, false, not, ◌&&◌, ◌||◌, Option, none, some, List, [], ◌∷◌, ◌++◌, str_eq,
  ltb, leb, ◌==◌, if◌then◌else◌, or_else, or_other, includes,
}
use astroid_api.Policy.{
  VelocityWindow, TimeWindow, Velocity, RuleGroup, Configuration, AssetTransfer, TransactionIntent,
  ViolationCode, max_amount_exceeded, min_amount_not_met, asset_not_allowed, asset_blocked,
  recipient_not_allowed, recipient_blocked, daily_limit_exceeded, weekly_limit_exceeded,
  monthly_limit_exceeded, outside_time_window, velocity_limit_exceeded, rule_group_violated,
  emergency_locked, PolicyViolation, EvaluablePolicy, Runtime,
}
use astroid_api.Policy.Text.{before_colon}
use astroid_api.Policy.Conditions.{resolve_local_time, group_holds}

abbrev pub violation : EvaluablePolicy → ViolationCode → PolicyViolation
violation p code = record { policy_id = p.id; code = code; asset = none }

-- One violation if the test holds.
abbrev pub when : Bool → PolicyViolation → List PolicyViolation
when b v = if b then v ∷ [] else []

-- `limit !== undefined && test(limit)`
abbrev pub and_limit : Option ℕ → (ℕ → Bool) → Bool
and_limit none test = false
and_limit (some l) test = test l

abbrev pub and_list : Option (List String) → (List String → Bool) → Bool
and_list none test = false
and_list (some l) test = test l

unfoldable pub override_active : Option ℕ → Option ℕ → ℕ → Bool
override_active (some limit) (some until) at = leb at until
override_active _ _ at = false

unfoldable pub effective_max_amount : EvaluablePolicy → Configuration → ℕ → Option ℕ
unfolding override_active
effective_max_amount p c at =
    if override_active p.override_limit p.override_until at
    then p.override_limit
    else or_other p.original_limit c.max_amount

-- The asset that an amount violation names: the code of the leg's asset, for a multi-leg intent.
unfoldable pub violation_asset : Runtime → List AssetTransfer → String → Option String
unfolding before_colon
violation_asset rt [] asset = none
violation_asset rt (t ∷ ts) asset =
    let code = rt.upper (before_colon asset) in if str_eq code "" then none else some code

unfoldable pub check_amount :
    Runtime → EvaluablePolicy → Configuration → TransactionIntent → ℕ → List PolicyViolation
unfolding effective_max_amount violation_asset
check_amount rt p c intent at =
    let asset = violation_asset rt intent.transfers intent.asset in
    when (and_limit (effective_max_amount p c at) (λ l. ltb l intent.amount))
      (record (violation p max_amount_exceeded) { asset = asset })
    ++ when (and_limit c.min_amount (λ l. ltb intent.amount l))
        (record (violation p min_amount_not_met) { asset = asset })

unfoldable pub check_assets :
    EvaluablePolicy → Configuration → TransactionIntent → List PolicyViolation
check_assets p c intent =
    when (and_list c.allowed_assets (λ l. not (includes l intent.asset)))
      (violation p asset_not_allowed)
    ++ when (and_list c.blocked_assets (λ l. includes l intent.asset)) (violation p asset_blocked)

unfoldable pub check_recipients :
    EvaluablePolicy → Configuration → TransactionIntent → List PolicyViolation
check_recipients p c intent =
    when (and_list c.allowed_recipients (λ l. not (includes l intent.recipient_address)))
      (violation p recipient_not_allowed)
    ++ when (and_list c.blocked_recipients (λ l. includes l intent.recipient_address))
        (violation p recipient_blocked)

-- `(spent ?? 0) + amount > limit`, in doubles
abbrev pub exceeds : Runtime → Option ℕ → Option ℕ → ℕ → Bool
exceeds rt limit spent amount = and_limit limit (λ l. rt.sum_exceeds (or_else spent 0) amount l)

unfoldable pub check_periodic_limits :
    Runtime → EvaluablePolicy → Configuration → TransactionIntent → List PolicyViolation
check_periodic_limits rt p c intent =
    when (exceeds rt c.daily_limit intent.spent_today intent.amount)
      (violation p daily_limit_exceeded)
    ++ (when (exceeds rt c.weekly_limit intent.spent_this_week intent.amount)
          (violation p weekly_limit_exceeded)
        ++ when (exceeds rt c.monthly_limit intent.spent_this_month intent.amount)
            (violation p monthly_limit_exceeded))

unfoldable pub includes_day : Option (List ℕ) → ℕ → Bool
includes_day none d = true
includes_day (some []) d = false
includes_day (some (x ∷ xs)) d = x == d || includes_day (some xs) d

unfoldable pub within_window : Runtime → TimeWindow → ℕ → Bool
unfolding includes_day resolve_local_time
within_window rt w at =
    let local = resolve_local_time rt at w.timezone in
    (leb w.start_hour local.hour && ltb local.hour w.end_hour)
    && includes_day w.days local.day_of_week

unfoldable pub check_time_window :
    Runtime → EvaluablePolicy → Option TimeWindow → ℕ → List PolicyViolation
unfolding within_window
check_time_window rt p none at = []
check_time_window rt p (some w) at =
    when (not (within_window rt w at)) (violation p outside_time_window)

unfoldable pub executed_count : TransactionIntent → VelocityWindow → ℕ
executed_count intent w =
    or_else (or_other (intent.transaction_counts w) intent.transaction_count) 0

unfoldable pub check_velocity :
    EvaluablePolicy → Option Velocity → TransactionIntent → List PolicyViolation
unfolding executed_count
check_velocity p none intent = []
check_velocity p (some v) intent =
    if ltb (executed_count intent v.window) v.max_transactions
    then []
    else violation p velocity_limit_exceeded ∷ []

unfoldable pub check_rule_groups :
    Runtime → EvaluablePolicy → List RuleGroup → TransactionIntent → ℕ → List PolicyViolation
check_rule_groups rt p [] intent at = []
check_rule_groups rt p (g ∷ gs) intent at =
    let rest = check_rule_groups rt p gs intent at in
    if group_holds rt intent at g then rest else violation p rule_group_violated ∷ rest

unfoldable pub check_emergency_lock : EvaluablePolicy → Configuration → List PolicyViolation
check_emergency_lock p c = when c.emergency_lock (violation p emergency_locked)

unfoldable pub demands_approval : Configuration → TransactionIntent → Bool
demands_approval c intent =
    c.requires_approval || and_limit c.approval_threshold (λ t. leb t intent.amount)
