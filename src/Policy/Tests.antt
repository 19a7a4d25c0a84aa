-- ===== src/Policy/Tests.antt =====
-- Evaluations of concrete intents, and the theorems applied to them.
use astroid_api.Common.{
  ℕ, ◌+◌, ◌*◌, String, ◌≡◌, refl, ◌↔◌, true, false, none, some, List, [], ◌∷◌, map, ltb, All, keep,
}
use mathlib.Core.List.{Perm}
use astroid_api.Policy.{
  Configuration, TransactionIntent, EvaluablePolicy, Runtime, nan, max_amount_exceeded,
  emergency_locked, SpendPeriods,
}
use astroid_api.Policy.Conditions.{group_holds}
use astroid_api.Policy.Checks.{
  check_amount, check_assets, check_recipients, check_periodic_limits, check_time_window,
  check_velocity, check_rule_groups, check_emergency_lock,
}
use astroid_api.Policy.Engine.{
  is_active, insert, by_priority, active_policies, legs_of, check_leg, check_legs, check_policy,
  check_policies, any_demands, first_id, evaluate,
}
use astroid_api.Policy.Decides.{NeedsNoApproval, evaluate-approval_iff}
use astroid_api.Policy.Currencies.{StoredPolicy, Converter}
use astroid_api.Policy.Order.{IsRising, evaluate_order}

engine : Unit {0}
unfolding evaluate active_policies insert by_priority legs_of check_leg check_legs check_policy
    check_policies any_demands check_amount check_assets check_recipients check_periodic_limits
    check_time_window check_velocity check_rule_groups check_emergency_lock group_holds
engine = tt

abbrev plain : Runtime
plain = record {
  upper = λ s. s;
  lower = λ s. s;
  show_number = λ n. "0";
  parse_number = λ s. nan;
  zone_parts = λ at zone. none;
  sum_exceeds = λ spent amount limit. ltb limit (spent + amount);
  whole = λ n. n * 10000000;
}

abbrev empty_config : Configuration
empty_config = record {
  max_amount = none;
  min_amount = none;
  allowed_assets = none;
  blocked_assets = none;
  allowed_recipients = none;
  blocked_recipients = none;
  daily_limit = none;
  weekly_limit = none;
  monthly_limit = none;
  time_window = none;
  velocity = none;
  rules = [];
  requires_approval = false;
  approval_threshold = none;
  emergency_lock = false;
  asset_limits = [];
}

abbrev policy_of : String → ℕ → Configuration → EvaluablePolicy
policy_of id priority c = record {
  id = id;
  priority = priority;
  enabled = true;
  agent_id = none;
  configuration = c;
  override_limit = none;
  override_until = none;
  original_limit = none;
}

abbrev cap : EvaluablePolicy
cap = policy_of "cap" 10 (record empty_config {
  max_amount = some 500;
  asset_limits =
      (
        "XLM",
        record {
          max_amount = some 50;
          min_amount = none;
          daily_limit = some 100;
          weekly_limit = none;
          monthly_limit = none;
        },
      )
      ∷ [];
})

abbrev lock : EvaluablePolicy
lock = policy_of "lock" 1 (record empty_config { emergency_lock = true; requires_approval = true })

abbrev pay : ℕ → TransactionIntent
pay n = record {
  agent_id = some "a";
  asset = "XLM";
  amount = n;
  recipient_address = "G";
  at = some 0;
  spent_today = some 90;
  spent_this_week = none;
  spent_this_month = none;
  transaction_count = none;
  transaction_counts = λ w. none;
  transfers = [];
  empty_transfers = false;
  spent_by_asset = [];
}

evaluate_over :
    (evaluate plain 0 (pay 60) (cap ∷ lock ∷ [])).violations
    ≡ record { policy_id = "lock"; code = emergency_locked; asset = none }
      ∷ record { policy_id = "cap"; code = max_amount_exceeded; asset = none }
      ∷ []
unfolding engine
evaluate_over = refl

-- The daily limit of 100 for XLM is not applied to 90 + 40.
evaluate_under : (evaluate plain 0 (pay 40) (cap ∷ [])).passed ≡ true
unfolding engine
evaluate_under = refl

evaluate-approval_iff_example :
    ((evaluate plain 0 (pay 40) (lock ∷ [])).requires_approval ≡ false)
    ↔ All (λ p. is_active (pay 40) p ≡ true → NeedsNoApproval (pay 40) p) (lock ∷ [])
evaluate-approval_iff_example = evaluate-approval_iff plain 0 (pay 40) (lock ∷ [])

evaluate_order_example :
    (qs : List EvaluablePolicy) × ((evaluate plain 0
        (pay 40)
        (cap ∷ lock ∷ [])).evaluated_policy_ids
      ≡ map (λ p. p.id) qs)
    × ((evaluate plain 0 (pay 40) (cap ∷ lock ∷ [])).matched_policy_id ≡ first_id qs)
    × Perm qs (keep (is_active (pay 40)) (cap ∷ lock ∷ []))
    × IsRising qs
evaluate_order_example = evaluate_order plain 0 (pay 40) (cap ∷ lock ∷ [])

abbrev spend : List (String × SpendPeriods)
spend = ("XLM", record { spent_today = 1000; spent_this_week = 1000; spent_this_month = 1000 }) ∷ []

abbrev stored : List StoredPolicy
stored =
    record { policy = cap; base_currency = some "USD"; deleted = false }
    ∷ record { policy = lock; base_currency = none; deleted = false }
    ∷ []

abbrev twice : Converter
twice n asset currency = some (n * 2)
