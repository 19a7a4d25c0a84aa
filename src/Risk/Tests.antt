-- ===== src/Risk/Tests.antt =====
-- A first payment of 4000 to an unknown address at night, from a fresh wallet.
use astroid_api.Common.{◌≤◌, ◌≡◌, refl, some, arith}
use astroid_api.Risk.Rules.{
  RiskFactorsInput, amount_rule, amount_anomaly_rule, recipient_rule, recipient_reputation_rule,
  velocity_rule, wallet_age_rule, policy_violation_rule, suspicious_timing_rule,
}
use astroid_api.Risk.Engine.{
  default_rules, default_config, assess, evaluate_rules, RiskSignals, factors_of,
}
use astroid_api.Risk.Scores.{IsProper, weights_of, score_bounded}

abbrev signals : RiskSignals
signals = record {
  recent_transaction_count = 4;
  recent_transaction_amount = 9000;
  destination_successful_payments = 0;
  destination_failed_payments = 1;
  amount_baseline = some 1000;
}

abbrev payment : RiskFactorsInput
payment = factors_of 4000 3 1 (some 2) signals

abbrev defaults_proper : IsProper default_config
defaults_proper = record {
  amount = omega arith;
  velocity = omega arith;
  velocity_amount = omega arith;
  seasoned = omega arith;
  violations = omega arith;
  depth = omega arith;
  failure_weight = omega arith;
  shallow_weight = omega arith;
}

score_bounded_example :
    ((assess payment default_config default_rules).score ≤ 100)
    × ((assess payment default_config default_rules).score
        ≤ weights_of (assess payment default_config default_rules).factors)
score_bounded_example = score_bounded payment default_config defaults_proper

-- The default weights of the eight rules.
weights_sum : weights_of (evaluate_rules default_rules payment default_config) ≡ 105
unfolding default_rules amount_rule amount_anomaly_rule recipient_rule recipient_reputation_rule
    velocity_rule wallet_age_rule policy_violation_rule suspicious_timing_rule
weights_sum = refl
