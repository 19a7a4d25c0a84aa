-- ===== src/Risk/Engine.antt =====
-- modules/risk/risk.engine.ts, and how risk-aggregator.service.ts makes its input.
use astroid_api.Common.{
  ℕ, ◌+◌, Bool, Option, none, some, List, [], ◌∷◌, ltb, leb, if◌then◌else◌, or_else, sum,
}
use astroid_api.Schema.{RiskBand, low, medium, high, critical}
use astroid_api.Risk.Ratio.{Ratio, whole, add, at_most, round}
use astroid_api.Risk.Rules.{
  RiskFactorsInput, BandThresholds, RiskConfig, FactorScore, Rule, amount_rule, amount_anomaly_rule,
  recipient_rule, recipient_reputation_rule, velocity_rule, wallet_age_rule, policy_violation_rule,
  suspicious_timing_rule,
}

pub record RiskAssessment : Type 0 where
  pub score : ℕ
  pub band : RiskBand
  pub factors : List FactorScore
  pub can_auto_execute : Bool
  pub requires_approval : Bool

unfoldable pub default_rules : List Rule
default_rules =
    amount_rule ∷ amount_anomaly_rule ∷ recipient_rule ∷ recipient_reputation_rule ∷ velocity_rule
    ∷ wallet_age_rule ∷ policy_violation_rule ∷ suspicious_timing_rule ∷ []

-- `DEFAULT_RISK_CONFIG`
abbrev pub default_config : RiskConfig
default_config = record {
  amount_saturation = 10000;
  velocity_saturation = 20;
  velocity_amount_saturation = 20000;
  wallet_seasoned_days = 90;
  policy_violation_saturation = 2;
  suspicious_hour_start = 0;
  suspicious_hour_end = 5;
  reputation_history_depth = 5;
  reputation_failure_weight = record { numerator = 1; denominator = 2 };
  reputation_shallow_weight = record { numerator = 1; denominator = 2 };
  amount_anomaly_saturation = 5;
  review_threshold = 51;
  block_threshold = 81;
  weights = [];
  band_thresholds = none;
}

abbrev pub band_within : BandThresholds → ℕ → RiskBand
band_within t score =
    if leb score t.low_max
    then low
    else if leb score t.med_max
    then medium
    else if leb score t.high_max
    then high
    else critical

abbrev pub to_band : RiskConfig → ℕ → RiskBand
to_band c score =
    band_within (or_else c.band_thresholds (record { low_max = 20; med_max = 50; high_max = 80 }))
      score

abbrev pub evaluate_rules : List Rule → RiskFactorsInput → RiskConfig → List FactorScore
evaluate_rules [] i c = []
evaluate_rules (rule ∷ rules) i c = rule i c ∷ evaluate_rules rules i c

-- `reduce((sum, f) => sum + f.contribution, 0)`
abbrev pub total : Ratio → List FactorScore → Ratio
total sum [] = sum
total sum (f ∷ fs) = total (add sum f.contribution) fs

abbrev pub score_of : List FactorScore → ℕ
score_of factors = round (at_most 100 (total (whole 0) factors))

unfoldable pub assess : RiskFactorsInput → RiskConfig → List Rule → RiskAssessment
assess i c rules =
    let factors = evaluate_rules rules i c in
    let score = score_of factors in
    record {
      score = score;
      band = to_band c score;
      factors = factors;
      can_auto_execute = ltb score c.block_threshold;
      requires_approval = leb c.review_threshold score;
    }

-- The signals that the aggregator gathers, and what it makes of them.
pub record RiskSignals : Type 0 where
  pub recent_transaction_count : ℕ
  pub recent_transaction_amount : ℕ
  pub destination_successful_payments : ℕ
  pub destination_failed_payments : ℕ
  pub amount_baseline : Option ℕ

abbrev pub factors_of :
    (amount wallet_age_days policy_violations : ℕ) → Option ℕ → RiskSignals → RiskFactorsInput
factors_of amount age violations hour s = record {
  amount = amount;
  known_recipient = ltb 0 s.destination_successful_payments;
  recent_transaction_count = s.recent_transaction_count;
  wallet_age_days = age;
  policy_violations = violations;
  hour_utc = hour;
  recent_transaction_amount = some s.recent_transaction_amount;
  destination_payment_count =
      some (s.destination_successful_payments + s.destination_failed_payments);
  destination_failure_count = some s.destination_failed_payments;
  amount_baseline = s.amount_baseline;
}
