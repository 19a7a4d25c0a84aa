-- ===== src/Risk/Rules.antt =====
-- modules/risk/rules and risk.types.ts. Amounts and saturation points count the same units; weights are whole
-- and saturation points positive. Details and names of factors are left out.
use astroid_api.Common.{
  ℕ, ◌-◌, ◌*◌, String, Bool, false, not, ◌&&◌, Option, none, some, List, ltb, leb, ◌==◌,
  if◌then◌else◌, or_else, lookup,
}
use astroid_api.Risk.Ratio.{Ratio, whole, add, times, multiply, larger, at_most, share, rest_of}

pub record RiskFactorsInput : Type 0 where
  pub amount : ℕ
  pub known_recipient : Bool
  pub recent_transaction_count : ℕ
  pub wallet_age_days : ℕ
  pub policy_violations : ℕ
  pub hour_utc : Option ℕ
  pub recent_transaction_amount : Option ℕ
  pub destination_payment_count : Option ℕ
  pub destination_failure_count : Option ℕ
  pub amount_baseline : Option ℕ

pub record BandThresholds : Type 0 where
  pub low_max : ℕ
  pub med_max : ℕ
  pub high_max : ℕ

pub record RiskConfig : Type 0 where
  pub amount_saturation : ℕ
  pub velocity_saturation : ℕ
  pub velocity_amount_saturation : ℕ
  pub wallet_seasoned_days : ℕ
  pub policy_violation_saturation : ℕ
  pub suspicious_hour_start : ℕ
  pub suspicious_hour_end : ℕ
  pub reputation_history_depth : ℕ
  pub reputation_failure_weight : Ratio
  pub reputation_shallow_weight : Ratio
  pub amount_anomaly_saturation : ℕ
  pub review_threshold : ℕ
  pub block_threshold : ℕ
  pub weights : List (String × ℕ)
  pub band_thresholds : Option BandThresholds

-- A factor's weight and its contribution to the score.
pub record FactorScore : Type 0 where
  pub weight : ℕ
  pub contribution : Ratio

abbrev pub weight_of : RiskConfig → String → ℕ → ℕ
weight_of c name default_weight = or_else (lookup c.weights name) default_weight

abbrev pub weighted : ℕ → Ratio → FactorScore
weighted w a = record { weight = w; contribution = times a w }

abbrev pub flat : ℕ → Bool → FactorScore
flat w applies = weighted w (if applies then whole 1 else whole 0)

abbrev pub Rule : Type 0
Rule = RiskFactorsInput → RiskConfig → FactorScore

unfoldable pub amount_rule : Rule
amount_rule i c = weighted (weight_of c "amount" 30) (share i.amount c.amount_saturation)

-- `(ratio - 1) / (saturation - 1)`, clamped, where the saturation is at least 1.000001
abbrev pub anomaly : ℕ → ℕ → Option ℕ → Ratio
anomaly amount saturation none = whole 0
anomaly amount saturation (some baseline) =
    if baseline == 0
    then whole 0
    else if leb amount baseline
    then whole 0
    else if leb 2 saturation
    then share (amount - baseline) (baseline * (saturation - 1))
    else share ((amount - baseline) * 1000000) baseline

unfoldable pub amount_anomaly_rule : Rule
amount_anomaly_rule i c =
    weighted (weight_of c "amountAnomaly" 10)
      (anomaly i.amount c.amount_anomaly_saturation i.amount_baseline)

unfoldable pub recipient_rule : Rule
recipient_rule i c = flat (weight_of c "unknownRecipient" 15) (not i.known_recipient)

-- The failure rate and the shallowness of the history, each with its weight, clamped to 1.
abbrev pub reputation : RiskConfig → ℕ → ℕ → Ratio
reputation c total failed_count =
    if total == 0
    then whole 0
    else at_most 1 (
        add (multiply c.reputation_failure_weight (share failed_count total))
          (multiply c.reputation_shallow_weight (rest_of (share total c.reputation_history_depth))))

unfoldable pub recipient_reputation_rule : Rule
recipient_reputation_rule i c =
    weighted (weight_of c "destinationReputation" 10)
      (reputation c (or_else i.destination_payment_count 0) (or_else i.destination_failure_count 0))

abbrev pub amount_share : RiskConfig → Option ℕ → Ratio
amount_share c none = whole 0
amount_share c (some amount) = share amount c.velocity_amount_saturation

unfoldable pub velocity_rule : Rule
velocity_rule i c = weighted (weight_of c "velocity" 20) (
    larger (share i.recent_transaction_count c.velocity_saturation)
      (amount_share c i.recent_transaction_amount))

unfoldable pub wallet_age_rule : Rule
wallet_age_rule i c =
    weighted (weight_of c "walletAge" 10) (rest_of (share i.wallet_age_days c.wallet_seasoned_days))

unfoldable pub policy_violation_rule : Rule
policy_violation_rule i c =
    weighted (weight_of c "policyViolations" 5)
      (share i.policy_violations c.policy_violation_saturation)

abbrev pub is_suspicious : RiskConfig → Option ℕ → Bool
is_suspicious c none = false
is_suspicious c (some hour) = leb c.suspicious_hour_start hour && ltb hour c.suspicious_hour_end

unfoldable pub suspicious_timing_rule : Rule
suspicious_timing_rule i c = flat (weight_of c "suspiciousTiming" 5) (is_suspicious c i.hour_utc)
