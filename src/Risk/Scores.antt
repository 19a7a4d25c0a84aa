-- ===== src/Risk/Scores.antt =====
-- How far the rules and the score can go.
use astroid_api.Common.{
  ℕ, ◌+◌, ◌-◌, ◌*◌, ◌/◌, ◌≤◌, ◌<◌, ◌≡◌, refl, ◌↔◌, ◌⊎◌, inl, inr, Bool, true, false, not, Option,
  none, some, List, [], ◌∷◌, arith, ltb, leb, ◌==◌, leb→le, Bool-cases, if_both, All, sum,
}
use native.Mathlib.Nat.{
  le_of_mul-le-mul_right, mul-le-mul_left, mul-le-mul_right, mul-pos, div-lt_iff_lt-mul,
}
use astroid_api.Schema.{RiskBand, high, critical}
use astroid_api.Risk.Ratio.{
  Ratio, whole, add, times, exceeds, larger, at_most, share, rest_of, round,
}
use astroid_api.Risk.Rules.{
  RiskFactorsInput, RiskConfig, FactorScore, Rule, flat, anomaly, reputation, amount_share,
  is_suspicious, amount_rule, amount_anomaly_rule, recipient_rule, recipient_reputation_rule,
  velocity_rule, wallet_age_rule, policy_violation_rule, suspicious_timing_rule,
}
use astroid_api.Risk.Engine.{
  default_rules, default_config, evaluate_rules, total, score_of, assess, band_within,
}

-- At most a whole number.
abbrev pub IsBelow : ℕ → Ratio → Type 0
IsBelow n a = (a.numerator ≤ n * a.denominator) × (0 < a.denominator)

whole-IsBelow : (n m : ℕ) → n ≤ m → IsBelow m (whole n)
whole-IsBelow n m h = (omega (arith, h), omega arith)

at_most-IsBelow : (n : ℕ) (a : Ratio) → 0 < a.denominator → IsBelow n (at_most n a)
at_most-IsBelow n a pos = elim (Bool-cases (leb (n * a.denominator) a.numerator)) [
  | inl e ↦ rw e (whole-IsBelow n n (omega arith))
  | inr e ↦ rw e (ground (arith, e), pos)
]

share-IsBelow : (x y : ℕ) → 0 < y → IsBelow 1 (share x y)
share-IsBelow x y pos = at_most-IsBelow 1 (record { numerator = x; denominator = y }) pos

rest-IsBelow : (a : Ratio) → IsBelow 1 a → IsBelow 1 (rest_of a)
rest-IsBelow a (h, pos) = (omega arith, pos)

larger-IsBelow : (n : ℕ) (a b : Ratio) → IsBelow n a → IsBelow n b → IsBelow n (larger a b)
larger-IsBelow n a b ha hb = if_both (IsBelow n) (exceeds b a) b a hb ha

times-IsBelow : (w : ℕ) (a : Ratio) → IsBelow 1 a → IsBelow w (times a w)
times-IsBelow w a (h, pos) =
    let le : a.numerator ≤ a.denominator = omega (arith, h) in (mul-le-mul_left w le, pos)

add-IsBelow : (n m : ℕ) (a b : Ratio) → IsBelow n a → IsBelow m b → IsBelow (n + m) (add a b)
add-IsBelow n m a b (ha, pa) (hb, pb) = (
  omega (arith, mul-le-mul_right b.denominator ha, mul-le-mul_right a.denominator hb),
  mul-pos pa pb,
)

-- The saturation points are positive, and the weights of the reputation are fractions.
pub record IsProper (c : RiskConfig) : Type 0 where
  pub amount : 0 < c.amount_saturation
  pub velocity : 0 < c.velocity_saturation
  pub velocity_amount : 0 < c.velocity_amount_saturation
  pub seasoned : 0 < c.wallet_seasoned_days
  pub violations : 0 < c.policy_violation_saturation
  pub depth : 0 < c.reputation_history_depth
  pub failure_weight : 0 < c.reputation_failure_weight.denominator
  pub shallow_weight : 0 < c.reputation_shallow_weight.denominator

-- A factor that contributes at most its weight.
abbrev pub IsWeighed : FactorScore → Type 0
IsWeighed f = IsBelow f.weight f.contribution

flat-IsWeighed : (w : ℕ) (applies : Bool) → IsWeighed (flat w applies)
flat-IsWeighed w true = times-IsBelow w (whole 1) (whole-IsBelow 1 1 (omega arith))
flat-IsWeighed w false = times-IsBelow w (whole 0) (whole-IsBelow 0 1 (omega arith))

anomaly-IsBelow : (amount saturation : ℕ) (o : Option ℕ) → IsBelow 1 (anomaly amount saturation o)
anomaly-IsBelow amount saturation none = whole-IsBelow 0 1 (omega arith)
anomaly-IsBelow amount saturation (some baseline) = elim (Bool-cases (baseline == 0)) [
  | inl e ↦ rw e (whole-IsBelow 0 1 (omega arith))
  | inr e ↦
      let pos : 0 < baseline = ground (arith, e) in
      rw e (
        if_both (IsBelow 1) (leb amount baseline) _ _ (whole-IsBelow 0 1 (omega arith))
          (elim (Bool-cases (leb 2 saturation)) [
            | inl k ↦
                let more : 0 < saturation - 1 = ground (arith, k) in
                rw k (
                  share-IsBelow (amount - baseline) (baseline * (saturation - 1))
                    (mul-pos pos more))
            | inr k ↦ rw k (share-IsBelow ((amount - baseline) * 1000000) baseline pos)
          ]))
]

reputation-IsBelow :
    (c : RiskConfig) (total_count failed_count : ℕ)
    → IsProper c
    → IsBelow 1 (reputation c total_count failed_count)
reputation-IsBelow c total_count failed_count p = elim (Bool-cases (total_count == 0)) [
  | inl e ↦ rw e (whole-IsBelow 0 1 (omega arith))
  | inr e ↦
      let pos : 0 < total_count = ground (arith, e) in
      let rate = share-IsBelow failed_count total_count pos in
      let shallow = rest-IsBelow _ (share-IsBelow total_count c.reputation_history_depth p.depth) in
      rw e (
        at_most-IsBelow 1 _
          (mul-pos (mul-pos p.failure_weight rate.1) (mul-pos p.shallow_weight shallow.1)))
]

amount_share-IsBelow : (c : RiskConfig) (o : Option ℕ) → IsProper c → IsBelow 1 (amount_share c o)
amount_share-IsBelow c none p = whole-IsBelow 0 1 (omega arith)
amount_share-IsBelow c (some x) p = share-IsBelow x c.velocity_amount_saturation p.velocity_amount

-- Under a configuration with positive saturation points, each of the eight rules contributes at most its
-- weight to the score.
pub rules_bounded :
    (i : RiskFactorsInput) (c : RiskConfig)
    → IsProper c
    → All IsWeighed (evaluate_rules default_rules i c)
unfolding default_rules amount_rule amount_anomaly_rule recipient_rule recipient_reputation_rule
    velocity_rule wallet_age_rule policy_violation_rule suspicious_timing_rule
rules_bounded i c p = (
  times-IsBelow _ _ (share-IsBelow i.amount c.amount_saturation p.amount),
  (
    times-IsBelow _ _ (anomaly-IsBelow i.amount c.amount_anomaly_saturation i.amount_baseline),
    (
      flat-IsWeighed _ (not i.known_recipient),
      (
        times-IsBelow _ _ (reputation-IsBelow c _ _ p),
        (
          times-IsBelow _ _ (
              larger-IsBelow 1 _ _
                (share-IsBelow i.recent_transaction_count c.velocity_saturation p.velocity)
                (amount_share-IsBelow c i.recent_transaction_amount p)),
          (
            times-IsBelow _ _ (
                rest-IsBelow _ (share-IsBelow i.wallet_age_days c.wallet_seasoned_days p.seasoned)),
            (
              times-IsBelow _ _
                  (share-IsBelow i.policy_violations c.policy_violation_saturation p.violations),
              (flat-IsWeighed _ (is_suspicious c i.hour_utc), tt),
            ),
          ),
        ),
      ),
    ),
  ),
)

abbrev pub weights_of : List FactorScore → ℕ
weights_of [] = 0
weights_of (f ∷ fs) = f.weight + weights_of fs

total-IsBelow :
    (n : ℕ) (sum : Ratio) (fs : List FactorScore)
    → IsBelow n sum
    → All IsWeighed fs
    → IsBelow (n + weights_of fs) (total sum fs)
total-IsBelow n sum [] h all = (omega (arith, h.0), h.1)
total-IsBelow n sum (f ∷ fs) h (hf, hfs) =
    let rest =
      total-IsBelow (n + f.weight) (add sum f.contribution) fs
        (add-IsBelow n f.weight sum f.contribution h hf) hfs in
    let same : n + f.weight + weights_of fs ≡ n + (f.weight + weights_of fs) = omega arith in
    rw same at rest

round-IsBelow : (n : ℕ) (a : Ratio) → IsBelow n a → round a ≤ n
round-IsBelow n a (h, pos) =
    let x : ℕ = 2 * a.numerator + a.denominator in
    let small : x < (n + 1) * (2 * a.denominator) = omega (arith, h, pos) in
    let below : x / (2 * a.denominator) < n + 1 =
      (div-lt_iff_lt-mul {k = 2 * a.denominator} {x = x} {y = n + 1} (omega (arith, pos))).1
        small in
    omega (arith, below)

capped-IsBelow : (n m : ℕ) (a : Ratio) → IsBelow m a → IsBelow m (at_most n a)
capped-IsBelow n m a (h, pos) = elim (Bool-cases (leb (n * a.denominator) a.numerator)) [
  | inl e ↦
      let le : n * a.denominator ≤ a.numerator = leb→le _ _ e in
      let most : n * a.denominator ≤ m * a.denominator = omega (arith, le, h) in
      rw e (whole-IsBelow n m (le_of_mul-le-mul_right most pos))
  | inr e ↦ rw e (h, pos)
]

-- The composite score is at most 100, and at most the sum of the weights that the configuration gives the
-- eight rules.
pub score_bounded :
    (i : RiskFactorsInput) (c : RiskConfig)
    → IsProper c
    → ((assess i c default_rules).score ≤ 100)
      × ((assess i c default_rules).score ≤ weights_of (assess i c default_rules).factors)
unfolding assess
score_bounded i c p =
    let fs = evaluate_rules default_rules i c in
    let sum = total (whole 0) fs in
    let (all, pos) =
      total-IsBelow 0 (whole 0) fs (whole-IsBelow 0 0 (omega arith)) (rules_bounded i c p) in
    let all' : sum.numerator ≤ weights_of fs * sum.denominator = omega (arith, all) in
    (
      round-IsBelow 100 (at_most 100 (total (whole 0) fs))
          (at_most-IsBelow 100 (total (whole 0) fs) pos),
      round-IsBelow (weights_of fs) (at_most 100 (total (whole 0) fs))
          (capped-IsBelow 100 (weights_of fs) (total (whole 0) fs) (all', pos)),
    )

-- The flags of an assessment follow its band.
abbrev Agree : ℕ → RiskBand → Type 0
Agree score band =
    ((leb 51 score ≡ true) ↔ ((band ≡ high) ⊎ (band ≡ critical)))
    × ((ltb score 81 ≡ false) ↔ (band ≡ critical))

band-Agree :
    (n : ℕ) → Agree n (band_within (record { low_max = 20; med_max = 50; high_max = 80 }) n)
band-Agree n = elim (Bool-cases (leb n 20)) [
  | inl a ↦ rw a ((ground (arith, a), ground (arith, a)), (ground (arith, a), ground (arith, a)))
  | inr a ↦ elim (Bool-cases (leb n 50)) [
    | inl b ↦
        rw (a, b)
          (
            (ground (arith, a, b), ground (arith, a, b)),
            (ground (arith, a, b), ground (arith, a, b)),
          )
    | inr b ↦ elim (Bool-cases (leb n 80)) [
      | inl c ↦
          let below : ltb n 81 ≡ true = ground (arith, c) in
          let above : leb 51 n ≡ true = ground (arith, b) in
          rw (a, b, c, below, above)
            (
              (λ _. inl refl, λ _. refl),
              (λ h. absurd (ground (arith, h)), λ h. absurd (ground (arith, h))),
            )
      | inr c ↦
          let past : ltb n 81 ≡ false = ground (arith, c) in
          let above : leb 51 n ≡ true = ground (arith, b) in
          rw (a, b, c, past, above) ((λ _. inr refl, λ _. refl), (λ _. refl, λ _. refl))
    ]
  ]
]

-- With the default thresholds, a transaction needs an approval exactly when its band is HIGH or CRITICAL, and
-- can never execute by itself exactly when it is CRITICAL.
bands_agree :
    (i : RiskFactorsInput) (rules : List Rule)
    → (let a = assess i default_config rules in
        ((a.requires_approval ≡ true) ↔ ((a.band ≡ high) ⊎ (a.band ≡ critical)))
        × ((a.can_auto_execute ≡ false) ↔ (a.band ≡ critical)))
unfolding assess
bands_agree i rules = band-Agree (score_of (evaluate_rules rules i default_config))
