-- ===== src/Policy/SpecRules.antt =====
-- The checks of a policy that are not about one leg's amount or lists: periods, time window,
-- velocity, rule groups and the emergency lock, and the whole of a leg.
use astroid_api.Common.{
  length, keep, ◌<◌, ◌≤◌, ◌⊎◌, false≢true, sym, ◌∙◌, ℕ, ◌≡◌, refl, ◌↔◌, inl, inr, true, false, not,
  Option, none, some, List, [], ◌∷◌, arith, ◌==◌, Bool-cases, All, In,
}
use astroid_api.Policy.{
  TimeWindow, Velocity, Logic, all_of, any_of, RuleCondition, RuleGroup, Configuration,
  AssetTransfer, TransactionIntent, EvaluablePolicy, Runtime,
}
use astroid_api.Policy.Conditions.{resolve_local_time, evaluate_condition, holds_by, group_holds}
use astroid_api.Policy.Checks.{
  exceeds, check_periodic_limits, includes_day, within_window, check_time_window, check_velocity,
  check_rule_groups, check_emergency_lock,
}
use astroid_api.Policy.Engine.{asset_limit, leg_config, leg_intent, check_leg}
use astroid_api.Policy.Spec.{
  SumWithin, OnDays, InWindow, SlowEnough, RespectsLeg, append-eq-nil_iff, when_iff,
  check_amount_iff, check_assets_iff, check_recipients_iff,
}

sum_iff :
    (rt : Runtime) (o spent : Option ℕ) (n : ℕ)
    → (exceeds rt o spent n ≡ false) ↔ SumWithin rt o spent n
sum_iff rt none spent n = (λ h. tt, λ h. refl)
sum_iff rt (some l) spent n = (λ h. h, λ h. h)

pub check_periodic_limits_iff :
    (rt : Runtime) (p : EvaluablePolicy) (c : Configuration) (i : TransactionIntent)
    → (check_periodic_limits rt p c i ≡ []) ↔ (
        SumWithin rt c.daily_limit i.spent_today i.amount
        × SumWithin rt c.weekly_limit i.spent_this_week i.amount
        × SumWithin rt c.monthly_limit i.spent_this_month i.amount)
unfolding check_periodic_limits
check_periodic_limits_iff rt p c i =
    let d = sum_iff rt c.daily_limit i.spent_today i.amount in
    let w = sum_iff rt c.weekly_limit i.spent_this_week i.amount in
    let m = sum_iff rt c.monthly_limit i.spent_this_month i.amount in
    (
      λ h.
          let (x, yz) = (append-eq-nil_iff _ _).0 h in
          let (y, z) = (append-eq-nil_iff _ _).0 yz in
          (d.0 ((when_iff _ _).0 x), w.0 ((when_iff _ _).0 y), m.0 ((when_iff _ _).0 z)),
      λ (x, y, z). (append-eq-nil_iff _ _).1 (
        (when_iff _ _).1 (d.1 x),
        (append-eq-nil_iff _ _).1 ((when_iff _ _).1 (w.1 y), (when_iff _ _).1 (m.1 z)),
      ),
    )

days_sound : (l : List ℕ) (d : ℕ) → includes_day (some l) d ≡ true → In d l
unfolding includes_day
days_sound [] d h = cc
days_sound (x ∷ xs) d h = elim (Bool-cases (x == d)) [
  | inl e ↦ inl (ground (arith, e))
  | inr e ↦ inr (days_sound xs d (ground (arith, e)))
]

days_complete : (l : List ℕ) (d : ℕ) → In d l → includes_day (some l) d ≡ true
unfolding includes_day
days_complete [] d h = absurd h
days_complete (x ∷ xs) d (inl e) = ground arith
days_complete (x ∷ xs) d (inr h) = ground (arith, days_complete xs d h)

includes_day_iff : (o : Option (List ℕ)) (d : ℕ) → (includes_day o d ≡ true) ↔ OnDays o d
unfolding includes_day
includes_day_iff none d = (λ h. tt, λ h. refl)
includes_day_iff (some l) d = (days_sound l d, days_complete l d)

pub check_time_window_iff :
    (rt : Runtime) (p : EvaluablePolicy) (w : Option TimeWindow) (at : ℕ)
    → (check_time_window rt p w at ≡ []) ↔ InWindow rt at w
unfolding check_time_window
check_time_window_iff rt p none at = (λ h. tt, λ h. refl)
check_time_window_iff rt p (some w) at =
    let local = resolve_local_time rt at w.timezone in
    let days = includes_day_iff w.days local.day_of_week in
    (
      λ h. let e = (when_iff (not (within_window rt w at)) _).0 h in ground (arith, e, days),
      λ (a, b, d). (when_iff (not (within_window rt w at)) _).1 (ground (arith, days.1 d)),
    )

pub check_velocity_iff :
    (p : EvaluablePolicy) (v : Option Velocity) (i : TransactionIntent)
    → (check_velocity p v i ≡ []) ↔ SlowEnough i v
unfolding check_velocity
check_velocity_iff p none i = (λ h. tt, λ h. refl)
check_velocity_iff p (some v) i = ground arith

-- Every condition of an AND holds, and some condition of an OR.
abbrev pub SomeHolds : Runtime → TransactionIntent → ℕ → List RuleCondition → Type 0
SomeHolds rt i at [] = ⊥
SomeHolds rt i at (c ∷ cs) = (evaluate_condition rt i at c ≡ true) ⊎ SomeHolds rt i at cs

abbrev pub HoldsAs : Runtime → TransactionIntent → ℕ → Logic → List RuleCondition → Type 0
HoldsAs rt i at all_of cs = All (λ c. evaluate_condition rt i at c ≡ true) cs
HoldsAs rt i at any_of cs = SomeHolds rt i at cs

abbrev pub GroupHolds : Runtime → TransactionIntent → ℕ → RuleGroup → Type 0
GroupHolds rt i at g = HoldsAs rt i at g.logic g.conditions

abbrev failed_of : Runtime → TransactionIntent → ℕ → List RuleCondition → List RuleCondition
failed_of rt i at cs = keep (λ c. not (evaluate_condition rt i at c)) cs

failed-le :
    (rt : Runtime) (i : TransactionIntent) (at : ℕ) (cs : List RuleCondition)
    → length (failed_of rt i at cs) ≤ length cs
failed-le rt i at [] = omega arith
failed-le rt i at (c ∷ cs) = ground (arith, failed-le rt i at cs)

All-iff :
    (rt : Runtime) (i : TransactionIntent) (at : ℕ) (cs : List RuleCondition)
    → (length (failed_of rt i at cs) ≡ 0) ↔ All (λ c. evaluate_condition rt i at c ≡ true) cs
All-iff rt i at [] = (λ h. tt, λ h. refl)
All-iff rt i at (c ∷ cs) =
    let (into, back) = All-iff rt i at cs in
    elim (Bool-cases (evaluate_condition rt i at c)) [
      | inl e ↦ rw e (λ h. (refl, into h), λ h. back h.1)
      | inr e ↦ rw e (λ h. absurd (ground (arith, h)), λ h. absurd (false≢true h.0))
    ]

some_iff :
    (rt : Runtime) (i : TransactionIntent) (at : ℕ) (cs : List RuleCondition)
    → (length (failed_of rt i at cs) < length cs) ↔ SomeHolds rt i at cs
some_iff rt i at [] = (λ h. absurd (ground (arith, h)), λ h. absurd h)
some_iff rt i at (c ∷ cs) =
    let (into, back) = some_iff rt i at cs in
    let le = failed-le rt i at cs in
    elim (Bool-cases (evaluate_condition rt i at c)) [
      | inl e ↦ rw e (λ h. inl refl, λ h. omega (arith, le))
      | inr e ↦ rw e (
        λ h. inr (into (omega (arith, h))),
        λ h. elim h [
          | inl k ↦ absurd (false≢true k)
          | inr k ↦ (let lt = back k in omega (arith, lt))
        ],
      )
    ]

holds_iff :
    (rt : Runtime) (i : TransactionIntent) (at : ℕ) (l : Logic) (cs : List RuleCondition)
    → (holds_by l (length (failed_of rt i at cs)) (length cs) ≡ true) ↔ HoldsAs rt i at l cs
unfolding holds_by
holds_iff rt i at all_of cs =
    let (into, back) = All-iff rt i at cs in
    (λ h. into (ground (arith, h)), λ h. let e = back h in ground (arith, e))
holds_iff rt i at any_of cs =
    let (into, back) = some_iff rt i at cs in
    (λ h. into (ground (arith, h)), λ h. let e = back h in ground (arith, e))

group_iff :
    (rt : Runtime) (i : TransactionIntent) (at : ℕ) (g : RuleGroup)
    → (group_holds rt i at g ≡ true) ↔ GroupHolds rt i at g
unfolding group_holds
group_iff rt i at g = holds_iff rt i at g.logic g.conditions

pub check_rule_groups_iff :
    (rt : Runtime) (p : EvaluablePolicy) (gs : List RuleGroup) (i : TransactionIntent) (at : ℕ)
    → (check_rule_groups rt p gs i at ≡ []) ↔ All (GroupHolds rt i at) gs
unfolding check_rule_groups
check_rule_groups_iff rt p [] i at = (λ h. tt, λ h. refl)
check_rule_groups_iff rt p (g ∷ gs) i at =
    let ih = check_rule_groups_iff rt p gs i at in
    let (into, back) = group_iff rt i at g in
    elim (Bool-cases (group_holds rt i at g)) [
      | inl e ↦ rw e (λ h. (into e, ih.0 h), λ (x, h). ih.1 h)
      | inr e ↦ rw e (λ h. cc, λ (x, h). absurd (false≢true (sym e ∙ back x)))
    ]

pub check_emergency_lock_iff :
    (p : EvaluablePolicy) (c : Configuration)
    → (check_emergency_lock p c ≡ []) ↔ (c.emergency_lock ≡ false)
unfolding check_emergency_lock
check_emergency_lock_iff p c = when_iff c.emergency_lock _

-- The limits that apply to a leg: the policy's, with the maximum and minimum of its asset.
abbrev pub LegRespected : Runtime → EvaluablePolicy → TransactionIntent → ℕ → AssetTransfer → Type 0
LegRespected rt p intent at leg =
    RespectsLeg rt p (leg_config p.configuration (asset_limit rt p.configuration leg.asset))
      (leg_intent intent leg) at

pub check_leg_iff :
    (rt : Runtime) (p : EvaluablePolicy) (intent : TransactionIntent) (at : ℕ) (leg : AssetTransfer)
    → (check_leg rt p intent at leg ≡ []) ↔ LegRespected rt p intent at leg
unfolding check_leg
check_leg_iff rt p intent at leg =
    let c = leg_config p.configuration (asset_limit rt p.configuration leg.asset) in
    let i = leg_intent intent leg in
    let am = check_amount_iff rt p c i at in
    let assets = check_assets_iff p c i in
    let recipients = check_recipients_iff p c i in
    let periods = check_periodic_limits_iff rt p c i in
    (
      λ h.
          let (x, h') = (append-eq-nil_iff _ _).0 h in
          let (y, h'') = (append-eq-nil_iff _ _).0 h' in
          let (z, u) = (append-eq-nil_iff _ _).0 h'' in
          let (d, w, m) = periods.0 u in
          record {
            ceiling = (am.0 x).0;
            floor = (am.0 x).1;
            asset_allowed = (assets.0 y).0;
            asset_unblocked = (assets.0 y).1;
            recipient_allowed = (recipients.0 z).0;
            recipient_unblocked = (recipients.0 z).1;
            daily = d;
            weekly = w;
            monthly = m;
          },
      λ r. (append-eq-nil_iff _ _).1 (
        am.1 (r.ceiling, r.floor),
        (append-eq-nil_iff _ _).1 (
          assets.1 (r.asset_allowed, r.asset_unblocked),
          (append-eq-nil_iff _ _).1 (
            recipients.1 (r.recipient_allowed, r.recipient_unblocked),
            periods.1 (r.daily, r.weekly, r.monthly),
          ),
        ),
      ),
    )
