-- ===== src/Policy/Decides.antt =====
-- The engine passes an intent exactly when every policy that applies to it is respected.
use astroid_api.Common.{
  ℕ, ◌<◌, ◌≡◌, refl, sym, ◌∙◌, ◌↔◌, inl, inr, Bool, true, false, ◌||◌, Option, none, some, List, [],
  ◌∷◌, arith, leb, Bool-cases, or_else, All, keep, All-keep, keep-All,
}
use mathlib.Core.Bool.{false≢true}
use astroid_api.Policy.{AssetTransfer, TransactionIntent, EvaluablePolicy, Runtime}
use astroid_api.Policy.Checks.{and_limit, demands_approval}
use astroid_api.Policy.Engine.{
  is_active, insert, by_priority, active_policies, legs_of, check_legs, check_policy,
  check_policies, any_demands, is_empty, evaluate,
}
use astroid_api.Policy.Spec.{InWindow, SlowEnough, append-eq-nil_iff}
use astroid_api.Policy.SpecRules.{
  GroupHolds, LegRespected, check_leg_iff, check_time_window_iff, check_velocity_iff,
  check_rule_groups_iff, check_emergency_lock_iff,
}

-- An intent keeps to a policy at a time.
pub record Respects (rt : Runtime) (intent : TransactionIntent) (at : ℕ) (p : EvaluablePolicy)
    : Type 0 where
  pub legs : All (LegRespected rt p intent at) (legs_of intent intent.transfers)
  pub in_window : InWindow rt at p.configuration.time_window
  pub slow_enough : SlowEnough intent p.configuration.velocity
  pub groups : All (GroupHolds rt intent at) p.configuration.rules
  pub unlocked : p.configuration.emergency_lock ≡ false

module _ (rt : Runtime) (intent : TransactionIntent) (at : ℕ) where
  check_legs_iff :
      (p : EvaluablePolicy) (legs : List AssetTransfer)
      → (check_legs rt p intent at legs ≡ []) ↔ All (LegRespected rt p intent at) legs
  unfolding check_legs
  check_legs_iff p [] = (λ h. tt, λ h. refl)
  check_legs_iff p (leg ∷ legs) =
      let ih = check_legs_iff p legs in
      let here = check_leg_iff rt p intent at leg in
      (
        λ h. let (x, y) = (append-eq-nil_iff _ _).0 h in (here.0 x, ih.0 y),
        λ (x, y). (append-eq-nil_iff _ _).1 (here.1 x, ih.1 y),
      )

  pub check_policy_iff :
      (p : EvaluablePolicy) → (check_policy rt intent at p ≡ []) ↔ Respects rt intent at p
  unfolding check_policy
  check_policy_iff p =
      let c = p.configuration in
      let legs = check_legs_iff p (legs_of intent intent.transfers) in
      let window = check_time_window_iff rt p c.time_window at in
      let velocity = check_velocity_iff p c.velocity intent in
      let groups = check_rule_groups_iff rt p c.rules intent at in
      let lock = check_emergency_lock_iff p c in
      (
        λ h.
            let (a, h₁) = (append-eq-nil_iff _ _).0 h in
            let (b, h₂) = (append-eq-nil_iff _ _).0 h₁ in
            let (d, h₃) = (append-eq-nil_iff _ _).0 h₂ in
            let (e, f) = (append-eq-nil_iff _ _).0 h₃ in
            record {
              legs = legs.0 a;
              in_window = window.0 b;
              slow_enough = velocity.0 d;
              groups = groups.0 e;
              unlocked = lock.0 f;
            },
        λ r. (append-eq-nil_iff _ _).1 (
          legs.1 r.legs,
          (append-eq-nil_iff _ _).1 (
            window.1 r.in_window,
            (append-eq-nil_iff _ _).1 (
              velocity.1 r.slow_enough,
              (append-eq-nil_iff _ _).1 (groups.1 r.groups, lock.1 r.unlocked),
            ),
          ),
        ),
      )

  check_policies_iff :
      (ps : List EvaluablePolicy)
      → (check_policies rt intent at ps ≡ []) ↔ All (Respects rt intent at) ps
  unfolding check_policies
  check_policies_iff [] = (λ h. tt, λ h. refl)
  check_policies_iff (p ∷ ps) =
      let ih = check_policies_iff ps in
      let here = check_policy_iff p in
      (
        λ h. let (x, y) = (append-eq-nil_iff _ _).0 h in (here.0 x, ih.0 y),
        λ (x, y). (append-eq-nil_iff _ _).1 (here.1 x, ih.1 y),
      )

-- Sorting keeps what holds of every policy.
insert-All :
    (P : EvaluablePolicy → Type 0) (p : EvaluablePolicy) (ps : List EvaluablePolicy)
    → All P (insert p ps) ↔ (P p × All P ps)
unfolding insert
insert-All P p [] = (λ h. h, λ h. h)
insert-All P p (q ∷ qs) =
    let ih = insert-All P p qs in
    elim (Bool-cases (leb p.priority q.priority)) [
      | inl e ↦ rw e (λ h. h, λ h. h)
      | inr e ↦ rw e (λ (b, h). ((ih.0 h).0, (b, (ih.0 h).1)), λ (a, (b, h)). (b, ih.1 (a, h)))
    ]

pub by_priority-All :
    (P : EvaluablePolicy → Type 0) (ps : List EvaluablePolicy) → All P (by_priority ps) ↔ All P ps
unfolding by_priority
by_priority-All P [] = (λ h. h, λ h. h)
by_priority-All P (p ∷ ps) =
    let ih = by_priority-All P ps in
    let i = insert-All P p (by_priority ps) in
    (λ h. let (a, r) = i.0 h in (a, ih.0 r), λ (a, r). i.1 (a, ih.1 r))

-- What holds of every active policy, in whatever order.
pub active_policies-All :
    (P : EvaluablePolicy → Type 0) (intent : TransactionIntent) (ps : List EvaluablePolicy)
    → All P (active_policies intent ps) ↔ All (λ p. is_active intent p ≡ true → P p) ps
unfolding active_policies
active_policies-All P intent ps =
    let s = by_priority-All P (keep (is_active intent) ps) in
    (λ h. keep-All P (is_active intent) ps (s.0 h), λ h. s.1 (All-keep P (is_active intent) ps h))

pub is_empty_iff {ℓ} : {A : Type ℓ} (xs : List A) → (is_empty xs ≡ true) ↔ (xs ≡ [])
is_empty_iff [] = (λ h. refl, λ h. refl)
is_empty_iff (x ∷ xs) = (λ h. cc, λ h. cc)

pub evaluate-passed_iff :
    (rt : Runtime) (now : ℕ) (intent : TransactionIntent) (policies : List EvaluablePolicy)
    → ((evaluate rt now intent policies).passed ≡ true)
      ↔ All (λ p. is_active intent p ≡ true → Respects rt intent (or_else intent.at now) p) policies
unfolding evaluate
evaluate-passed_iff rt now intent policies =
    let at = or_else intent.at now in
    let e = is_empty_iff (check_policies rt intent at (active_policies intent policies)) in
    let c = check_policies_iff rt intent at (active_policies intent policies) in
    let a = active_policies-All (Respects rt intent at) intent policies in
    (λ h. a.0 (c.0 (e.0 h)), λ h. e.1 (c.1 (a.1 h)))

abbrev pub Below : Option ℕ → ℕ → Type 0
Below none n = Unit
Below (some t) n = n < t

-- A policy lets an amount through without a human.
abbrev pub NeedsNoApproval : TransactionIntent → EvaluablePolicy → Type 0
NeedsNoApproval intent p =
    (p.configuration.requires_approval ≡ false)
    × Below p.configuration.approval_threshold intent.amount

demands_iff :
    (intent : TransactionIntent) (p : EvaluablePolicy)
    → (demands_approval p.configuration intent ≡ false) ↔ NeedsNoApproval intent p
unfolding demands_approval
demands_iff intent p = go p.configuration.requires_approval p.configuration.approval_threshold
  where
    go :
        (flag : Bool) (o : Option ℕ)
        → ((flag || and_limit o (λ t. leb t intent.amount)) ≡ false)
          ↔ ((flag ≡ false) × Below o intent.amount)
    go true o = (λ h. cc, λ (x, h). cc)
    go false none = (λ h. (refl, tt), λ h. refl)
    go false (some t) = (λ h. (refl, ground arith), λ (x, h). ground arith)

any_demands_iff :
    (intent : TransactionIntent) (ps : List EvaluablePolicy)
    → (any_demands intent ps ≡ false) ↔ All (NeedsNoApproval intent) ps
unfolding any_demands
any_demands_iff intent [] = (λ h. tt, λ h. refl)
any_demands_iff intent (p ∷ ps) =
    let ih = any_demands_iff intent ps in
    let here = demands_iff intent p in
    elim (Bool-cases (demands_approval p.configuration intent)) [
      | inl e ↦ rw e (λ h. cc, λ (x, h). absurd (false≢true (sym (here.1 x) ∙ e)))
      | inr e ↦ rw e (λ h. (here.0 e, ih.0 h), λ (x, h). ih.1 h)
    ]

-- An intent needs no approval exactly when no policy that is enabled and applies to its agent
-- demands one, by its flag or by a threshold that the amount reaches.
pub evaluate-approval_iff :
    (rt : Runtime) (now : ℕ) (intent : TransactionIntent) (policies : List EvaluablePolicy)
    → ((evaluate rt now intent policies).requires_approval ≡ false)
      ↔ All (λ p. is_active intent p ≡ true → NeedsNoApproval intent p) policies
unfolding evaluate
evaluate-approval_iff rt now intent policies =
    let d = any_demands_iff intent (active_policies intent policies) in
    let a = active_policies-All (NeedsNoApproval intent) intent policies in
    (λ h. a.0 (d.0 h), λ h. d.1 (a.1 h))
