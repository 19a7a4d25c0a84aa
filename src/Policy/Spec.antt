-- ===== src/Policy/Spec.antt =====
-- What a policy asks of an intent, stated without violations, and that each check of the engine
-- finds nothing exactly when its part is met.
use astroid_api.Common.{
  ℕ, ◌≤◌, ◌<◌, String, ◌≡◌, refl, ◌↔◌, inl, inr, Bool, true, false, not, Option, none, some, List,
  [], ◌∷◌, ◌++◌, arith, ltb, Bool-cases, or_else, includes, In, includes→In, In→includes,
}
use astroid_api.Policy.{
  TimeWindow, Velocity, Configuration, TransactionIntent, PolicyViolation, EvaluablePolicy, Runtime,
}
use astroid_api.Policy.Conditions.{resolve_local_time}
use astroid_api.Policy.Checks.{
  when, and_limit, and_list, effective_max_amount, check_amount, check_assets, check_recipients,
  executed_count,
}

abbrev pub AtMost : Option ℕ → ℕ → Type 0
AtMost none n = Unit
AtMost (some l) n = n ≤ l

abbrev pub AtLeast : Option ℕ → ℕ → Type 0
AtLeast none n = Unit
AtLeast (some l) n = l ≤ n

abbrev pub IsAllowed : Option (List String) → String → Type 0
IsAllowed none s = Unit
IsAllowed (some l) s = In s l

abbrev pub IsUnblocked : Option (List String) → String → Type 0
IsUnblocked none s = Unit
IsUnblocked (some l) s = ¬ (In s l)

abbrev pub OnDays : Option (List ℕ) → ℕ → Type 0
OnDays none d = Unit
OnDays (some l) d = In d l

abbrev pub InWindow : Runtime → ℕ → Option TimeWindow → Type 0
InWindow rt at none = Unit
InWindow rt at (some w) =
    (w.start_hour ≤ (resolve_local_time rt at w.timezone).hour)
    × ((resolve_local_time rt at w.timezone).hour < w.end_hour)
    × OnDays w.days (resolve_local_time rt at w.timezone).day_of_week

abbrev pub SlowEnough : TransactionIntent → Option Velocity → Type 0
SlowEnough intent none = Unit
SlowEnough intent (some v) = executed_count intent v.window < v.max_transactions

-- The sum of what was spent and the amount, in doubles, is at most the limit.
abbrev pub SumWithin : Runtime → Option ℕ → Option ℕ → ℕ → Type 0
SumWithin rt none spent amount = Unit
SumWithin rt (some l) spent amount = rt.sum_exceeds (or_else spent 0) amount l ≡ false

-- What one leg must satisfy: the amount's bounds, the lists, and the periodic limits.
pub record RespectsLeg (rt : Runtime) (p : EvaluablePolicy) (c : Configuration)
    (i : TransactionIntent) (at : ℕ) : Type 0 where
  pub ceiling : AtMost (effective_max_amount p c at) i.amount
  pub floor : AtLeast c.min_amount i.amount
  pub asset_allowed : IsAllowed c.allowed_assets i.asset
  pub asset_unblocked : IsUnblocked c.blocked_assets i.asset
  pub recipient_allowed : IsAllowed c.allowed_recipients i.recipient_address
  pub recipient_unblocked : IsUnblocked c.blocked_recipients i.recipient_address
  pub daily : SumWithin rt c.daily_limit i.spent_today i.amount
  pub weekly : SumWithin rt c.weekly_limit i.spent_this_week i.amount
  pub monthly : SumWithin rt c.monthly_limit i.spent_this_month i.amount

pub append-eq-nil_iff {ℓ} :
    {A : Type ℓ} (xs ys : List A) → (xs ++ ys ≡ []) ↔ ((xs ≡ []) × (ys ≡ []))
append-eq-nil_iff [] ys = (λ h. (refl, h), λ h. h.1)
append-eq-nil_iff (x ∷ xs) ys = (λ h. cc, λ h. cc)

pub when_iff : (b : Bool) (v : PolicyViolation) → (when b v ≡ []) ↔ (b ≡ false)
when_iff true v = (λ h. cc, λ h. cc)
when_iff false v = (λ h. refl, λ h. refl)

pub over_iff : (o : Option ℕ) (n : ℕ) → (and_limit o (λ l. ltb l n) ≡ false) ↔ AtMost o n
over_iff none n = (λ h. tt, λ h. refl)
over_iff (some l) n = ground arith

under_iff : (o : Option ℕ) (n : ℕ) → (and_limit o (λ l. ltb n l) ≡ false) ↔ AtLeast o n
under_iff none n = (λ h. tt, λ h. refl)
under_iff (some l) n = ground arith

allow_list_iff :
    (o : Option (List String)) (s : String)
    → (and_list o (λ l. not (includes l s)) ≡ false) ↔ IsAllowed o s
allow_list_iff none s = (λ h. tt, λ h. refl)
allow_list_iff (some l) s =
    (λ h. includes→In l s (ground arith), λ h. ground (arith, In→includes l s h))

block_list_iff :
    (o : Option (List String)) (s : String)
    → (and_list o (λ l. includes l s) ≡ false) ↔ IsUnblocked o s
block_list_iff none s = (λ h. tt, λ h. refl)
block_list_iff (some l) s = (
  λ h k. cc (In→includes l s k, h),
  λ h. elim (Bool-cases (includes l s)) [ inl e ↦ absurd (h (includes→In l s e)) | inr e ↦ e ],
)

-- Two tests that each raise one violation are silent exactly when both are met.
both_iff :
    {P Q : Type 0} (a b : Bool) (v w : PolicyViolation)
    → (a ≡ false) ↔ P
    → (b ≡ false) ↔ Q
    → (when a v ++ when b w ≡ []) ↔ (P × Q)
both_iff a b v w p q = (
  λ h.
      let (x, y) = (append-eq-nil_iff (when a v) (when b w)).0 h in
      (p.0 ((when_iff a v).0 x), q.0 ((when_iff b w).0 y)),
  λ (x, y).
      (append-eq-nil_iff (when a v) (when b w)).1
        ((when_iff a v).1 (p.1 x), (when_iff b w).1 (q.1 y)),
)

pub check_amount_iff :
    (rt : Runtime) (p : EvaluablePolicy) (c : Configuration) (i : TransactionIntent) (at : ℕ)
    → (check_amount rt p c i at ≡ [])
      ↔ (AtMost (effective_max_amount p c at) i.amount × AtLeast c.min_amount i.amount)
unfolding check_amount
check_amount_iff rt p c i at =
    both_iff _ _ _ _ (over_iff _ i.amount) (under_iff c.min_amount i.amount)

pub check_assets_iff :
    (p : EvaluablePolicy) (c : Configuration) (i : TransactionIntent)
    → (check_assets p c i ≡ [])
      ↔ (IsAllowed c.allowed_assets i.asset × IsUnblocked c.blocked_assets i.asset)
unfolding check_assets
check_assets_iff p c i =
    both_iff _ _ _ _ (allow_list_iff c.allowed_assets i.asset)
      (block_list_iff c.blocked_assets i.asset)

pub check_recipients_iff :
    (p : EvaluablePolicy) (c : Configuration) (i : TransactionIntent)
    → (check_recipients p c i ≡ []) ↔ (
        IsAllowed c.allowed_recipients i.recipient_address
        × IsUnblocked c.blocked_recipients i.recipient_address)
unfolding check_recipients
check_recipients_iff p c i =
    both_iff _ _ _ _ (allow_list_iff c.allowed_recipients i.recipient_address)
      (block_list_iff c.blocked_recipients i.recipient_address)
