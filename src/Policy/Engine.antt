-- ===== src/Policy/Engine.antt =====
-- modules/policies/policy.engine.ts: `evaluate`.
use astroid_api.Common.{
  ℕ, String, Bool, true, false, ◌&&◌, ◌||◌, Option, none, some, List, [], ◌∷◌, ◌++◌, map, str_eq,
  leb, if◌then◌else◌, or_else, or_other, keep,
}
use astroid_api.Policy.{
  AssetLimit, Configuration, AssetTransfer, TransactionIntent, PolicyViolation,
  PolicyEvaluationResult, EvaluablePolicy, Runtime,
}
use astroid_api.Policy.Text.{before_colon}
use astroid_api.Policy.Checks.{
  check_amount, check_assets, check_recipients, check_periodic_limits, check_time_window,
  check_velocity, check_rule_groups, check_emergency_lock, demands_approval,
}

-- `!policy.agentId || policy.agentId === intent.agentId`
unfoldable pub applies_to_agent : Option String → Option String → Bool
applies_to_agent none agent = true
applies_to_agent (some own) none = str_eq own ""
applies_to_agent (some own) (some agent) = str_eq own "" || str_eq own agent

unfoldable pub is_active : TransactionIntent → EvaluablePolicy → Bool
unfolding applies_to_agent
is_active intent p = p.enabled && applies_to_agent p.agent_id intent.agent_id

-- `.sort((a, b) => a.priority - b.priority)`, a stable sort
unfoldable pub insert : EvaluablePolicy → List EvaluablePolicy → List EvaluablePolicy
insert p [] = p ∷ []
insert p (q ∷ qs) =
    let rest = insert p qs in if leb p.priority q.priority then p ∷ q ∷ qs else q ∷ rest

unfoldable pub by_priority : List EvaluablePolicy → List EvaluablePolicy
by_priority [] = []
by_priority (p ∷ ps) = insert p (by_priority ps)

unfoldable pub active_policies : TransactionIntent → List EvaluablePolicy → List EvaluablePolicy
unfolding is_active
active_policies intent ps = by_priority (keep (is_active intent) ps)

unfoldable pub legs_of : TransactionIntent → List AssetTransfer → List AssetTransfer
legs_of intent [] =
    record {
      asset = intent.asset;
      amount = intent.amount;
      recipient_address = some intent.recipient_address;
    }
    ∷ []
legs_of intent (t ∷ ts) = t ∷ ts

unfoldable pub lookup_limit : String → List (String × AssetLimit) → Option AssetLimit
lookup_limit k [] = none
lookup_limit k ((j, l) ∷ rest) = if str_eq j k then some l else lookup_limit k rest

-- `assetLimits?.[code] ?? assetLimits?.[code.toLowerCase()]`
unfoldable pub asset_limit : Runtime → Configuration → String → Option AssetLimit
unfolding lookup_limit before_colon
asset_limit rt c asset =
    let code = rt.upper (before_colon asset) in
    or_other (lookup_limit code c.asset_limits) (lookup_limit (rt.lower code) c.asset_limits)

unfoldable pub leg_config : Configuration → Option AssetLimit → Configuration
leg_config c none = c
leg_config c (some l) = record c {
  max_amount = or_other l.max_amount c.max_amount;
  min_amount = or_other l.min_amount c.min_amount;
}

unfoldable pub leg_intent : TransactionIntent → AssetTransfer → TransactionIntent
leg_intent intent leg = record intent {
  asset = leg.asset;
  amount = leg.amount;
  recipient_address = or_else leg.recipient_address intent.recipient_address;
}

-- The body of the loop over the legs.
unfoldable pub check_leg :
    Runtime → EvaluablePolicy → TransactionIntent → ℕ → AssetTransfer → List PolicyViolation
unfolding asset_limit leg_config leg_intent
check_leg rt p intent at leg =
    let c = leg_config p.configuration (asset_limit rt p.configuration leg.asset) in
    let i = leg_intent intent leg in
    check_amount rt p c i at
    ++ (check_assets p c i ++ (check_recipients p c i ++ check_periodic_limits rt p c i))

unfoldable pub check_legs :
    Runtime → EvaluablePolicy → TransactionIntent → ℕ → List AssetTransfer → List PolicyViolation
check_legs rt p intent at [] = []
check_legs rt p intent at (leg ∷ legs) =
    check_leg rt p intent at leg ++ check_legs rt p intent at legs

-- The body of the loop over the active policies.
unfoldable pub check_policy :
    Runtime → TransactionIntent → ℕ → EvaluablePolicy → List PolicyViolation
check_policy rt intent at p =
    let c = p.configuration in
    check_legs rt p intent at (legs_of intent intent.transfers)
    ++ (check_time_window rt p c.time_window at
        ++ (check_velocity p c.velocity intent
            ++ (check_rule_groups rt p c.rules intent at ++ check_emergency_lock p c)))

unfoldable pub check_policies :
    Runtime → TransactionIntent → ℕ → List EvaluablePolicy → List PolicyViolation
check_policies rt intent at [] = []
check_policies rt intent at (p ∷ ps) = check_policy rt intent at p ++ check_policies rt intent at ps

unfoldable pub any_demands : TransactionIntent → List EvaluablePolicy → Bool
unfolding demands_approval
any_demands intent [] = false
any_demands intent (p ∷ ps) = demands_approval p.configuration intent || any_demands intent ps

abbrev pub is_empty {ℓ} : {A : Type ℓ} → List A → Bool
is_empty [] = true
is_empty (x ∷ xs) = false

abbrev pub first_id : List EvaluablePolicy → Option String
first_id [] = none
first_id (p ∷ ps) = some p.id

-- `now` is `new Date()`, used when the intent names no time.
unfoldable pub evaluate :
    Runtime → ℕ → TransactionIntent → List EvaluablePolicy → PolicyEvaluationResult
evaluate rt now intent policies =
    let active = active_policies intent policies in
    let violations = check_policies rt intent (or_else intent.at now) active in
    record {
      passed = is_empty violations;
      requires_approval = any_demands intent active;
      violations = violations;
      evaluated_policy_ids = map (λ p. p.id) active;
      matched_policy_id = first_id active;
    }
