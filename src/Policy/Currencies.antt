-- ===== src/Policy/Currencies.antt =====
-- modules/policies/policy.service.ts: `evaluateIntent`, which evaluates the policies of each base currency with
-- amounts converted to it. The price oracle's conversion is an argument, where `none` is a price that it cannot
-- give. Events and audit entries are left out.
use astroid_api.Common.{
  ℕ, ◌+◌, String, Bool, true, false, not, ◌&&◌, ◌||◌, Option, none, some, List, [], ◌∷◌, ◌++◌, map,
  str_eq, leb, if◌then◌else◌, or_else, or_other,
}
use astroid_api.Policy.{
  AssetTransfer, SpendPeriods, TransactionIntent, PolicyViolation, PolicyEvaluationResult,
  EvaluablePolicy, Runtime,
}
use astroid_api.Policy.Engine.{evaluate, is_empty}

-- A row of the policies, with `configuration.baseCurrency` and whether it is deleted.
pub record StoredPolicy : Type 0 where
  pub policy : EvaluablePolicy
  pub base_currency : Option String
  pub deleted : Bool

-- `convert(amount, asset, currency)`
abbrev pub Converter : Type 0
Converter = ℕ → String → String → Option ℕ

abbrev pub currency_of : Runtime → StoredPolicy → String
currency_of rt s = rt.upper (or_else s.base_currency "")

-- The groups in the order in which their currencies first appear.
abbrev pub Groups : Type 0
Groups = List (String × List EvaluablePolicy)

unfoldable pub add_to_group : String → EvaluablePolicy → Groups → Groups
add_to_group currency p [] = (currency, p ∷ []) ∷ []
add_to_group currency p ((c, group) ∷ groups) =
    let rest = add_to_group currency p groups in
    if str_eq c currency then (c, group ++ p ∷ []) ∷ groups else (c, group) ∷ rest

unfoldable pub group_from : Runtime → Groups → List StoredPolicy → Groups
group_from rt groups [] = groups
group_from rt groups (s ∷ policies) =
    group_from rt (add_to_group (currency_of rt s) s.policy groups) policies

abbrev pub group_by_limit_currency : Runtime → List StoredPolicy → Groups
group_by_limit_currency rt policies = group_from rt [] policies

abbrev pub then_convert {ℓ} : {A B : Type ℓ} → Option A → (A → Option B) → Option B
then_convert none f = none
then_convert (some a) f = f a

unfoldable pub convert_transfers :
    Converter → String → List AssetTransfer → Option (List AssetTransfer)
convert_transfers convert currency [] = some []
convert_transfers convert currency (leg ∷ legs) =
    let rest = convert_transfers convert currency legs in
    then_convert (convert leg.amount leg.asset currency)
      (λ n. then_convert rest (λ ls. some (record leg { amount = n } ∷ ls)))

abbrev pub convert_periods : Converter → String → String → SpendPeriods → Option SpendPeriods
convert_periods convert currency asset spend =
    then_convert (convert spend.spent_today asset currency) (λ today.
      then_convert (convert spend.spent_this_week asset currency) (λ week.
        then_convert (convert spend.spent_this_month asset currency) (λ month.
          some (record { spent_today = today; spent_this_week = week; spent_this_month = month }))))

unfoldable pub convert_spend_by_asset :
    Converter → String → List (String × SpendPeriods) → Option (List (String × SpendPeriods))
convert_spend_by_asset convert currency [] = some []
convert_spend_by_asset convert currency ((asset, spend) ∷ entries) =
    let rest = convert_spend_by_asset convert currency entries in
    then_convert (convert_periods convert currency asset spend)
      (λ s. then_convert rest (λ ss. some ((asset, s) ∷ ss)))

-- A period's spend, if the intent has it.
abbrev pub convert_spent : Converter → String → String → Option ℕ → Option (Option ℕ)
convert_spent convert currency asset none = some none
convert_spent convert currency asset (some n) =
    then_convert (convert n asset currency) (λ m. some (some m))

-- The amount is converted when the intent has no list of transfers.
abbrev pub convert_amount : Converter → String → TransactionIntent → List AssetTransfer → Option ℕ
convert_amount convert currency intent [] =
    if intent.empty_transfers
    then some intent.amount
    else convert intent.amount intent.asset currency
convert_amount convert currency intent (leg ∷ legs) = some intent.amount

unfoldable pub convert_intent : Converter → String → TransactionIntent → Option TransactionIntent
unfolding convert_transfers convert_spend_by_asset
convert_intent convert currency intent =
    then_convert (convert_transfers convert currency intent.transfers) (λ transfers.
      then_convert (convert_amount convert currency intent intent.transfers) (λ amount.
        then_convert (convert_spend_by_asset convert currency intent.spent_by_asset) (λ by_asset.
          then_convert (convert_spent convert currency intent.asset intent.spent_today) (λ today.
            then_convert (convert_spent convert currency intent.asset intent.spent_this_week)
              (λ week.
                then_convert (convert_spent convert currency intent.asset intent.spent_this_month)
                  (λ month. some (record intent {
                    amount = amount;
                    transfers = transfers;
                    spent_by_asset = by_asset;
                    spent_today = today;
                    spent_this_week = week;
                    spent_this_month = month;
                  })))))))

unfoldable pub prepare_intent : Converter → TransactionIntent → String → Option TransactionIntent
unfolding convert_intent
prepare_intent convert intent currency =
    if str_eq currency "" then some intent else convert_intent convert currency intent

-- What the loop over the groups collects.
pub record Collected : Type 0 where
  pub violations : List PolicyViolation
  pub evaluated : List String
  pub requires_approval : Bool
  pub matched : Option String

abbrev pub collect : Collected → PolicyEvaluationResult → Collected
collect so_far r = record {
  violations = so_far.violations ++ r.violations;
  evaluated = so_far.evaluated ++ r.evaluated_policy_ids;
  requires_approval = so_far.requires_approval || r.requires_approval;
  matched = or_other so_far.matched r.matched_policy_id;
}

unfoldable pub evaluate_groups :
    Runtime → Converter → ℕ → TransactionIntent → Collected → Groups → Option Collected
unfolding prepare_intent
evaluate_groups rt convert now intent so_far [] = some so_far
evaluate_groups rt convert now intent so_far ((currency, group) ∷ groups) =
    then_convert (prepare_intent convert intent currency)
      (λ i. evaluate_groups rt convert now intent (collect so_far (evaluate rt now i group)) groups)

-- `findIndex`, with `Number.MAX_SAFE_INTEGER` for a policy that is not there.
unfoldable pub index_of : String → List StoredPolicy → ℕ → ℕ
index_of id [] at = 9007199254740991
index_of id (s ∷ policies) at =
    let rest = index_of id policies (at + 1) in if str_eq s.policy.id id then at else rest

-- `sort` by the index, a stable sort.
unfoldable pub insert_by_index : ℕ × String → List (ℕ × String) → List (ℕ × String)
insert_by_index e [] = e ∷ []
insert_by_index (i, id) ((j, other) ∷ entries) =
    let rest = insert_by_index (i, id) entries in
    if leb i j then (i, id) ∷ (j, other) ∷ entries else (j, other) ∷ rest

unfoldable pub sort_by_index : List StoredPolicy → List String → List (ℕ × String)
unfolding insert_by_index index_of
sort_by_index policies [] = []
sort_by_index policies (id ∷ ids) =
    insert_by_index (index_of id policies 0, id) (sort_by_index policies ids)

abbrev pub result_of : List StoredPolicy → Collected → PolicyEvaluationResult
unfolding sort_by_index
result_of policies c = record {
  passed = is_empty c.violations;
  requires_approval = c.requires_approval;
  violations = c.violations;
  evaluated_policy_ids = map (λ e. e.1) (sort_by_index policies c.evaluated);
  matched_policy_id = c.matched;
}

abbrev pub nothing_collected : Collected
nothing_collected = record {
  violations = [];
  evaluated = [];
  requires_approval = false;
  matched = none;
}

-- `evaluateAgainstPolicies`, which fails when a price that it needs is not there.
unfoldable pub evaluate_against_policies :
    Runtime → Converter → ℕ → TransactionIntent → List StoredPolicy → Option PolicyEvaluationResult
unfolding group_from evaluate_groups sort_by_index
evaluate_against_policies rt convert now intent policies =
    then_convert
      (evaluate_groups rt convert now intent nothing_collected
        (group_by_limit_currency rt policies))
      (λ c. some (result_of policies c))

-- `findActiveForEvaluation` in spending-policy.repository.ts: the rows of an organization that are enabled, not
-- deleted, and for every agent or for this one, by their priority; those of one priority stay in order.
abbrev pub is_for : Option String → Option String → Bool
is_for none agent = true
is_for (some own) none = false
is_for (some own) (some agent) = not (str_eq agent "") && str_eq own agent

unfoldable pub is_listed : Option String → StoredPolicy → Bool
is_listed agent s = s.policy.enabled && (not s.deleted && is_for s.policy.agent_id agent)

unfoldable pub insert_listed : StoredPolicy → List StoredPolicy → List StoredPolicy
insert_listed s [] = s ∷ []
insert_listed s (t ∷ ts) =
    let rest = insert_listed s ts in
    if leb s.policy.priority t.policy.priority then s ∷ t ∷ ts else t ∷ rest

unfoldable pub find_active_for_evaluation : Option String → List StoredPolicy → List StoredPolicy
unfolding is_listed insert_listed
find_active_for_evaluation agent [] = []
find_active_for_evaluation agent (s ∷ rows) =
    let rest = find_active_for_evaluation agent rows in
    if is_listed agent s then insert_listed s rest else rest

unfoldable pub evaluate_intent :
    Runtime → Converter → ℕ → TransactionIntent → List StoredPolicy → Option PolicyEvaluationResult
unfolding evaluate_against_policies find_active_for_evaluation
evaluate_intent rt convert now intent rows =
    evaluate_against_policies rt convert now intent
      (find_active_for_evaluation intent.agent_id rows)
