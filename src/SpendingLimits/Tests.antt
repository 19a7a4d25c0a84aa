-- ===== src/SpendingLimits/Tests.antt =====
-- An agent with a daily limit of 100 and a policy in dollars, on the second Sunday of 1970.
use astroid_api.Common.{
  ℕ, ◌+◌, ◌*◌, ◌%◌, ◌≤◌, ◌≡◌, refl, inl, inr, true, false, none, some, List, [], ◌∷◌, arith, ltb,
  All,
}
use astroid_api.Policy.{Configuration, TransactionIntent, Runtime, nan}
use astroid_api.Policy.Checks.{
  check_amount, check_assets, check_recipients, check_periodic_limits, check_time_window,
  check_velocity, check_rule_groups, check_emergency_lock,
}
use astroid_api.Policy.Engine.{
  is_active, insert, by_priority, active_policies, legs_of, check_leg, check_legs, check_policy,
  check_policies, any_demands, applies_to_agent, leg_config, leg_intent, evaluate,
}
use astroid_api.Policy.Currencies.{
  StoredPolicy, Converter, is_listed, find_active_for_evaluation, insert_listed,
  evaluate_against_policies, evaluate_intent, evaluate_groups, group_from, add_to_group,
  prepare_intent, convert_intent, convert_transfers, convert_spend_by_asset,
}
use astroid_api.SpendingLimits.{
  SpentRow, allowed, window_bounds, spent_since, aggregate_spend, has_spending_limit_policy, enrich,
  evaluate_spending_limits,
}
use astroid_api.SpendingLimits.Spent.{spent_from, spent_in_periods}
use astroid_api.SpendingLimits.Enforced.{BindsAgent, allowed-WithinLimits}
use astroid_api.SpendingLimits.Within.{IsPlain, Rounds, WithinLimits}
use astroid_api.SpendingLimits.Day.{Spend, pay, pay_all, Binds, day_within_limit}

abbrev rt : Runtime
rt = record {
  upper = λ s. s;
  lower = λ s. s;
  show_number = λ n. "";
  parse_number = λ s. nan;
  zone_parts = λ t z. none;
  sum_exceeds = λ spent amount limit. ltb limit (spent + amount);
  whole = λ n. n * 10000000;
}

abbrev dates : ℕ → ℕ
dates day = day % 31 + 1

abbrev noon : ℕ
noon = 907200000

abbrev open_to_all : Configuration
open_to_all = record {
  max_amount = none;
  min_amount = none;
  allowed_assets = none;
  blocked_assets = none;
  allowed_recipients = none;
  blocked_recipients = none;
  daily_limit = none;
  weekly_limit = none;
  monthly_limit = none;
  time_window = none;
  velocity = none;
  rules = [];
  requires_approval = false;
  approval_threshold = none;
  emergency_lock = false;
  asset_limits = [];
}

abbrev daily : StoredPolicy
daily = record {
  policy = record {
    id = "daily";
    priority = 1;
    enabled = true;
    agent_id = some "bot";
    configuration = record open_to_all { daily_limit = some 100 };
    override_limit = none;
    override_until = none;
    original_limit = none;
  };
  base_currency = none;
  deleted = false;
}

abbrev in_dollars : StoredPolicy
in_dollars = record daily {
  policy = record daily.policy {
    id = "dollars";
    priority = 2;
    configuration = record open_to_all { max_amount = some 500 };
  };
  base_currency = some "USD";
}

abbrev rate : Converter
rate n asset currency = some (n * 2)

abbrev payment : TransactionIntent
payment = record {
  agent_id = some "bot";
  asset = "XLM";
  amount = 40;
  recipient_address = "GA";
  at = none;
  spent_today = none;
  spent_this_week = none;
  spent_this_month = none;
  transaction_count = none;
  transaction_counts = λ w. none;
  transfers = [];
  empty_transfers = false;
  spent_by_asset = [];
}

abbrev policies : List StoredPolicy
policies = in_dollars ∷ daily ∷ []

computes : Unit {0}
unfolding evaluate active_policies insert by_priority legs_of check_leg check_legs check_policy
    check_policies any_demands check_amount check_assets check_recipients check_periodic_limits
    check_time_window check_velocity check_rule_groups check_emergency_lock is_active
    applies_to_agent leg_config leg_intent is_listed find_active_for_evaluation insert_listed
    evaluate_against_policies evaluate_intent evaluate_groups group_from add_to_group prepare_intent
    convert_intent convert_transfers convert_spend_by_asset evaluate_spending_limits window_bounds
    spent_since aggregate_spend has_spending_limit_policy enrich pay pay_all
computes = tt

abbrev no_spend : List SpentRow
no_spend = []

passes : evaluate_spending_limits rt rate dates noon no_spend policies "org" none payment ≡ allowed
unfolding computes
passes = refl

plain : IsPlain "bot" payment
plain = record { of_agent = refl; named = refl; bare = refl; single = refl }

-- No rounding.
abbrev none_hidden : ℕ → ℕ
none_hidden limit = 0

exact : Rounds rt none_hidden
exact spent amount limit h = ground (arith, h)

allowed-WithinLimits_example :
    All
      (λ s.
        BindsAgent "bot" s
        → WithinLimits none_hidden s.policy.configuration
            (spent_in_periods dates noon no_spend "bot" payment.asset)
            payment.amount)
      policies
allowed-WithinLimits_example =
    allowed-WithinLimits rt none_hidden rate dates noon no_spend policies "org" none "bot" payment
      refl exact plain passes

abbrev spends : List Spend
spends =
    record { intent = payment; time = noon }
    ∷ record { intent = record payment { amount = 60 }; time = noon + 1 }
    ∷ record { intent = payment; time = noon + 2 }
    ∷ []

abbrev after : List SpentRow
after = pay_all rt rate dates policies "org" none "bot" no_spend spends

-- The third is not allowed: the limit is reached.
spends_up : spent_from "bot" "XLM" 10 after ≡ 100
unfolding computes
spends_up = refl

binds : Binds rt rate dates policies "org" none "bot" daily 100
binds = record {
  present = inr (inl refl);
  binds = record { on = refl; there = refl; for_agent = inr refl; native = refl };
  daily = refl;
}

day_within_limit_example : spent_from "bot" "XLM" 10 after ≤ 100 + none_hidden 100
day_within_limit_example =
    day_within_limit rt rate dates policies "org" none "bot" none_hidden daily 100 10 "XLM" no_spend
      spends refl exact binds
      (
        (plain, refl),
        (
          (record { of_agent = refl; named = refl; bare = refl; single = refl }, refl),
          ((plain, refl), tt),
        ),
      )
      (omega arith)
