-- ===== src/RollingBudget/Tests.antt =====
-- A few spends.
use astroid_api.Common.{◌≤◌, ◌≡◌, refl, List, [], ◌∷◌, arith, length, All}
use astroid_api.RollingBudget.{Budget, check_and_reserve_budget}
use astroid_api.RollingBudget.Limits.{Spend, spent_lately, spend_all, spends_stay_within}

abbrev budgets : List Budget
budgets =
    record { id = "daily"; limit_amount = 100 } ∷ record { id = "strict"; limit_amount = 80 } ∷ []

abbrev spends : List Spend
spends =
    record { amount = 50; now = 10 }
    ∷ record { amount = 40; now = 20 }
    ∷ record { amount = 30; now = 30 }
    ∷ record { amount = 50; now = 200 }
    ∷ []

second_refused : length (spend_all budgets 100 spends []) ≡ 3
unfolding check_and_reserve_budget
second_refused = refl

spends_stay_within_example :
    All (λ c. spent_lately 100 200 (spend_all budgets 100 spends []) ≤ c.limit_amount) budgets
spends_stay_within_example =
    spends_stay_within budgets 100 0 spends []
      (omega arith, (omega arith, (omega arith, (omega arith, tt))))
      (omega arith, (omega arith, tt))
